-- ===== src/Admit/Waiting.antt =====
-- The new task while `admit_task` waits for the ack, and what a full outbox does.
use backplaned_agents.Prelude.{
  nat_eq, list_eq, option_eq, Text, lookup, ℕ, ◌≡◌, refl, sym, ap, ◌∙◌, inl, inr, true, Option,
  none, some, [], ◌∷◌, ◌++◌, arith,
}
use mathlib.Core.Path.{subst}
use backplaned_agents.State.{TaskRow, find_task, queued}
use backplaned_agents.Delivery.{
  Hub, Socket, Sent, deliver_frame, not_connected, queue_full, awaiting, is_full,
}
use backplaned_agents.Delivery.{queued as just_queued}
use backplaned_agents.Tasks.App.{Ack}
use backplaned_agents.Tasks.App.{App, Frame, NewTaskFrame, new_task_frame}
use backplaned_agents.Tasks.Checks.{queue_is_full}
use backplaned_agents.Admit.Guards.{AdmitSetting, Router}
use backplaned_agents.Admit.Admission.{
  goes_on, returns, refuses, open_task, dispatch_task, sent_off, cache_caller_agent, frame_for,
  admitted_event,
}
use backplaned_agents.Admit.Opened.{
  Written, logged, with_db, before_ack, opened_with, open_cases, row_is_there,
}

sent_waits :
    (app : App) (row row' : TaskRow) (frame : NewTaskFrame) (sent : Sent) (fut : ℕ)
    → (sent_off app row frame sent).1 ≡ goes_on (row', fut)
    → (row ≡ row') × ((sent_off app row frame sent).0 ≡ app)
sent_waits app row row' frame not_connected fut h = absurd (ground (arith, h))
sent_waits app row row' frame queue_full fut h = absurd (ground (arith, h))
sent_waits app row row' frame just_queued fut h = absurd (ground (arith, h))
sent_waits app row row' frame (awaiting f) fut h = (ground (arith, h), refl)

full_queue :
    (hub : Hub Frame Ack) (dest cid : Text) (f : Frame) (t : Option ℕ) (now : ℕ)
    (socket : Socket Frame)
    → lookup dest hub.sockets ≡ some socket
    → is_full socket ≡ true
    → (deliver_frame hub dest cid f true t now).1 ≡ queue_full
unfolding deliver_frame
full_queue hub dest cid f t now socket here full = rw (here, deliver_frame) (rw full refl)

module _ {Schema : Type 0} (setting : AdmitSetting Schema) (r : Router) (frame : NewTaskFrame)
    (caller level task_id cid : Text) (now : ℕ) where
  -- the call waits with a row that its transaction has written
  pub waits_with :
      (row : TaskRow) (fut : ℕ)
      → (open_task setting r frame caller level task_id cid now).1 ≡ goes_on (row, fut)
      → (p : Written setting r frame caller level task_id cid now) × (p.row ≡ row)
        × ((open_task setting r frame caller level task_id cid now).0.app.db
            ≡ logged setting r frame caller level task_id cid now p)
  unfolding dispatch_task cache_caller_agent
  waits_with row fut h = elim (open_cases setting r frame caller level task_id cid now) [
    | inr (goes_on x, same, s) ↦ absurd (ground (arith, s))
    | inr (returns x, same, s) ↦ absurd (ground (arith, sym (ap (λ x. x.1) same) ∙ h))
    | inr (refuses x, same, s) ↦ absurd (ground (arith, sym (ap (λ x. x.1) same) ∙ h))
    | inl p ↦
        let o = opened_with setting r frame caller level task_id cid now p in
        let (app', sent) =
          before_ack (with_db r (logged setting r frame caller level task_id cid now p))
            setting.common p.row frame caller level cid now in
        let (is_row, same) = sent_waits app' p.row row frame sent fut (sym (ap (λ x. x.1) o) ∙ h) in
        (p, is_row, ap (λ x. x.0.app.db) o ∙ ap (λ a. a.db) same)
  ]

  -- Where the call waits for the ack, the id was new, and the tables have grown by one queued row of
  -- that id and one event that names the caller.
  pub new_task_waits :
      (row : TaskRow) (fut : ℕ)
      → (open_task setting r frame caller level task_id cid now).1 ≡ goes_on (row, fut)
      → let db' = (open_task setting r frame caller level task_id cid now).0.app.db in
        (find_task task_id r.app.db.tasks ≡ none)
        × (find_task task_id db'.tasks ≡ some row)
        × (row.state ≡ queued)
        × (db'.tasks ≡ r.app.db.tasks ++ row ∷ [])
        × (db'.events ≡ r.app.db.events ++ admitted_event task_id caller ∷ [])
  new_task_waits row fut h =
      let (p, same, e) = waits_with row fut h in
      let (found, id, q) = row_is_there setting r frame caller level task_id cid now p in
      (
        p.made.fresh,
        ap (λ d. find_task task_id d.tasks) e
            ∙ subst
                (λ t.
                  find_task t (logged setting r frame caller level task_id cid now p).tasks
                  ≡ some p.row)
                id found
            ∙ ap (λ x. some x) same,
        ap (λ x. x.state) (sym same) ∙ q,
        ap (λ d. d.tasks) e
            ∙ ap (λ d. d.tasks) p.made.appended
            ∙ ap (λ x. r.app.db.tasks ++ x ∷ []) (sym p.made.row_is ∙ same),
        ap (λ d. d.events) e
            ∙ ap (λ d. d.events ++ admitted_event p.row.task_id caller ∷ []) p.made.appended
            ∙ ap (λ t. r.app.db.events ++ admitted_event t caller ∷ []) id,
      )

  -- A full outbox of the destination ends the call with an exception and leaves the new row queued:
  -- `_safe_fail` is not reached.
  pub full_outbox_leaves_queued :
      (socket : Socket Frame)
      → lookup frame.destination_agent_id r.app.hub.sockets ≡ some socket
      → is_full socket ≡ true
      → Written setting r frame caller level task_id cid now
      → let (r', answer) = open_task setting r frame caller level task_id cid now in
        (answer ≡ refuses queue_is_full)
        × ((row : TaskRow) × (find_task task_id r'.app.db.tasks ≡ some row) × (row.state ≡ queued))
  unfolding dispatch_task cache_caller_agent deliver_frame
  full_outbox_leaves_queued socket here full p =
      let o = opened_with setting r frame caller level task_id cid now p in
      let (found, id, q) = row_is_there setting r frame caller level task_id cid now p in
      let written = logged setting r frame caller level task_id cid now p in
      let (app', sent) =
        before_ack (with_db r written) setting.common p.row frame caller level cid now in
      let f = new_task_frame (frame_for frame p.row level) in
      let e = ap (sent_off app' p.row frame) (
        full_queue r.app.hub frame.destination_agent_id cid f setting.common.pending_ack_timeout_s
          now socket here full) in
      (
        ap (λ x. x.1) o ∙ ap (λ x. x.1) e,
        (
          p.row,
          ap (λ x. find_task task_id x.0.app.db.tasks) o
              ∙ ap (λ x. find_task task_id x.0.db.tasks) e
              ∙ subst (λ t. find_task t written.tasks ≡ some p.row) id found,
          q,
        ),
      )
