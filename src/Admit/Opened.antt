-- ===== src/Admit/Opened.antt =====
-- What `admit_task` leaves behind where it waits for the ack, and where it has given up.
use backplaned_agents.Prelude.{
  ◌==◌, nat_eq, list_eq, option_eq, Text, ==_self, lookup, ℕ, ◌≡◌, refl, sym, ap, ◌∙◌, ◌⊎◌, inl,
  inr, true, Option, none, some, [], ◌∷◌, ◌++◌, arith, if◌then◌else◌, Bool-cases, Option-cases,
}
use mathlib.Core.Path.{subst}
use backplaned_agents.Tasks.Checks.{Setting}
use backplaned_agents.Delivery.{Hub}
use backplaned_agents.Tasks.App.{Ack}
use backplaned_agents.State.{TaskRow, Db, find_task, queued}
use backplaned_agents.Delivery.{
  Sent, deliver_frame, not_connected, queue_full, awaiting, is_full, add_inflight,
}
use backplaned_agents.Delivery.{queued as just_queued}
use backplaned_agents.Tasks.App.{App, Frame, NewTaskFrame, new_task_frame}
use backplaned_agents.Tasks.Checks.{AdmitError, queue_is_full}
use backplaned_agents.Tasks.Cancelled.{HasEnded}
use backplaned_agents.Tasks.Failed.{fail_task_ends}
use backplaned_agents.Admit.Queries.{new_row}
use backplaned_agents.Admit.Guards.{AdmitSetting, Router}
use backplaned_agents.Admit.Admission.{
  Progress, goes_on, returns, refuses, open_task, dispatch_task, sent_off, cache_caller_agent,
  frame_for, disconnected_failure, admitted_event,
}
use backplaned_agents.Admit.Created.{new_found}
use backplaned_agents.Admit.Persisted.{IsPersisted, persist_cases, stops, wanted}

-- the state behind the transaction
abbrev pub with_db : Router → Db → App
with_db r db = record r.app { db = db }

module _ {Schema : Type 0} (setting : AdmitSetting Schema) (r : Router) (frame : NewTaskFrame)
    (caller level task_id cid : Text) (now : ℕ) where
  abbrev pub Written : Type 0
  Written = IsPersisted setting r.app.db r.sessions frame caller task_id now

  abbrev pub logged : Written → Db
  logged p = record p.table { events = p.table.events ++ admitted_event p.row.task_id caller ∷ [] }

  pub opened_with :
      (p : Written)
      → open_task setting r frame caller level task_id cid now ≡ (
        record r {
          app = (dispatch_task setting (with_db r (logged p)) p.row frame caller level cid now).0;
        },
        (dispatch_task setting (with_db r (logged p)) p.row frame caller level cid now).1,
      )
  unfolding open_task
  opened_with p = rw (p.result, open_task) (rw (ap (λ x. x.0) p.result) refl)

  -- nothing is written, or the row and the dispatch
  pub open_cases :
      Written
      ⊎ ((p : Progress (TaskRow × ℕ)) × (open_task setting r frame caller level task_id cid now
            ≡ (r, p))
          × (stops p ≡ true))
  unfolding open_task
  open_cases = elim (persist_cases setting r.app.db r.sessions frame caller task_id now) [
    | inl p ↦ inl p
    | inr (goes_on row, e, ends) ↦ absurd (ground (arith, ends))
    | inr (returns result, e, ends) ↦ inr (returns result, rw (e, open_task) refl, refl)
    | inr (refuses x, e, ends) ↦ inr (refuses x, rw (e, open_task) refl, refl)
  ]

-- a frame that wants an ack is never just queued
not_just_queued :
    (hub : Hub Frame Ack) (dest cid : Text) (f : Frame) (t : Option ℕ) (now : ℕ)
    → ¬ ((deliver_frame hub dest cid f true t now).1 ≡ just_queued)
unfolding deliver_frame
not_just_queued hub dest cid f t now h = elim (Option-cases (lookup dest hub.sockets)) [
  | inl e ↦ absurd (ground (arith, rw (e, deliver_frame) at h))
  | inr (s, e) ↦ elim (Bool-cases (is_full (add_inflight cid s))) [
    | inl y ↦ absurd (ground (arith, rw (e, y, deliver_frame) at h))
    | inr n ↦ absurd (ground (arith, rw (e, n, deliver_frame) at h))
  ]
]

found_itself : (n : TaskRow) → (if n.task_id == n.task_id then some n else none) ≡ some n
found_itself n = rw (==_self n.task_id) refl

-- the state that waits for the ack, and what the delivery came to
abbrev pub before_ack : App → Setting → TaskRow → NewTaskFrame → Text → Text → Text → ℕ → App × Sent
before_ack app common row frame caller level cid now =
    let cached = cache_caller_agent app row.task_id caller frame.destination_agent_id in
    let (hub', sent) =
      deliver_frame cached.hub frame.destination_agent_id cid
        (new_task_frame (frame_for frame row level)) true common.pending_ack_timeout_s now in
    (record cached { hub = hub' }, sent)

sent_refused :
    (app : App) (row known : TaskRow) (frame : NewTaskFrame) (sent : Sent) (e : AdmitError)
    → find_task row.task_id app.db.tasks ≡ some known
    → (sent_off app row frame sent).1 ≡ refuses e
    → ¬ (sent ≡ just_queued)
    → HasEnded row.task_id (sent_off app row frame sent).0.db ⊎ (e ≡ queue_is_full)
sent_refused app row known frame not_connected e found h n =
    inl (fail_task_ends app row.task_id (disconnected_failure frame.user_id) known found)
sent_refused app row known frame queue_full e found h n = inr (ground (arith, sym h))
sent_refused app row known frame just_queued e found h n = absurd (n refl)
sent_refused app row known frame (awaiting fut) e found h n = absurd (ground (arith, h))

module _ {Schema : Type 0} (setting : AdmitSetting Schema) (r : Router) (frame : NewTaskFrame)
    (caller level task_id cid : Text) (now : ℕ) where
  -- the new row is in the table
  pub row_is_there :
      (p : Written setting r frame caller level task_id cid now)
      → (find_task p.row.task_id (logged setting r frame caller level task_id cid now p).tasks
          ≡ some p.row)
        × (p.row.task_id ≡ task_id)
        × (p.row.state ≡ queued)
  row_is_there p =
      let is_new = p.made.row_is in
      let root = p.made.root in
      let n = new_row task_id root (wanted setting r.app.db r.sessions frame caller task_id now) in
      let last : find_task task_id (r.app.db.tasks ++ n ∷ []) ≡ some n =
        new_found task_id r.app.db.tasks n p.made.fresh ∙ found_itself n in
      (
        ap (λ x. find_task x.task_id p.table.tasks) is_new
            ∙ ap (λ d. find_task task_id d.tasks) p.made.appended
            ∙ last
            ∙ ap (λ x. some x) (sym is_new),
        ap (λ x. x.task_id) is_new,
        ap (λ x. x.state) is_new,
      )

  -- An admission that is refused before it waits for the ack leaves the router as it was, or its task
  -- has ended, except where the outbox of the destination is full.
  pub refused_leaves_no_task :
      (e : AdmitError)
      → (open_task setting r frame caller level task_id cid now).1 ≡ refuses e
      → let r' = (open_task setting r frame caller level task_id cid now).0 in
        (r' ≡ r) ⊎ HasEnded task_id r'.app.db ⊎ (e ≡ queue_is_full)
  unfolding dispatch_task cache_caller_agent
  refused_leaves_no_task e h = elim (open_cases setting r frame caller level task_id cid now) [
    | inr (p, same, s) ↦ inl (ap (λ x. x.0) same)
    | inl p ↦
        let (found, id, q) = row_is_there p in
        let o = opened_with setting r frame caller level task_id cid now p in
        let (app', sent) =
          before_ack (with_db r (logged setting r frame caller level task_id cid now p))
            setting.common p.row frame caller level cid now in
        inr (
          subst
            (λ t.
              HasEnded t (open_task setting r frame caller level task_id cid now).0.app.db
              ⊎ (e ≡ queue_is_full))
            id
            (rw o (
              sent_refused app' p.row p.row frame sent e found (sym (ap (λ x. x.1) o) ∙ h) (
                not_just_queued _ frame.destination_agent_id cid
                  (new_task_frame (frame_for frame p.row level))
                  setting.common.pending_ack_timeout_s now))))
  ]
