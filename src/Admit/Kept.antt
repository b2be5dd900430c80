-- ===== src/Admit/Kept.antt =====
-- The keys and the trees of the tasks are kept by what writes the table.
use backplaned_agents.Prelude.{
  ◌==◌, nat_eq, list_eq, option_eq, Text, text_iff, option_text_iff, ◌≡◌, sym, ap, ◌∙◌, inl, inr,
  true, false, none, some, List, [], ◌∷◌, ◌++◌, map, arith, Bool-cases, Option-cases, is_some,
  some_inj,
}
use mathlib.Core.Path.{subst}
use backplaned_agents.State.{TaskRow, Db, find_task}
use backplaned_agents.Admit.Queries.{NewTask, new_row, root_of, key_taken, find_idempotent, has_key}
use backplaned_agents.Admit.Frozen.{frozen, find_same}
use backplaned_agents.Admit.Created.{
  HasUniqueKeys, IsLinked, IsForest, IsCreated, old_or_new, still_found, found_by_key,
}

key_of :
    (caller user key : Text) (row : TaskRow)
    → has_key caller user key row ≡ true
    → (row.caller_agent_id ≡ caller) × (row.user_id ≡ user) × (row.idempotency_key ≡ some key)
key_of caller user key row h = ground (
  arith,
  text_iff row.caller_agent_id caller,
  text_iff row.user_id user,
  option_text_iff row.idempotency_key (some key),
)

not_taken :
    (db : Db) (t : NewTask) (key : Text)
    → key_taken db t ≡ false
    → t.idempotency_key ≡ some key
    → is_some (find_idempotent t.caller_agent_id t.user_id key db.tasks) ≡ false
unfolding key_taken
not_taken db t key free e = rw e at free

root_alone : (db : Db) (user id root : Text) → root_of db user id none ≡ some root → root ≡ id
unfolding root_of
root_alone db user id root h = sym (some_inj h)

root_parent :
    (db : Db) (user id p root : Text)
    → root_of db user id (some p) ≡ some root
    → (parent : TaskRow) × (find_task p db.tasks ≡ some parent)
      × (parent.user_id ≡ user)
      × (parent.root_task_id ≡ root)
unfolding root_of
root_parent db user id p root h = elim (Option-cases (find_task p db.tasks)) [
  | inl e ↦ absurd (ground (arith, rw (e, root_of) at h))
  | inr (parent, e) ↦ elim (Bool-cases (parent.user_id == user)) [
    | inl u ↦ (parent, e, (text_iff parent.user_id user).0 u, some_inj (rw (e, u, root_of) at h))
    | inr n ↦ absurd (ground (arith, rw (e, n, root_of) at h))
  ]
]

module _ {db : Db} {id : Text} {t : NewTask} {db' : Db} {new : TaskRow} where
  -- an old row has another key than the new one
  key_apart :
      (made : IsCreated db id t db' new) (a caller user key : Text) (row : TaskRow)
      → find_task a db.tasks ≡ some row
      → has_key caller user key row ≡ true
      → ¬ (has_key caller user key (new_row id made.root t) ≡ true)
  key_apart made a caller user key row found k k' =
      let (c, u, i) = key_of caller user key (new_row id made.root t) k' in
      let found_true = found_by_key caller user key a db.tasks row found k in
      let found_false = not_taken db t key made.free i in
      let same =
        ap (λ x. is_some (find_idempotent x t.user_id key db.tasks)) c
        ∙ ap (λ x. is_some (find_idempotent caller x key db.tasks)) u in
      absurd (ground (arith, sym found_true ∙ sym same ∙ found_false))

  rows_after :
      (made : IsCreated db id t db' new) → db'.tasks ≡ db.tasks ++ new_row id made.root t ∷ []
  rows_after made = ap (λ d. d.tasks) made.appended

  pub created_keys : IsCreated db id t db' new → HasUniqueKeys db.tasks → HasUniqueKeys db'.tasks
  created_keys made unique a b caller user key row row' found found' k k' =
      let added = new_row id made.root t in
      let one =
        old_or_new a db.tasks added row (ap (find_task a) (sym (rows_after made)) ∙ found) in
      let two =
        old_or_new b db.tasks added row' (ap (find_task b) (sym (rows_after made)) ∙ found') in
      elim one [
        | inl x ↦ elim two [
          | inl y ↦ unique a b caller user key row row' x y k k'
          | inr (i, n, e) ↦
              absurd
                (key_apart made a caller user key row x k (ap (has_key caller user key) n ∙ k'))
        ]
        | inr (i, n, e) ↦ elim two [
          | inl y ↦
              absurd
                (key_apart made b caller user key row' y k' (ap (has_key caller user key) n ∙ k))
          | inr (i', n', e') ↦ sym i ∙ i'
        ]
      ]

  new-IsLinked : (made : IsCreated db id t db' new) → IsLinked db'.tasks (new_row id made.root t)
  new-IsLinked made = record {
    own_root = λ h.
        root_alone db t.user_id id made.root (ap (root_of db t.user_id id) (sym h) ∙ made.rooted);
    parent_of = λ p h.
        let (parent, f, u, r) =
          root_parent db t.user_id id p made.root
            (ap (root_of db t.user_id id) (sym h) ∙ made.rooted) in
        (
          parent,
          ap (find_task p) (rows_after made)
              ∙ still_found p db.tasks (new_row id made.root t) parent f,
          u,
          r,
        );
  }

  pub created-IsForest : IsCreated db id t db' new → IsForest db.tasks → IsForest db'.tasks
  created-IsForest made forest a row found =
      let added = new_row id made.root t in
      elim (old_or_new a db.tasks added row (ap (find_task a) (sym (rows_after made)) ∙ found)) [
        | inl x ↦
            let linked = forest a row x in
            record {
              own_root = linked.own_root;
              parent_of = λ p h.
                  let (parent, f, u, r) = linked.parent_of p h in
                  (
                    parent,
                    ap (find_task p) (rows_after made) ∙ still_found p db.tasks added parent f,
                    u,
                    r,
                  );
            }
        | inr (i, n, e) ↦ subst (IsLinked db'.tasks) n (new-IsLinked made)
      ]

-- what leaves the columns of the table leaves its keys and its trees
pub same_keys :
    (rows rows' : List TaskRow)
    → map frozen rows' ≡ map frozen rows
    → HasUniqueKeys rows
    → HasUniqueKeys rows'
same_keys rows rows' same unique a b caller user key row row' found found' k k' =
    let (old, f, e) = find_same rows rows' a row same found in
    let (old', f', e') = find_same rows rows' b row' same found' in
    unique a b caller user key old old' f f' (ap (has_key caller user key) e ∙ k)
      (ap (has_key caller user key) e' ∙ k')

pub same-IsForest :
    (rows rows' : List TaskRow)
    → map frozen rows' ≡ map frozen rows
    → IsForest rows
    → IsForest rows'
same-IsForest rows rows' same forest a row found =
    let (old, f, e) = find_same rows rows' a row same found in
    let linked = forest a old f in
    record {
      own_root = λ h.
          sym (ap (λ x. x.root_task_id) e)
          ∙ linked.own_root (ap (λ x. x.parent_task_id) e ∙ h)
          ∙ ap (λ x. x.task_id) e;
      parent_of = λ p h.
          let (parent, g, u, r) = linked.parent_of p (ap (λ x. x.parent_task_id) e ∙ h) in
          let (parent', g', e') = find_same rows' rows p parent (sym same) g in
          (
            parent',
            g',
            ap (λ x. x.user_id) e' ∙ u ∙ ap (λ x. x.user_id) e,
            ap (λ x. x.root_task_id) e' ∙ r ∙ ap (λ x. x.root_task_id) e,
          );
    }
