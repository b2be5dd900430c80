-- ===== src/Plan/Insertions.antt =====
-- A step that is added in front of the cursor.
use backplaned_agents.Prelude.{
  nat_eq, list_eq, option_eq, Text, ℕ, zero, suc, ◌≤◌, ◌≡◌, refl, true, List, [], ◌∷◌, arith, ltb,
  length, get_elem?, ℤ, pos, negsuc,
}
use backplaned_agents.Plan.{add_step, PlanState, Oracle, Settings, clamp, insert_at, goes_on, apply}

get_elem?-insert_at :
    (i k : ℕ) (t : Text) (steps : List Text)
    → i ≤ k
    → i ≤ length steps
    → get_elem? (insert_at i t steps) (suc k) ≡ get_elem? steps k
unfolding insert_at
get_elem?-insert_at zero k t steps h l = refl
get_elem?-insert_at (suc i) k t [] h l = absurd (omega (arith, l))
get_elem?-insert_at (suc i) zero t (x ∷ steps) h l = absurd (omega (arith, h))
get_elem?-insert_at (suc i) (suc k) t (x ∷ steps) h l =
    get_elem?-insert_at i k t steps (omega (arith, h)) (omega (arith, l))

clamp-le : (after : ℤ) (size : ℕ) → clamp after size ≤ size
clamp-le (pos n) size = ground arith
clamp-le (negsuc n) size = omega arith

-- A step that is added in front of the cursor leaves the cursor where it is, so that it
-- points at the step in front of it once more.
pub added_before_cursor :
    (oracle : Oracle) (settings : Settings) (s : PlanState) (text contents : Text) (after : ℤ)
    (k : ℕ)
    → s.cursor ≡ suc k
    → clamp after (length s.steps) ≤ k
    → ltb (length s.steps) settings.plan_max_steps ≡ true
    → (s' : PlanState) × (apply oracle settings s text (add_step after contents) ≡ goes_on s')
      × (s'.cursor ≡ s.cursor)
      × (get_elem? s'.steps s'.cursor ≡ get_elem? s.steps k)
unfolding apply
added_before_cursor oracle settings s text contents after k c h room = (
  record s { steps = insert_at (clamp after (length s.steps)) contents s.steps },
  rw room refl,
  refl,
  rw c (
      get_elem?-insert_at (clamp after (length s.steps)) k contents s.steps h
        (clamp-le after (length s.steps))),
)
