-- ===== src/Plan/Bounds.antt =====
-- The plan loop stays within its bounds.
use backplaned_agents.Prelude.{
  nat_eq, list_eq, option_eq, Text, ℕ, zero, suc, ◌+◌, ◌-◌, ◌≤◌, ◌<◌, ◌≡◌, refl, sym, ◌⊎◌, inl, inr,
  false, ◌&&◌, Option, none, some, List, [], ◌∷◌, ◌++◌, arith, ltb, leb, if◌then◌else◌, Bool-cases,
  Option-cases, length, get_elem?, select, length-append, length-take-le, ℤ, pos, negsuc,
}
use mathlib.Core.Path.{subst}
use backplaned_agents.Plan.Lists.{
  length-insert_at, length-replace_at, length-remove_at, get_elem?-none, get_elem?-some,
}
use backplaned_agents.Plan.{
  Action, quit, add_step, modify_step, remove_step, execute_step, StepResult, PlanState, Oracle,
  Settings, clamp, index_of, insert_at, replace_at, remove_at, Round, reports, goes_on, raises,
  recorded, conclude, execute, removed, apply, plan_round, Report, reported, budget_reached,
  index_error, plan_rounds, initial, run_plan,
}

-- the results are numbered from 1, in the order of execution
abbrev pub Numbered : ℕ → List StepResult → Type 0
Numbered k [] = Unit
Numbered k (r ∷ rs) = (r.n ≡ suc k) × Numbered (suc k) rs

pub record IsSound (settings : Settings) (s : PlanState) : Type 0 where
  pub within : s.cursor ≤ length s.steps
  pub few : length s.steps ≤ settings.plan_max_steps
  pub in_order : Numbered 0 s.results

Numbered-last :
    (k : ℕ) (rs : List StepResult) (r : StepResult)
    → Numbered k rs
    → r.n ≡ suc (k + length rs)
    → Numbered k (rs ++ r ∷ [])
Numbered-last k [] r h e = (omega (arith, e), tt)
Numbered-last k (x ∷ rs) r h e = (h.0, Numbered-last (suc k) rs r h.1 (omega (arith, e)))

n-recorded :
    (oracle : Oracle) (step : Text) (rs : List StepResult)
    → (recorded oracle step rs).n ≡ suc (length rs)
unfolding recorded
n-recorded oracle step rs = ground arith

-- what a round leaves: a sound state, and never an error
abbrev Leaves : Settings → PlanState → Round → Type 0
Leaves settings s (reports text s') = s' ≡ s
Leaves settings s (goes_on s') = IsSound settings s' × (length s'.results ≤ suc (length s.results))
Leaves settings s raises = ⊥

module _ (oracle : Oracle) (settings : Settings) (s : PlanState) (sound : IsSound settings s) where
  conclude-Leaves : Leaves settings s (conclude oracle settings s)
  unfolding conclude
  conclude-Leaves = elim (Option-cases (oracle.finish s).add) [
    | inl e ↦ rw (e, conclude) refl
    | inr (c, e) ↦ elim (Bool-cases (ltb (length s.steps) settings.plan_max_steps)) [
      | inl l ↦
          rw (e, l, conclude)
            (
              record {
                within = omega (arith, sound.within, length-append s.steps (c ∷ []));
                few = ground (arith, length-append s.steps (c ∷ []));
                in_order = sound.in_order;
              },
              omega arith,
            )
      | inr l ↦ rw (e, l, conclude) refl
    ]
  ]

  same-Leaves : IsSound settings s × (length s.results ≤ suc (length s.results))
  same-Leaves = (sound, omega arith)

  execute-Leaves :
      (ltb 0 (length s.steps) && leb (length s.steps) s.cursor) ≡ false
      → Leaves settings s (execute oracle s)
  unfolding execute
  execute-Leaves open_plan = elim (Bool-cases (leb (length s.steps) 0)) [
    | inl z ↦ rw (z, execute) same-Leaves
    | inr z ↦ elim (Option-cases (get_elem? s.steps s.cursor)) [
      | inl e ↦ absurd (ground (arith, get_elem?-none s.steps s.cursor e))
      | inr (step, e) ↦
          rw (z, e, execute)
            (
              record {
                within = get_elem?-some s.steps s.cursor step e;
                few = sound.few;
                in_order =
                    Numbered-last 0 s.results (recorded oracle step s.results) sound.in_order
                      (omega (arith, n-recorded oracle step s.results));
              },
              omega (arith, length-append s.results (recorded oracle step s.results ∷ [])),
            )
    ]
  ]

  add-Leaves :
      (after : ℤ) (contents : Text)
      → Leaves settings s (
          goes_on (
            if ltb (length s.steps) settings.plan_max_steps
            then record s { steps = insert_at (clamp after (length s.steps)) contents s.steps }
            else s))
  add-Leaves after contents = elim (Bool-cases (ltb (length s.steps) settings.plan_max_steps)) [
    | inl l ↦ rw l (
      record {
        within =
            omega (
              arith,
              sound.within,
              length-insert_at (clamp after (length s.steps)) contents s.steps,
            );
        few = ground (arith, length-insert_at (clamp after (length s.steps)) contents s.steps);
        in_order = sound.in_order;
      },
      omega arith,
    )
    | inr l ↦ rw l same-Leaves
  ]

  modify-Leaves :
      (i : Option ℕ) (contents : Text)
      → Leaves settings s (
          goes_on
            (elim i [ none ↦ s | some i ↦ record s { steps = replace_at i contents s.steps } ]))
  modify-Leaves none contents = same-Leaves
  modify-Leaves (some i) contents = (
    record {
      within = omega (arith, sound.within, length-replace_at i contents s.steps);
      few = omega (arith, sound.few, length-replace_at i contents s.steps);
      in_order = sound.in_order;
    },
    omega arith,
  )

  index_of-lt :
      (target : ℤ) (i : ℕ) → index_of target (length s.steps) ≡ some i → i < length s.steps
  index_of-lt (pos zero) i h = absurd (ground arith)
  index_of-lt (pos (suc j)) i h = ground arith
  index_of-lt (negsuc n) i h = absurd (ground arith)

  removed-within :
      (i : ℕ)
      → i < length s.steps
      → (if ltb i s.cursor then s.cursor - 1 else s.cursor) ≤ length (remove_at i s.steps)
  removed-within i h = ground (arith, length-remove_at i s.steps h, sound.within)

  remove-Leaves :
      (target : ℤ)
      → Leaves settings s
          (goes_on (elim (index_of target (length s.steps)) [ none ↦ s | some i ↦ removed s i ]))
  remove-Leaves target = elim (Option-cases (index_of target (length s.steps))) [
    | inl e ↦ rw e same-Leaves
    | inr (i, e) ↦ rw e (
      record {
        within = removed-within i (index_of-lt target i e);
        few = omega (arith, sound.few, length-remove_at i s.steps (index_of-lt target i e));
        in_order = sound.in_order;
      },
      omega arith,
    )
  ]

  apply-Leaves :
      (ltb 0 (length s.steps) && leb (length s.steps) s.cursor) ≡ false
      → (text : Text) (action : Action) → Leaves settings s (apply oracle settings s text action)
  unfolding apply
  apply-Leaves h text (quit content) = refl
  apply-Leaves h text (add_step after contents) = add-Leaves after contents
  apply-Leaves h text (modify_step target contents) =
      modify-Leaves (index_of target (length s.steps)) contents
  apply-Leaves h text (remove_step target) = remove-Leaves target
  apply-Leaves h text execute_step = execute-Leaves h

  plan_round-Leaves : Leaves settings s (plan_round oracle settings s)
  unfolding plan_round
  plan_round-Leaves = elim (Bool-cases (ltb 0 (length s.steps) && leb (length s.steps) s.cursor)) [
    | inl h ↦ rw (h, plan_round) conclude-Leaves
    | inr h ↦ elim (Option-cases (oracle.decide s).call) [
      | inl e ↦ rw (h, e, plan_round) refl
      | inr (action, e) ↦ rw (h, e, plan_round) (apply-Leaves h (oracle.decide s).text action)
    ]
  ]

Round-cases :
    (r : Round)
    → ((text : Text) × (s : PlanState) × (r ≡ reports text s))
      ⊎ (((s : PlanState) × (r ≡ goes_on s)) ⊎ (r ≡ raises))
Round-cases (reports text s) = inl (text, s, refl)
Round-cases (goes_on s) = inr (inl (s, refl))
Round-cases raises = inr (inr refl)

-- the state of a report is sound, and there is one
abbrev pub IsFine : Settings → ℕ → Report → Type 0
IsFine settings most (reported text s) = IsSound settings s × (length s.results ≤ most)
IsFine settings most (budget_reached s) = IsSound settings s × (length s.results ≤ most)
IsFine settings most index_error = ⊥

plan_rounds-IsFine :
    (rounds : ℕ) (oracle : Oracle) (settings : Settings) (s : PlanState) (most : ℕ)
    → IsSound settings s
    → rounds + length s.results ≤ most
    → IsFine settings most (plan_rounds oracle settings rounds s)
unfolding plan_rounds
plan_rounds-IsFine zero oracle settings s most sound h = (sound, omega (arith, h))
plan_rounds-IsFine (suc rounds) oracle settings s most sound h =
    let left = plan_round-Leaves oracle settings s sound in
    elim (Round-cases (plan_round oracle settings s)) [
      | inl (text, s', e) ↦
          rw (e, plan_rounds)
            (subst (λ t. IsSound settings t × (length t.results ≤ most)) (sym (rw e at left))
              (sound, omega (arith, h)))
      | inr (inl (s', e)) ↦
          let (sound', longer) = rw e at left in
          rw (e, plan_rounds)
            (plan_rounds-IsFine rounds oracle settings s' most sound' (omega (arith, h, longer)))
      | inr (inr e) ↦ absurd (rw e at left)
    ]

-- Whatever the model answers, a plan ends within its rounds without an `IndexError`: in a report or
-- at the budget, with the cursor within the steps, no more steps than allowed, no more executed
-- steps than rounds, and the results numbered from 1 in order.
pub run_plan-IsFine :
    (oracle : Oracle) (settings : Settings) (steps : List Text)
    → IsFine settings settings.plan_max_iters (run_plan oracle settings steps)
unfolding run_plan initial
run_plan-IsFine oracle settings steps =
    plan_rounds-IsFine settings.plan_max_iters oracle settings _ settings.plan_max_iters
      (record {
        within = omega arith;
        few = length-take-le settings.plan_max_steps (select (λ s. ltb 0 (length s)) steps);
        in_order = tt;
      })
      (omega arith)
