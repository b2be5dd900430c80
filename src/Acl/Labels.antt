-- ===== src/Acl/Labels.antt =====
-- The bound on the metric label in bp_router/acl.py.
use backplaned_agents.Prelude.{
  ◌==◌, nat_eq, list_eq, option_eq, Text, codes, ℕ, zero, suc, ◌≤◌, ◌≡◌, refl, ap, ◌∙◌, ◌≢◌, inl,
  inr, Bool, true, false, ◌||◌, Option, none, some, [], ◌∷◌, map, arith, ltb, if◌then◌else◌,
  Bool-cases, length, take, all, length-take-le,
}
use backplaned_agents.Acl.Grammar.{is_agent_char}

-- `[A-Za-z0-9_:.\-<>]`
abbrev pub is_label_char : ℕ → Bool
is_label_char c = is_agent_char c || c == b':' || c == b'.' || c == b'<' || c == b'>'

unfoldable pub sanitize : ℕ → ℕ
sanitize c = if is_label_char c then c else b'_'

unfoldable pub bound_metric_label : Option Text → Text
unfolding sanitize
bound_metric_label none = codes "<unnamed>"
bound_metric_label (some []) = codes "<unnamed>"
bound_metric_label (some (c ∷ s)) =
    let sanitized = map sanitize (c ∷ s) in
    if ltb 64 (length sanitized) then take 64 sanitized else sanitized

sanitize-safe : (c : ℕ) → is_label_char (sanitize c) ≡ true
unfolding sanitize
sanitize-safe c = elim (Bool-cases (is_label_char c)) [ inl e ↦ rw e e | inr e ↦ rw e ]

sanitize_fixed : (c : ℕ) → is_label_char c ≡ true → sanitize c ≡ c
unfolding sanitize
sanitize_fixed c e = rw e

all-sanitize : (s : Text) → all is_label_char (map sanitize s) ≡ true
all-sanitize [] = refl
all-sanitize (c ∷ s) = rw (sanitize-safe c) (all-sanitize s)

all-take : (p : ℕ → Bool) (n : ℕ) (s : Text) → all p s ≡ true → all p (take n s) ≡ true
all-take p zero s h = refl
all-take p (suc n) [] h = refl
all-take p (suc n) (c ∷ s) h = ground (arith, all-take p n s)

map-sanitize_fixed : (s : Text) → all is_label_char s ≡ true → map sanitize s ≡ s
map-sanitize_fixed [] h = refl
map-sanitize_fixed (c ∷ s) h = ground (arith, map-sanitize_fixed s, sanitize_fixed c)

-- a label that may go out: short, not empty, of safe characters
pub record IsBounded (s : Text) : Type 0 where
  pub short : length s ≤ 64
  pub full : s ≢ []
  pub safe : all is_label_char s ≡ true

-- Every label that goes out has at most 64 characters, at least one, and safe ones alone.
pub bound_metric_label-IsBounded : (name : Option Text) → IsBounded (bound_metric_label name)
unfolding bound_metric_label
bound_metric_label-IsBounded none = record { short = omega arith; full = λ e. cc; safe = refl }
bound_metric_label-IsBounded (some []) = record { short = omega arith; full = λ e. cc; safe = refl }
bound_metric_label-IsBounded (some (c ∷ s)) =
    elim (Bool-cases (ltb 64 (length (map sanitize (c ∷ s))))) [
      | inl e ↦ rw e (record {
        short = length-take-le 64 (map sanitize (c ∷ s));
        full = λ k. cc;
        safe = all-take is_label_char 64 (map sanitize (c ∷ s)) (all-sanitize (c ∷ s));
      })
      | inr e ↦ rw e (record { short = ground arith; full = λ k. cc; safe = all-sanitize (c ∷ s) })
    ]

ltb-false : (a b : ℕ) → b ≤ a → ltb a b ≡ false
ltb-false a b h = ground arith

cut_short : (s : Text) → length s ≤ 64 → (if ltb 64 (length s) then take 64 s else s) ≡ s
cut_short s h = rw (ltb-false 64 (length s) h)

-- A label that may go out is left as it is.
pub bound_metric_label_fixed : (s : Text) → IsBounded s → bound_metric_label (some s) ≡ s
unfolding bound_metric_label
bound_metric_label_fixed [] h = absurd (h.full refl)
bound_metric_label_fixed (c ∷ s) h =
    let e : map sanitize (c ∷ s) ≡ c ∷ s = map-sanitize_fixed (c ∷ s) h.safe in
    let short : length (map sanitize (c ∷ s)) ≤ 64 = omega (arith, ap length e, h.short) in
    cut_short (map sanitize (c ∷ s)) short ∙ e
