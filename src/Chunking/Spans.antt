-- ===== src/Chunking/Spans.antt =====
-- The spans of a text: together they are the text, and none is too long.
use backplaned_agents.Prelude.{
  nat_eq, list_eq, option_eq, Text, append-strip_prefix, strip_prefix, ℕ, zero, suc, ◌-◌, ◌≤◌, ◌<◌,
  ◌≡◌, refl, sym, ap, ◌∙◌, inl, inr, true, some, List, [], ◌∷◌, ◌++◌, append-nil, append_assoc,
  arith, leb, leb→le, le→leb, Bool-cases, Option-cases, is_some, some_inj, length, take,
  length-append, length-take-le, contains, All, All-append,
}
use backplaned_agents.Chunking.{
  drop, concat, separators, split_once, split_pieces, pieces, char_split, collect, split_long,
  split_recursive,
}

take-drop : (n : ℕ) (text : Text) → take n text ++ drop n text ≡ text
take-drop zero text = refl
take-drop (suc n) [] = refl
take-drop (suc n) (c ∷ text) = ap (λ t. c ∷ t) (take-drop n text)

pub length-drop : (n : ℕ) (text : Text) → length (drop n text) ≡ length text - n
length-drop zero text = omega arith
length-drop (suc n) [] = omega arith
length-drop (suc n) (c ∷ text) = omega (arith, length-drop n text)

-- the parts around the first occurrence
split_once_joins :
    (sep text : Text) {found : Text × Text}
    → split_once sep text ≡ some found
    → text ≡ found.0 ++ (sep ++ found.1)
unfolding split_once
split_once_joins sep [] h = absurd (ground (arith, h))
split_once_joins sep (c ∷ text) h = elim (Option-cases (strip_prefix sep (c ∷ text))) [
  | inr (rest, e) ↦
      append-strip_prefix sep (c ∷ text) e
      ∙ ap (λ p. p.0 ++ (sep ++ p.1)) (some_inj (rw (e, split_once) at h))
  | inl e ↦ elim (Option-cases (split_once sep text)) [
    | inl n ↦ absurd (ground (arith, rw (e, n, split_once) at h))
    | inr (inner, n) ↦
        ap (λ t. c ∷ t) (split_once_joins sep text n)
        ∙ ap (λ p. p.0 ++ (sep ++ p.1)) (some_inj (rw (e, n, split_once) at h))
  ]
]

split_pieces_join :
    (fuel : ℕ) (sep text : Text)
    → (split_pieces fuel sep text).0 ++ concat (split_pieces fuel sep text).1 ≡ text
unfolding split_pieces
split_pieces_join zero sep text = append-nil text
split_pieces_join (suc fuel) sep text = elim (Option-cases (split_once sep text)) [
  | inl e ↦ rw (e, split_pieces) (append-nil text)
  | inr (found, e) ↦
      rw (e, split_pieces)
        (ap (λ t. found.0 ++ t)
            (append_assoc sep (split_pieces fuel sep found.1).0
                (concat (split_pieces fuel sep found.1).1)
              ∙ ap (λ t. sep ++ t) (split_pieces_join fuel sep found.1))
          ∙ sym (split_once_joins sep text e))
]

concat-append : (xs ys : List Text) → concat (xs ++ ys) ≡ concat xs ++ concat ys
concat-append [] ys = refl
concat-append (x ∷ xs) ys =
    ap (λ t. x ++ t) (concat-append xs ys) ∙ sym (append_assoc x (concat xs) (concat ys))

-- the length left by a round, which is not empty
char_split_joins :
    (fuel max_len : ℕ) (text : Text)
    → 0 < max_len
    → length text ≤ fuel
    → concat (char_split fuel max_len text) ≡ text
unfolding char_split
char_split_joins zero max_len [] room enough = refl
char_split_joins zero max_len (c ∷ text) room enough = absurd (omega (arith, enough))
char_split_joins (suc fuel) max_len [] room enough = refl
char_split_joins (suc fuel) max_len (c ∷ text) room enough =
    ap (λ t. take max_len (c ∷ text) ++ t)
      (char_split_joins fuel max_len (drop max_len (c ∷ text)) room
        (omega (arith, length-drop max_len (c ∷ text), room, enough)))
    ∙ take-drop max_len (c ∷ text)

collect_joins :
    (deeper : Text → List Text) (max_len : ℕ) (parts : List Text)
    → ((text : Text) → concat (deeper text) ≡ text)
    → concat (collect deeper max_len parts) ≡ concat parts
unfolding collect
collect_joins deeper max_len [] joins = refl
collect_joins deeper max_len ([] ∷ more) joins = collect_joins deeper max_len more joins
collect_joins deeper max_len ((c ∷ piece) ∷ more) joins =
    elim (Bool-cases (leb (length (c ∷ piece)) max_len)) [
      | inl y ↦ rw y (ap (λ t. (c ∷ piece) ++ t) (collect_joins deeper max_len more joins))
      | inr n ↦ rw n (
          concat-append (deeper (c ∷ piece)) (collect deeper max_len more)
          ∙ ap (λ t. t ++ concat (collect deeper max_len more)) (joins (c ∷ piece))
          ∙ ap (λ t. (c ∷ piece) ++ t) (collect_joins deeper max_len more joins))
    ]

split_long_joins :
    (max_len : ℕ) (seps : List Text) (text : Text)
    → 0 < max_len
    → concat (split_long max_len seps text) ≡ text
unfolding split_long pieces
split_long_joins max_len [] text room = append-nil text
split_long_joins max_len ([] ∷ rest) text room =
    char_split_joins (length text) max_len text room (omega arith)
split_long_joins max_len ((s ∷ sep) ∷ rest) text room =
    elim (Bool-cases (is_some (split_once (s ∷ sep) text))) [
      | inl y ↦ rw y (
          collect_joins (split_long max_len rest) max_len (pieces (s ∷ sep) text)
            (λ t. split_long_joins max_len rest t room)
          ∙ split_pieces_join (length text) (s ∷ sep) text)
      | inr n ↦ rw n (split_long_joins max_len rest text room)
    ]

rest_shorter :
    (c : ℕ) (sep text : Text) (found : Text × Text)
    → split_once (c ∷ sep) text ≡ some found
    → length found.1 < length text
rest_shorter c sep text found h =
    let e = ap length (split_once_joins (c ∷ sep) text h) in
    omega (arith, e, length-append found.0 ((c ∷ sep) ++ found.1), length-append (c ∷ sep) found.1)

-- More rounds than the text has characters split it no further.
pub enough_rounds :
    (fuel c : ℕ) (sep text : Text)
    → length text ≤ fuel
    → split_pieces (suc fuel) (c ∷ sep) text ≡ split_pieces fuel (c ∷ sep) text
unfolding split_pieces split_once
enough_rounds zero c sep [] enough = refl
enough_rounds zero c sep (x ∷ text) enough = absurd (omega (arith, enough))
enough_rounds (suc fuel) c sep text enough = elim (Option-cases (split_once (c ∷ sep) text)) [
  | inl e ↦ rw (e, split_pieces) refl
  | inr (found, e) ↦
      let fewer : length found.1 ≤ fuel = omega (arith, rest_shorter c sep text found e, enough) in
      rw (e, split_pieces)
        (ap (λ m. (found.0, ((c ∷ sep) ++ m.0) ∷ m.1)) (enough_rounds fuel c sep found.1 fewer))
]

module _ (max_len : ℕ) (room : 0 < max_len) where
  char_split_short :
      (fuel : ℕ) (text : Text) → All (λ s. length s ≤ max_len) (char_split fuel max_len text)
  unfolding char_split
  char_split_short zero text = tt
  char_split_short (suc fuel) [] = tt
  char_split_short (suc fuel) (c ∷ text) =
      (length-take-le max_len (c ∷ text), char_split_short fuel (drop max_len (c ∷ text)))

  collect_short :
      (deeper : Text → List Text) (parts : List Text)
      → ((text : Text) → All (λ s. length s ≤ max_len) (deeper text))
      → All (λ s. length s ≤ max_len) (collect deeper max_len parts)
  unfolding collect
  collect_short deeper [] short = tt
  collect_short deeper ([] ∷ more) short = collect_short deeper more short
  collect_short deeper ((c ∷ piece) ∷ more) short =
      elim (Bool-cases (leb (length (c ∷ piece)) max_len)) [
        | inl y ↦ rw y ((leb→le (length (c ∷ piece)) max_len y, collect_short deeper more short))
        | inr n ↦ rw n (
            All-append (λ s. length s ≤ max_len) (deeper (c ∷ piece)) _ (short (c ∷ piece))
              (collect_short deeper more short))
      ]

  split_long_short :
      (seps : List Text) (text : Text)
      → contains seps [] ≡ true
      → All (λ s. length s ≤ max_len) (split_long max_len seps text)
  unfolding split_long
  split_long_short [] text last = absurd (ground (arith, last))
  split_long_short ([] ∷ rest) text last = char_split_short (length text) text
  split_long_short ((s ∷ sep) ∷ rest) text last =
      elim (Bool-cases (is_some (split_once (s ∷ sep) text))) [
        | inl y ↦ rw y (
            collect_short (split_long max_len rest) (pieces (s ∷ sep) text)
              (λ t. split_long_short rest t last))
        | inr n ↦ rw n (split_long_short rest text last)
      ]

  -- Where `max_len` is not 0, the spans of a text are the text again when they are put together, and
  -- each is at most `max_len` characters long.
  pub split_recursive_spans :
      (text : Text)
      → (concat (split_recursive text separators max_len) ≡ text)
        × All (λ s. length s ≤ max_len) (split_recursive text separators max_len)
  unfolding split_recursive
  split_recursive_spans [] = rw (le→leb 0 max_len (omega arith)) (refl, tt)
  split_recursive_spans (c ∷ text) = elim (Bool-cases (leb (length (c ∷ text)) max_len)) [
    | inl y ↦ rw y ((append-nil (c ∷ text), (leb→le (length (c ∷ text)) max_len y, tt)))
    | inr n ↦ rw n (
      split_long_joins max_len separators (c ∷ text) room,
      split_long_short separators (c ∷ text) refl,
    )
  ]
