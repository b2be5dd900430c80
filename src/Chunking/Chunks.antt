-- ===== src/Chunking/Chunks.antt =====
-- The chunks of a text: how long they can be, and that the loop that cuts a long buffer ends.
use backplaned_agents.Prelude.{
  nat_eq, list_eq, option_eq, Text, ℕ, zero, suc, ◌+◌, ◌-◌, ◌≤◌, ◌<◌, ◌≡◌, refl, inl, inr, Bool,
  true, false, not, ◌&&◌, List, [], ◌∷◌, ◌++◌, arith, ltb, leb, if◌then◌else◌, leb→le, Bool-cases,
  length, take, select, length-append, length-take-le, All, All-append,
}
use backplaned_agents.Chunking.{
  drop, is_empty, separators, split_recursive, Strip, hard_cut, tail_of, add_span, add_spans,
  fold_last, finish, chunk_long, chunk_markdown,
}
use backplaned_agents.Chunking.Spans.{length-drop}

length-take : (n : ℕ) (text : Text) → n ≤ length text → length (take n text) ≡ n
length-take zero text h = refl
length-take (suc n) [] h = absurd (omega (arith, h))
length-take (suc n) (c ∷ text) h = omega (arith, length-take n text (omega (arith, h)))

abbrev pub AtMost : ℕ → List Text → Type 0
AtMost n chunks = All (λ c. length c ≤ n) chunks

AtMost-weaken : (n m : ℕ) (chunks : List Text) → n ≤ m → AtMost n chunks → AtMost m chunks
AtMost-weaken n m [] h a = tt
AtMost-weaken n m (c ∷ chunks) h a = (omega (arith, a.0, h), AtMost-weaken n m chunks h a.1)

AtMost-select :
    (n : ℕ) (p : Text → Bool) (chunks : List Text) → AtMost n chunks → AtMost n (select p chunks)
AtMost-select n p [] a = tt
AtMost-select n p (c ∷ chunks) a = elim (Bool-cases (p c)) [
  | inl y ↦ rw y ((a.0, AtMost-select n p chunks a.1))
  | inr m ↦ rw m (AtMost-select n p chunks a.1)
]

either_way :
    (n : ℕ) (b : Bool) (xs ys : List Text)
    → (b ≡ true → AtMost n xs)
    → (b ≡ false → AtMost n ys)
    → AtMost n (if b then xs else ys)
either_way n true xs ys f g = f refl
either_way n false xs ys f g = g refl

-- `strip` makes no text longer, a chunk has room for more than the overlap
module _ (strip : Strip) (max_len min_len overlap : ℕ)
    (shrinks : (s : Text) → length (strip s) ≤ length s) (less : overlap < max_len) where
  abbrev kept : Text → Text
  kept buf =
      if leb overlap 0
      then drop max_len buf
      else drop (max_len - overlap) (take max_len buf) ++ drop max_len buf

  -- the buffer that a round of the loop leaves is shorter
  kept_shorter : (buf : Text) → max_len < length buf → length (kept buf) < length buf
  kept_shorter buf long = elim (Bool-cases (leb overlap 0)) [
    | inl y ↦ rw y (omega (arith, length-drop max_len buf, long, less))
    | inr n ↦ rw n (
        omega (
          arith,
          length-append (drop (max_len - overlap) (take max_len buf)) (drop max_len buf),
          length-drop (max_len - overlap) (take max_len buf),
          length-drop max_len buf,
          length-take max_len buf (omega (arith, long)),
          long,
          less,
        ))
  ]

  cut_fits :
      (fuel : ℕ) (buf : Text)
      → length buf ≤ fuel
      → AtMost max_len (hard_cut fuel strip max_len overlap buf).0
        × (length (hard_cut fuel strip max_len overlap buf).1 ≤ max_len)
  unfolding hard_cut
  cut_fits zero buf enough = (tt, omega (arith, enough))
  cut_fits (suc fuel) buf enough = elim (Bool-cases (leb (length buf) max_len)) [
    | inl y ↦ rw y (tt, leb→le (length buf) max_len y)
    | inr n ↦
        let long : max_len < length buf = ground (arith, n) in
        let (chunks, rest) =
          cut_fits fuel (kept buf) (omega (arith, kept_shorter buf long, enough)) in
        rw n ((omega (arith, shrinks (take max_len buf), length-take-le max_len buf), chunks), rest)
  ]

  span_fits :
      (buf span : Text)
      → length buf ≤ max_len
      → AtMost max_len (add_span strip max_len overlap buf span).0
        × (length (add_span strip max_len overlap buf span).1 ≤ max_len)
  unfolding add_span
  span_fits buf span fits = elim (Bool-cases (leb (length (buf ++ span)) max_len)) [
    | inl y ↦ rw y (tt, leb→le (length (buf ++ span)) max_len y)
    | inr n ↦ elim (Bool-cases (is_empty buf)) [
      | inl y ↦ rw (n, y) (cut_fits (length span) span (omega arith))
      | inr m ↦
          let longer = tail_of overlap buf ++ span in
          let (chunks, rest) = cut_fits (length longer) longer (omega arith) in
          rw (n, m) ((omega (arith, shrinks buf, fits), chunks), rest)
    ]
  ]

  spans_fit :
      (spans : List Text) (buf : Text)
      → length buf ≤ max_len
      → AtMost max_len (add_spans strip max_len overlap buf spans).0
        × (length (add_spans strip max_len overlap buf spans).1 ≤ max_len)
  unfolding add_spans
  spans_fit [] buf fits = (tt, fits)
  spans_fit (span ∷ spans) buf fits =
      let (chunks, rest) = span_fits buf span fits in
      let (more, last) = spans_fit spans (add_span strip max_len overlap buf span).1 rest in
      (
        All-append (λ c. length c ≤ max_len) (add_span strip max_len overlap buf span).0 _ chunks
            more,
        last,
      )

  fold_fits :
      (buf : Text) (chunks : List Text)
      → length buf ≤ min_len
      → AtMost max_len chunks
      → AtMost (max_len + min_len) (fold_last strip buf chunks)
  unfolding fold_last
  fold_fits buf [] few a = tt
  fold_fits buf (c ∷ []) few a =
      (omega (arith, shrinks (c ++ buf), length-append c buf, a.0, few), tt)
  fold_fits buf (c ∷ next ∷ chunks) few a =
      (omega (arith, a.0), fold_fits buf (next ∷ chunks) few a.1)

  finish_fits :
      (chunks : List Text) (buf : Text)
      → AtMost max_len chunks
      → length buf ≤ max_len
      → AtMost (max_len + min_len) (finish strip min_len chunks buf)
  unfolding finish
  finish_fits chunks buf a fits =
      let wide = AtMost-weaken max_len (max_len + min_len) chunks (omega arith) a in
      elim (Bool-cases (is_empty (strip buf))) [
        | inl y ↦ rw y wide
        | inr n ↦ elim (Bool-cases (not (is_empty chunks) && ltb (length buf) min_len)) [
          | inl y ↦ rw (n, y) (fold_fits buf chunks (ground (arith, y)) a)
          | inr m ↦
              rw (n, m)
                (All-append (λ c. length c ≤ max_len + min_len) chunks _ wide
                  (omega (arith, shrinks buf, fits), tt))
        ]
      ]

  long_bounded :
      (text : Text) → AtMost (max_len + min_len) (chunk_long strip text max_len min_len overlap)
  unfolding chunk_long
  long_bounded text =
      let (chunks, rest) = spans_fit (split_recursive text separators max_len) [] (omega arith) in
      AtMost-select (max_len + min_len) (λ c. not (is_empty (strip c))) _
        (finish_fits _ _ chunks rest)

  -- No chunk is longer than `max_len` and `min_len` together, if `strip` makes no text longer and the
  -- overlap is less than `max_len`.
  pub chunks_bounded :
      (given : Text)
      → AtMost (max_len + min_len) (chunk_markdown strip given max_len min_len overlap)
  unfolding chunk_markdown
  chunks_bounded given =
      let text = strip given in
      let n = max_len + min_len in
      either_way n (is_empty text) _ _ (λ y. tt)
        (λ long.
          either_way n (leb (length text) max_len) _ _
            (λ y. (omega (arith, leb→le (length text) max_len y), tt)) (λ m. long_bounded text))
