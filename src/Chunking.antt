-- ===== src/Chunking.antt =====
-- bp_agents/common/chunking.py: a text is split at the most semantic separator into spans that are short
-- enough, and the spans are collected into chunks. `str.strip` is a parameter. `max_len` is not 0,
-- where `range` would raise, and `overlap` is no more than `max_len`, where a slice would count from
-- the end.
pub mod Spans
pub mod Chunks
mod Examples
use backplaned_agents.Prelude.{
  Eq, nat_eq, list_eq, option_eq, Text, codes, strip_prefix, ℕ, zero, suc, ◌-◌, Bool, true, false,
  not, ◌&&◌, Option, none, some, List, [], ◌∷◌, ◌++◌, arith, ltb, leb, if◌then◌else◌, is_some,
  length, take, select,
}

abbrev pub drop {ℓ} : {A : Type ℓ} → ℕ → List A → List A
drop zero xs = xs
drop (suc n) [] = []
drop (suc n) (x ∷ xs) = drop n xs

abbrev pub is_empty {ℓ} : {A : Type ℓ} → List A → Bool
is_empty [] = true
is_empty (x ∷ xs) = false

-- `"".join(parts)`
abbrev pub concat : List Text → Text
concat [] = []
concat (part ∷ parts) = part ++ concat parts

-- `_SEPARATORS`
abbrev pub separators : List Text
separators = codes "\n#" ∷ codes "\n\n" ∷ codes "\n" ∷ codes ". " ∷ codes " " ∷ [] ∷ []

-- what stands before the first occurrence of `sep`, and what behind it
unfoldable pub split_once : Text → Text → Option (Text × Text)
unfolding strip_prefix
split_once sep [] = none
split_once sep (c ∷ text) =
    let later = split_once sep text in
    elim (strip_prefix sep (c ∷ text)) [
      | some rest ↦ some ([], rest)
      | none ↦ elim later [ none ↦ none | some found ↦ some (c ∷ found.0, found.1) ]
    ]

-- `text.split(sep)` behind its first part, each with the separator in front; `length text` rounds are
-- enough
unfoldable pub split_pieces : ℕ → Text → Text → Text × List Text
unfolding split_once
split_pieces zero sep text = (text, [])
split_pieces (suc fuel) sep text = elim (split_once sep text) [
  | none ↦ (text, [])
  | some found ↦ let more = split_pieces fuel sep found.1 in (found.0, (sep ++ more.0) ∷ more.1)
]

-- the parts with the separator re-attached
unfoldable pub pieces : Text → Text → List Text
unfolding split_pieces
pieces sep text = let found = split_pieces (length text) sep text in found.0 ∷ found.1

-- `[text[i : i + max_len] for i in range(0, len(text), max_len)]`; `length text` rounds are enough
unfoldable pub char_split : ℕ → ℕ → Text → List Text
char_split zero max_len text = []
char_split (suc fuel) max_len [] = []
char_split (suc fuel) max_len (c ∷ text) =
    take max_len (c ∷ text) ∷ char_split fuel max_len (drop max_len (c ∷ text))

-- the loop over the pieces, with what is done to one that is too long
unfoldable pub collect : (Text → List Text) → ℕ → List Text → List Text
collect deeper max_len [] = []
collect deeper max_len ([] ∷ more) = collect deeper max_len more
collect deeper max_len ((c ∷ piece) ∷ more) =
    (if leb (length (c ∷ piece)) max_len then (c ∷ piece) ∷ [] else deeper (c ∷ piece))
    ++ collect deeper max_len more

-- `_split_recursive` of a text that is too long
unfoldable pub split_long : ℕ → List Text → Text → List Text
unfolding char_split pieces split_once collect
split_long max_len [] text = text ∷ []
split_long max_len ([] ∷ rest) text = char_split (length text) max_len text
split_long max_len ((s ∷ sep) ∷ rest) text =
    let deeper = split_long max_len rest in
    if is_some (split_once (s ∷ sep) text)
    then collect deeper max_len (pieces (s ∷ sep) text)
    else deeper text

unfoldable pub split_recursive : Text → List Text → ℕ → List Text
unfolding split_long
split_recursive text seps max_len =
    if leb (length text) max_len
    then (if is_empty text then [] else text ∷ [])
    else split_long max_len seps text

abbrev pub Strip : Type 0
Strip = Text → Text

-- the `while` loop: the chunks that it cuts off, and the rest; `length buf` rounds are enough
unfoldable pub hard_cut : ℕ → Strip → ℕ → ℕ → Text → List Text × Text
hard_cut zero strip max_len overlap buf = ([], buf)
hard_cut (suc fuel) strip max_len overlap buf =
    let kept =
      if leb overlap 0
      then drop max_len buf
      else drop (max_len - overlap) (take max_len buf) ++ drop max_len buf in
    let (chunks, rest) = hard_cut fuel strip max_len overlap kept in
    if leb (length buf) max_len then ([], buf) else (strip (take max_len buf) ∷ chunks, rest)

-- `buf[-overlap:] if overlap else ""`
abbrev pub tail_of : ℕ → Text → Text
tail_of overlap buf = if leb overlap 0 then [] else drop (length buf - overlap) buf

-- one round of the loop over the spans: the chunks that it adds, and the new buffer
unfoldable pub add_span : Strip → ℕ → ℕ → Text → Text → List Text × Text
unfolding hard_cut
add_span strip max_len overlap buf span =
    if leb (length (buf ++ span)) max_len
    then ([], buf ++ span)
    else if is_empty buf
    then hard_cut (length span) strip max_len overlap span
    else (let longer = tail_of overlap buf ++ span in
        let (chunks, rest) = hard_cut (length longer) strip max_len overlap longer in
        (strip buf ∷ chunks, rest))

unfoldable pub add_spans : Strip → ℕ → ℕ → Text → List Text → List Text × Text
unfolding add_span
add_spans strip max_len overlap buf [] = ([], buf)
add_spans strip max_len overlap buf (span ∷ spans) =
    let (chunks, buf') = add_span strip max_len overlap buf span in
    let (more, buf'') = add_spans strip max_len overlap buf' spans in (chunks ++ more, buf'')

-- `chunks[-1] = f"{chunks[-1]}{buf}".strip()`
unfoldable pub fold_last : Strip → Text → List Text → List Text
fold_last strip buf [] = []
fold_last strip buf (chunk ∷ []) = strip (chunk ++ buf) ∷ []
fold_last strip buf (chunk ∷ next ∷ chunks) = chunk ∷ fold_last strip buf (next ∷ chunks)

-- what becomes of the last buffer
unfoldable pub finish : Strip → ℕ → List Text → Text → List Text
unfolding fold_last
finish strip min_len chunks buf =
    if is_empty (strip buf)
    then chunks
    else if not (is_empty chunks) && ltb (length buf) min_len
    then fold_last strip buf chunks
    else chunks ++ strip buf ∷ []

-- `chunk_markdown` of a stripped text that is longer than one chunk
unfoldable pub chunk_long : Strip → Text → ℕ → ℕ → ℕ → List Text
unfolding split_recursive add_spans finish
chunk_long strip text max_len min_len overlap =
    let (chunks, buf) =
      add_spans strip max_len overlap [] (split_recursive text separators max_len) in
    select (λ c. not (is_empty (strip c))) (finish strip min_len chunks buf)

unfoldable pub chunk_markdown : Strip → Text → ℕ → ℕ → ℕ → List Text
unfolding chunk_long
chunk_markdown strip given max_len min_len overlap =
    let text = strip given in
    if is_empty text
    then []
    else if leb (length text) max_len
    then text ∷ []
    else chunk_long strip text max_len min_len overlap
