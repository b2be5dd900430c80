-- ===== src/FileStore.antt =====
-- bp_router/file_store.py: the names of stored files, with the queries of bp_router/db/queries.py that
-- bind them. A directory has the rows of one user and one scope, which every query of a call names. The
-- user's level and the configured ceiling are parameters of the quota.
pub mod Names
pub mod Allocation
pub mod Kept
mod Examples
use backplaned_agents.Prelude.{
  Eq, ◌==◌, nat_eq, list_eq, option_eq, Text, codes, strip_prefix, decimal, Dict, lookup, insert, ℕ,
  zero, suc, ◌+◌, ◌-◌, Bool, true, false, not, ◌&&◌, ◌||◌, Option, none, some, [], ◌∷◌, ◌++◌, arith,
  leb, eqb, if◌then◌else◌, is_some, any, ℤ, pos, negsuc,
}

-- `_PERSIST_PREFIX`
abbrev pub persist_prefix : Text
persist_prefix = codes "persist/"

-- `_FILENAME_REJECT` of one character
abbrev pub is_rejected : ℕ → Bool
is_rejected c = leb c 31 || eqb c 127 || eqb c 34

-- `_valid_bare_filename`
unfoldable pub valid_bare_filename : Text → Bool
valid_bare_filename [] = false
valid_bare_filename (c ∷ name) =
    not (any (λ x. eqb x 47) (c ∷ name)) && not (any is_rejected (c ∷ name))

-- `_split_stash_name`
abbrev pub checked : Bool → Text → Option (Bool × Text)
checked persistent bare = if valid_bare_filename bare then some (persistent, bare) else none

unfoldable pub split_stash_name : Text → Option (Bool × Text)
unfolding strip_prefix
split_stash_name name = elim (strip_prefix persist_prefix name) [
  | some bare ↦ checked true bare
  | none ↦ checked false name
]

-- `_scope_for`
unfoldable pub scope_for : Bool → Text → Text
scope_for persistent session_id =
    if persistent then codes "persist" else codes "session:" ++ session_id

-- `_display_name`
unfoldable pub display_name : Bool → Text → Text
display_name persistent bare = if persistent then persist_prefix ++ bare else bare

-- `s.rpartition(sep)` for one character, if it occurs
unfoldable pub rpartition : ℕ → Text → Option (Text × Text)
rpartition sep [] = none
rpartition sep (c ∷ s) = elim (rpartition sep s) [
  | some found ↦ some (c ∷ found.0, found.1)
  | none ↦ if eqb c sep then some ([], s) else none
]

-- `_next_dedup_candidate`
unfoldable pub next_dedup_candidate : Text → ℕ → Text
unfolding rpartition decimal
next_dedup_candidate filename n = elim (rpartition 46 filename) [
  | some found ↦ found.0 ++ codes "_" ++ decimal n ++ codes "." ++ found.1
  | none ↦ filename ++ codes "_" ++ decimal n
]

-- the fields of `FileNameRow` that a call writes
pub record FileName : Type 0 where
  pub file_id : Text
  pub byte_size : ℕ

abbrev pub Directory : Type 0
Directory = Dict Text FileName

-- `insert_file_name`: a name that is bound stays as it is
unfoldable pub insert_file_name : Text → FileName → Directory → Directory × Bool
unfolding lookup insert
insert_file_name filename file directory =
    if is_some (lookup filename directory)
    then (directory, false)
    else (insert filename file directory, true)

-- `repoint_file_name`
unfoldable pub repoint_file_name : Text → FileName → Directory → Directory
unfolding lookup insert
repoint_file_name filename file directory =
    if is_some (lookup filename directory) then insert filename file directory else directory

pub data Dedup : Type 0 where
  error : Dedup
  overwrite : Dedup
  append_count : Dedup

-- the name that a file got, with the bytes added, or `filename_exists`
pub data Saved : Type 0 where
  saved_as : Text → ℤ → Saved
  filename_exists : Saved

-- the difference of two sizes
abbrev pub minus : ℕ → ℕ → ℤ
minus a b = if leb b a then pos (a - b) else negsuc (b - a - 1)

-- the loop of `append_count`: `attempts` names are left to try, from the `n`-th on
unfoldable pub append_from : ℕ → ℕ → Directory → Text → FileName → Directory × Saved
unfolding next_dedup_candidate insert_file_name
append_from zero n directory filename file = (directory, filename_exists)
append_from (suc attempts) n directory filename file =
    let candidate = next_dedup_candidate filename n in
    let later = append_from attempts (suc n) directory filename file in
    let (directory', inserted) = insert_file_name candidate file directory in
    if inserted then (directory', saved_as candidate (pos file.byte_size)) else later

-- `_MAX_DEDUP_ATTEMPTS`
abbrev pub max_dedup_attempts : ℕ
max_dedup_attempts = 1000

-- what `_allocate_name` does when its reads have found `existing`, which is none where the name was
-- bound when it was inserted and unbound when it was read again
unfoldable pub settle_existing :
    Option FileName → Directory → Text → FileName → Dedup → Directory × Saved
unfolding append_from repoint_file_name
settle_existing none directory filename file dedup =
    let appended = append_from max_dedup_attempts 1 directory filename file in
    elim dedup [
      | error ↦ (directory, filename_exists)
      | overwrite ↦ appended
      | append_count ↦ appended
    ]
settle_existing (some existing) directory filename file dedup =
    let appended = append_from max_dedup_attempts 1 directory filename file in
    if existing.file_id == file.file_id
    then (directory, saved_as filename (pos 0))
    else elim dedup [
      | error ↦ (directory, filename_exists)
      | overwrite ↦ (
        repoint_file_name filename file directory,
        saved_as filename (minus file.byte_size existing.byte_size),
      )
      | append_count ↦ appended
    ]

-- `_allocate_name`, whose first read found `seen`. No row is locked: other calls can change the names
-- between the queries of this one, so what the second read finds is `reread`, and the writes meet the
-- directory of their own time, which is one here.
unfoldable pub allocate_name :
    Option FileName → Option FileName → Directory → Text → FileName → Dedup → Directory × Saved
unfolding settle_existing insert_file_name
allocate_name (some existing) reread directory filename file dedup =
    settle_existing (some existing) directory filename file dedup
allocate_name none reread directory filename file dedup =
    let (directory', inserted) = insert_file_name filename file directory in
    if inserted
    then (directory', saved_as filename (pos file.byte_size))
    else settle_existing reread directory filename file dedup

-- `_quota_ok`: `usage` is what the user's rows sum up to, `ceiling` that of the user's level
unfoldable pub quota_ok : ℤ → Option ℕ → ℕ → Bool
quota_ok (negsuc k) ceiling usage = true
quota_ok (pos zero) ceiling usage = true
quota_ok (pos (suc k)) none usage = true
quota_ok (pos (suc k)) (some ceiling) usage = leb (usage + suc k) ceiling
