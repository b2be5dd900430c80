-- ===== src/FileStore/Allocation.antt =====
-- What an allocation of a name does to the directory.
use backplaned_agents.Prelude.{
  ◌==◌, nat_eq, list_eq, option_eq, Text, text_iff, lookup-insert, lookup-insert_self, lookup,
  insert, ℕ, zero, suc, ◌+◌, ◌≡◌, refl, sym, ap, ◌≢◌, inl, inr, false, none, some, [], ◌∷◌, arith,
  leb, leb→le, Bool-cases, Option-cases, some_inj, ℤ, pos, negsuc,
}
use backplaned_agents.FileStore.{
  FileName, Directory, insert_file_name, repoint_file_name, Dedup, error, overwrite, append_count,
  Saved, saved_as, filename_exists, append_from, settle_existing, allocate_name, minus,
  next_dedup_candidate, max_dedup_attempts,
}

-- the bytes of all rows of a directory
abbrev pub total : Directory → ℕ
total [] = 0
total ((filename, file) ∷ directory) = file.byte_size + total directory

-- `a + d` is `b`
abbrev pub Adds : ℤ → ℕ → ℕ → Type 0
Adds (pos k) a b = b ≡ a + k
Adds (negsuc k) a b = a ≡ b + suc k

-- the change of a directory that binds one name and leaves the others
abbrev pub IsBound : Directory → Directory → FileName → Text → Type 0
IsBound directory directory' file name =
    ((row : FileName) × (lookup name directory' ≡ some row) × (row.file_id ≡ file.file_id))
    × ((other : Text) → other ≢ name → lookup other directory' ≡ lookup other directory)

-- what a call promises: the name it returns is bound to the blob, no other name has changed, and the
-- bytes that it tells are those added; a refusal changes nothing
abbrev pub IsAllocated : Directory → FileName → Directory × Saved → Type 0
IsAllocated directory file (directory', saved_as name added) =
    IsBound directory directory' file name × Adds added (total directory) (total directory')
IsAllocated directory file (directory', filename_exists) = directory' ≡ directory

insert-total_new :
    (filename : Text) (file : FileName) (directory : Directory)
    → lookup filename directory ≡ none
    → total (insert filename file directory) ≡ total directory + file.byte_size
unfolding insert lookup
insert-total_new filename file [] h = omega arith
insert-total_new filename file ((j, w) ∷ directory) h = elim (Bool-cases (j == filename)) [
  | inl y ↦ absurd (ground (arith, rw y at h))
  | inr n ↦ rw n (omega (arith, insert-total_new filename file directory (rw n at h)))
]

insert-total_known :
    (filename : Text) (file old : FileName) (directory : Directory)
    → lookup filename directory ≡ some old
    → total (insert filename file directory) + old.byte_size ≡ total directory + file.byte_size
unfolding insert lookup
insert-total_known filename file old [] h = absurd (ground (arith, h))
insert-total_known filename file old ((j, w) ∷ directory) h = elim (Bool-cases (j == filename)) [
  | inl y ↦ rw y (omega (arith, ap (λ f. f.byte_size) (some_inj (rw y at h))))
  | inr n ↦ rw n (omega (arith, insert-total_known filename file old directory (rw n at h)))
]

pub insert-IsBound :
    (filename : Text) (file : FileName) (directory : Directory)
    → IsBound directory (insert filename file directory) file filename
insert-IsBound filename file directory = (
  (file, lookup-insert_self filename file directory, refl),
  λ other apart. elim (Bool-cases (filename == other)) [
    | inl y ↦ absurd (apart (sym ((text_iff filename other).0 y)))
    | inr n ↦ rw (lookup-insert filename other file directory, n) refl
  ],
)

minus-Adds : (a b x y : ℕ) → y + b ≡ x + a → Adds (minus a b) x y
minus-Adds a b x y h = elim (Bool-cases (leb b a)) [
  | inl y ↦ rw y (omega (arith, leb→le b a y, h))
  | inr n ↦ rw n (ground (arith, n, h))
]

module _ (filename : Text) (file : FileName) (directory : Directory) where
  inserted-IsAllocated :
      lookup filename directory ≡ none
      → IsAllocated directory file
          (insert filename file directory, saved_as filename (pos file.byte_size))
  inserted-IsAllocated h =
      (insert-IsBound filename file directory, insert-total_new filename file directory h)

  repointed-IsAllocated :
      (old : FileName)
      → lookup filename directory ≡ some old
      → IsAllocated directory file (
        repoint_file_name filename file directory,
        saved_as filename (minus file.byte_size old.byte_size),
      )
  unfolding repoint_file_name
  repointed-IsAllocated old h =
      rw (h, repoint_file_name)
        (
          insert-IsBound filename file directory,
          minus-Adds file.byte_size old.byte_size _ _
              (insert-total_known filename file old directory h),
        )

  same-IsAllocated :
      (old : FileName)
      → lookup filename directory ≡ some old
      → old.file_id ≡ file.file_id
      → IsAllocated directory file (directory, saved_as filename (pos 0))
  same-IsAllocated old h same = (((old, h, same), λ other apart. refl), omega arith)

append_from-IsAllocated :
    (attempts n : ℕ) (directory : Directory) (filename : Text) (file : FileName)
    → IsAllocated directory file (append_from attempts n directory filename file)
unfolding append_from insert_file_name
append_from-IsAllocated zero n directory filename file = refl
append_from-IsAllocated (suc attempts) n directory filename file =
    let candidate = next_dedup_candidate filename n in
    elim (Option-cases (lookup candidate directory)) [
      | inl e ↦ rw e (inserted-IsAllocated candidate file directory e)
      | inr (row, e) ↦ rw e (append_from-IsAllocated attempts (suc n) directory filename file)
    ]

differing-IsAllocated :
    (existing : FileName) (directory : Directory) (filename : Text) (file : FileName)
    (dedup : Dedup)
    → lookup filename directory ≡ some existing
    → (existing.file_id == file.file_id) ≡ false
    → IsAllocated directory file (settle_existing (some existing) directory filename file dedup)
unfolding settle_existing
differing-IsAllocated existing directory filename file error h n = rw n refl
differing-IsAllocated existing directory filename file overwrite h n =
    rw n (repointed-IsAllocated filename file directory existing h)
differing-IsAllocated existing directory filename file append_count h n =
    rw n (append_from-IsAllocated max_dedup_attempts 1 directory filename file)

settle_existing-IsAllocated :
    (existing : FileName) (directory : Directory) (filename : Text) (file : FileName)
    (dedup : Dedup)
    → lookup filename directory ≡ some existing
    → IsAllocated directory file (settle_existing (some existing) directory filename file dedup)
unfolding settle_existing
settle_existing-IsAllocated existing directory filename file dedup h =
    elim (Bool-cases (existing.file_id == file.file_id)) [
      | inl y ↦ rw y (
          same-IsAllocated filename file directory existing h
            ((text_iff existing.file_id file.file_id).0 y))
      | inr n ↦ differing-IsAllocated existing directory filename file dedup h n
    ]

-- Where no other call changes the names between the queries of the call, and its reads find what the
-- directory has, a call that returns a name has bound it to the blob, left every other name alone and
-- told the bytes that it added; a call that is refused has changed nothing.
pub allocate_name-IsAllocated :
    (directory : Directory) (filename : Text) (file : FileName) (dedup : Dedup)
    → let read = lookup filename directory in
      IsAllocated directory file (allocate_name read read directory filename file dedup)
unfolding allocate_name insert_file_name
allocate_name-IsAllocated directory filename file dedup =
    elim (Option-cases (lookup filename directory)) [
      | inl e ↦ rw (e, allocate_name, e) (inserted-IsAllocated filename file directory e)
      | inr (existing, e) ↦
          rw (e, allocate_name)
            (settle_existing-IsAllocated existing directory filename file dedup e)
    ]
