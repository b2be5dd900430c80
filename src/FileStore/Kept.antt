-- ===== src/FileStore/Kept.antt =====
-- Which bindings of names an allocation keeps.
use backplaned_agents.Prelude.{
  ◌==◌, nat_eq, list_eq, option_eq, Text, lookup, insert, ℕ, zero, suc, ◌≡◌, refl, ap, ◌∙◌, ◌≢◌,
  inl, inr, Option, none, some, arith, Bool-cases, Option-cases,
}
use backplaned_agents.FileStore.{
  FileName, Directory, insert_file_name, Dedup, error, overwrite, append_count, append_from,
  settle_existing, allocate_name, next_dedup_candidate, max_dedup_attempts,
}
use backplaned_agents.FileStore.Allocation.{insert-IsBound}

module _ (other : Text) (row : FileName) where
  insert_keeps :
      (name : Text) (file : FileName) (directory : Directory)
      → lookup name directory ≡ none
      → lookup other directory ≡ some row
      → lookup other (insert name file directory) ≡ some row
  insert_keeps name file directory free known =
      (insert-IsBound name file directory).1 other
        (λ same. ground (arith, rw (ap (λ x. lookup x directory) same ∙ free) at known))
      ∙ known

  append_from_keeps :
      (attempts n : ℕ) (directory : Directory) (filename : Text) (file : FileName)
      → lookup other directory ≡ some row
      → lookup other (append_from attempts n directory filename file).0 ≡ some row
  unfolding append_from insert_file_name
  append_from_keeps zero n directory filename file known = known
  append_from_keeps (suc attempts) n directory filename file known =
      let candidate = next_dedup_candidate filename n in
      elim (Option-cases (lookup candidate directory)) [
        | inl e ↦ rw e (insert_keeps candidate file directory e known)
        | inr (bound, e) ↦ rw e (append_from_keeps attempts (suc n) directory filename file known)
      ]

  settle_existing_keeps :
      (existing : Option FileName) (directory : Directory) (filename : Text) (file : FileName)
      (dedup : Dedup)
      → dedup ≢ overwrite
      → lookup other directory ≡ some row
      → lookup other (settle_existing existing directory filename file dedup).0 ≡ some row
  unfolding settle_existing
  settle_existing_keeps existing directory filename file overwrite apart known = absurd (apart refl)
  settle_existing_keeps none directory filename file error apart known = known
  settle_existing_keeps none directory filename file append_count apart known =
      append_from_keeps max_dedup_attempts 1 directory filename file known
  settle_existing_keeps (some existing) directory filename file error apart known =
      elim (Bool-cases (existing.file_id == file.file_id)) [
        | inl y ↦ rw y known
        | inr n ↦ rw n known
      ]
  settle_existing_keeps (some existing) directory filename file append_count apart known =
      elim (Bool-cases (existing.file_id == file.file_id)) [
        | inl y ↦ rw y known
        | inr n ↦ rw n (append_from_keeps max_dedup_attempts 1 directory filename file known)
      ]

  -- Unless the call asks to overwrite, every name that was bound keeps its row, whatever its reads found.
  pub allocate_name_keeps :
      (seen reread : Option FileName) (directory : Directory) (filename : Text) (file : FileName)
      (dedup : Dedup)
      → dedup ≢ overwrite
      → lookup other directory ≡ some row
      → lookup other (allocate_name seen reread directory filename file dedup).0 ≡ some row
  unfolding allocate_name insert_file_name
  allocate_name_keeps (some existing) reread directory filename file dedup apart known =
      settle_existing_keeps (some existing) directory filename file dedup apart known
  allocate_name_keeps none reread directory filename file dedup apart known =
      elim (Option-cases (lookup filename directory)) [
        | inl e ↦ rw (e, allocate_name) (insert_keeps filename file directory e known)
        | inr (existing, e) ↦
            rw (e, allocate_name)
              (settle_existing_keeps reread directory filename file dedup apart known)
      ]
