-- ===== src/FileStore/Examples.antt =====
-- The theorems on names of files, at a small directory.
use backplaned_agents.Prelude.{
  nat_eq, list_eq, option_eq, codes, lookup, ◌≡◌, refl, ◌≢◌, ◌↔◌, true, none, some, [], ◌∷◌, arith,
  negsuc,
}
use backplaned_agents.FileStore.{
  FileName, Directory, overwrite, append_count, allocate_name, split_stash_name, display_name,
  valid_bare_filename, next_dedup_candidate, saved_as, quota_ok,
}
use backplaned_agents.FileStore.Names.{split_stash_name_iff}
use backplaned_agents.FileStore.Allocation.{IsAllocated, allocate_name-IsAllocated}
use backplaned_agents.FileStore.Kept.{allocate_name_keeps}

program : Unit {0}
unfolding allocate_name next_dedup_candidate split_stash_name quota_ok
program = tt

abbrev old_file : FileName
old_file = record { file_id = codes "f1"; byte_size = 10 }

abbrev new_file : FileName
new_file = record { file_id = codes "f2"; byte_size = 7 }

abbrev directory : Directory
directory = (codes "a.txt", old_file) ∷ []

split_stash_name_iff_example :
    (split_stash_name (codes "persist/a.txt") ≡ some (true, codes "a.txt")) ↔ (
      (codes "persist/a.txt" ≡ display_name true (codes "a.txt"))
      × (valid_bare_filename (codes "a.txt") ≡ true))
split_stash_name_iff_example = split_stash_name_iff (codes "persist/a.txt") (codes "a.txt") true

allocate_name-IsAllocated_example :
    IsAllocated directory new_file
      (allocate_name (some old_file) (some old_file) directory (codes "a.txt") new_file overwrite)
unfolding program
allocate_name-IsAllocated_example =
    allocate_name-IsAllocated directory (codes "a.txt") new_file overwrite

apart : append_count ≢ overwrite
apart h = ground (arith, h)

allocate_name_keeps_example :
    lookup
      (codes "a.txt")
      (allocate_name none none directory (codes "a.txt") new_file append_count).0
    ≡ some old_file
unfolding program
allocate_name_keeps_example =
    allocate_name_keeps (codes "a.txt") old_file none none directory (codes "a.txt") new_file
      append_count apart refl

last_dot : next_dedup_candidate (codes "a.tar.gz") 12 ≡ codes "a.tar_12.gz"
unfolding program
last_dot = refl

overwritten :
    allocate_name none (some old_file) directory (codes "a.txt") new_file overwrite
    ≡ ((codes "a.txt", new_file) ∷ [], saved_as (codes "a.txt") (negsuc 2))
unfolding program
overwritten = refl
