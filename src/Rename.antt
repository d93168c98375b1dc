-- ===== src/Rename.antt =====
-- homework.c: fs_rename, within one directory.
pub mod Inside
pub mod Loop
pub mod Renamed
use cs5600_project_3_file_sy.Common.{
  ℕ, zero, suc, ◌+◌, Bool, true, false, not, ◌&&◌, ◌||◌, List, Option, none, some, ◌==◌,
  if◌then◌else◌,
}
use cs5600_project_3_file_sy.Outcome.{
  Outcome, ok, err, crash, within, enoent, enotdir, eexist, einval, eopnotsupp,
}
use cs5600_project_3_file_sy.Disk.{Block, block_read}
use cs5600_project_3_file_sy.Format.{Inode, is_dir, entry_count, name_ends, set_name}
use cs5600_project_3_file_sy.Path.{Name, parent_of}
use cs5600_project_3_file_sy.Dir.{ptr_at, dir_blocks, find_slot, is_named}
use cs5600_project_3_file_sy.Translate.{translate}
use cs5600_project_3_file_sy.State.{M, ◌>>=◌, ◌>>◌, reads, lift, require, write_block}

-- Every error of translate becomes -ENOENT.
abbrev pub or_enoent : {A : Type 0} → Outcome A → Outcome A
or_enoent (ok a) = ok a
or_enoent (err e) = err enoent
or_enoent crash = crash

-- The last of the `n` slots from `k` on that has the property: `src_entry` is assigned at each.
unfoldable pub last_slot : (ℕ → Bool) → ℕ → ℕ → Option ℕ
last_slot p k zero = none
last_slot p k (suc n) = elim (last_slot p (k + 1) n) [
  | some j ↦ some j
  | none ↦ if p k then some k else none
]

-- `dst_entry` is assigned where the entry has the new name and not the old one.
unfoldable pub is_other : Name → Name → Block → ℕ → Bool
is_other src dst b k = is_named dst b k && not (is_named src b k)

-- A name that one of the two calls of `strcmp` reads past the end of the block.
unfoldable pub runs_over : Name → Name → Block → ℕ → Bool
runs_over src dst b k = (is_named src b k || is_named dst b k) && not (name_ends b k)

abbrev pub no_slot : Option ℕ → Bool
no_slot none = true
no_slot (some k) = false

-- The loop over the entries stays in the buffer.
unfoldable pub stays_inside : Name → Name → Block → Bool
unfolding runs_over
stays_inside src dst b = no_slot (find_slot (runs_over src dst b) 0 entry_count)

-- A `dst_entry` that an earlier block set stays set.
abbrev pub seen_in : Bool → Option ℕ → Bool
seen_in seen (some k) = true
seen_in seen none = seen

-- One block: what the code does after its loop over the entries, and `next` if it goes on.
unfoldable pub rename_in : Name → ℕ → Block → Bool → Option ℕ → M (Unit {0}) → M (Unit {0})
rename_in dst lba b seen none next = next
rename_in dst lba b true (some k) next = lift (err eexist)
rename_in dst lba b false (some k) next = write_block lba (set_name b k dst)

-- The blocks of the parent from `i` on.
unfoldable pub rename_from : Name → Name → Inode → Bool → ℕ → ℕ → M (Unit {0})
rename_from src dst parent seen i zero = lift (err eopnotsupp)
rename_from src dst parent seen i (suc rounds) =
    let next = λ (seen' : Bool). rename_from src dst parent seen' (i + 1) rounds in
    lift (ptr_at parent i) >>= λ lba. reads (λ s. block_read s.dev lba) >>= λ b.
    lift (within (stays_inside src dst b))
    >> let seen' : Bool = seen_in seen (find_slot (is_other src dst b) 0 entry_count) in
      rename_in dst lba b seen' (last_slot (is_named src b) 0 entry_count) (next seen')

unfoldable pub fs_rename : List ℕ → List ℕ → M (Unit {0})
fs_rename src_path dst_path = do
  source ← reads (λ s. or_enoent (translate s.dev src_path))
  (parent_src_path, src_name) ← lift (parent_of src_path)
  (parent_dst_path, dst_name) ← lift (parent_of dst_path)
  (src_parent_inum, src_parent) ← reads (λ s. or_enoent (translate s.dev parent_src_path))
  (dst_parent_inum, parent) ← reads (λ s. or_enoent (translate s.dev parent_dst_path))
  require (src_parent_inum == dst_parent_inum) einval
  require (is_dir parent.mode) enotdir
  rename_from src_name dst_name parent false 0 (dir_blocks parent.size)
