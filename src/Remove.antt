-- ===== src/Remove.antt =====
-- homework.c: fs_unlink and fs_rmdir.
pub mod Blocks
pub mod Unlinked
pub mod Gone
pub mod Rmdir
use cs5600_project_3_file_sy.Common.{
  ℕ, zero, suc, ◌+◌, ◌/◌, Bool, true, false, not, List, Option, none, some, ◌==◌, if◌then◌else◌,
}
use cs5600_project_3_file_sy.Common.Int.{ℤ, pos, negsuc}
use cs5600_project_3_file_sy.Outcome.{ok, eisdir, enotdir, enotempty}
use cs5600_project_3_file_sy.Disk.{Block, block_size, block_read}
use cs5600_project_3_file_sy.Format.{Inode, is_dir, entry_valid, entry_count, clear_entry}
use cs5600_project_3_file_sy.Path.{Name}
use cs5600_project_3_file_sy.Dir.{Hit, ptr_at, find_slot, find_in_dir, is_named}
use cs5600_project_3_file_sy.Translate.{translate}
use cs5600_project_3_file_sy.Create.{parent_dir}
use cs5600_project_3_file_sy.State.{
  M, ◌>>=◌, ◌>>◌, reads, lift, require, write_block, clear_bit, save_bitmap,
}

-- `num_blocks = ceil((double)inode.size / FS_BLOCK_SIZE)` as the rounds of a loop.
unfoldable pub file_blocks : ℤ → ℕ
file_blocks (pos n) = (n + 4095) / block_size
file_blocks (negsuc n) = 0

-- The loop that invalidates the first entry of that name; where there is none nothing is written.
abbrev pub erase_entry : Option Hit → M (Unit {0})
erase_entry none = lift (ok tt)
erase_entry (some h) = write_block h.lba (clear_entry h.block h.slot)

unfoldable pub remove_entry : Inode → Name → M (Unit {0})
remove_entry parent name = do
  hit ← reads (λ s. find_in_dir (is_named name) s.dev parent)
  erase_entry hit

-- `if (inode.ptrs[i]) bit_clear(bitmap, inode.ptrs[i]);` for `rounds` items from `i` on.
abbrev pub release : ℕ → M (Unit {0})
release p = if p == 0 then lift (ok tt) else clear_bit p

unfoldable pub release_blocks : Inode → ℕ → ℕ → M (Unit {0})
release_blocks n i zero = lift (ok tt)
release_blocks n i (suc rounds) = do
  p ← lift (ptr_at n i)
  release p
  release_blocks n (i + 1) rounds

unfoldable pub fs_unlink : List ℕ → M (Unit {0})
fs_unlink path = do
  (inum, inode) ← reads (λ s. translate s.dev path)
  require (not (is_dir inode.mode)) eisdir
  (parent, name) ← parent_dir path
  remove_entry parent name
  release_blocks inode 0 (file_blocks inode.size)
  clear_bit inum
  save_bitmap

-- The loop that returns -ENOTEMPTY.
unfoldable pub has_entry : Block → Bool
has_entry b = elim (find_slot (entry_valid b) 0 entry_count) [ none ↦ false | some k ↦ true ]

unfoldable pub fs_rmdir : List ℕ → M (Unit {0})
fs_rmdir path = do
  (inum, inode) ← reads (λ s. translate s.dev path)
  require (is_dir inode.mode) enotdir
  block ← reads (λ s. block_read s.dev (inode.ptrs 0))
  require (not (has_entry block)) enotempty
  (parent, name) ← parent_dir path
  remove_entry parent name
  clear_bit (inode.ptrs 0)
  clear_bit inum
  save_bitmap
