-- ===== src/Create.antt =====
-- homework.c: fs_create and fs_mkdir.
pub mod Errors
pub mod Parts
pub mod Entry
pub mod Created
pub mod Runs
pub mod Two
pub mod Made
pub mod Findable
pub mod Shown
use cs5600_project_3_file_sy.Common.{
  ℕ, ◌+◌, ◌%◌, ◌^◌, bit_or, Bool, true, false, not, ◌||◌, List, Option, none, some, ◌==◌,
  if◌then◌else◌,
}
use cs5600_project_3_file_sy.Common.Int.{pos}
use cs5600_project_3_file_sy.Outcome.{
  Outcome, ok, err, crash, Errno, enotdir, eexist, enospc, eopnotsupp,
}
use cs5600_project_3_file_sy.Disk.{Block, zero_block, block_size}
use cs5600_project_3_file_sy.Bitmap.{first_free, two_free}
use cs5600_project_3_file_sy.Format.{Inode, encode_inode, is_dir, s_ifdir, set_entry}
use cs5600_project_3_file_sy.Path.{Name, parent_of}
use cs5600_project_3_file_sy.Dir.{Hit, find_in_dir, is_named, is_unused}
use cs5600_project_3_file_sy.Translate.{translate}
use cs5600_project_3_file_sy.State.{
  State, Env, M, ◌>>=◌, ◌>>◌, reads, lift, require, on_error, ignore, write_block, set_bit,
  clear_bit, save_bitmap,
}

-- From the path to the parent's inode, which must be a directory, and the last component.
unfoldable pub parent_dir : List ℕ → M (Inode × Name)
parent_dir path = do
  (parent_path, name) ← lift (parent_of path)
  (parent_inum, parent) ← reads (λ s. translate s.dev parent_path)
  require (is_dir parent.mode) enotdir
  lift (ok (parent, name))

abbrev pub is_none : Option Hit → Bool
is_none none = true
is_none (some h) = false

-- The loop that returns -EEXIST.
unfoldable pub require_absent : Inode → Name → M (Unit {0})
require_absent parent name = do
  hit ← reads (λ s. find_in_dir (is_named name) s.dev parent)
  require (is_none hit) eexist

-- The loop that writes the name into the first entry that is not valid; `full` is what the
-- operation returns if every entry is.
abbrev pub write_entry : ℕ → Name → Errno → Option Hit → M (Unit {0})
write_entry inum name full none = lift (err full)
write_entry inum name full (some h) = write_block h.lba (set_entry h.block h.slot inum name)

unfoldable pub add_entry : Inode → Name → ℕ → Errno → M (Unit {0})
add_entry parent name inum full = do
  hit ← reads (λ s. find_in_dir is_unused s.dev parent)
  write_entry inum name full hit

-- The inode that fs_create writes: `time(NULL)` is cut to 32 bits, and the rest is zero.
unfoldable pub new_file : Env → ℕ → Inode
new_file env mode = record {
  uid = env.uid % 2 ^ 16;
  gid = env.gid % 2 ^ 16;
  mode = mode;
  ctime = env.now % 2 ^ 32;
  mtime = env.now % 2 ^ 32;
  size = pos 0;
  ptrs = λ _. 0;
}

-- The first clear bit is set, in memory and on disk.
unfoldable pub take_block : M ℕ
take_block = do
  inum ← reads (λ s. first_free s.bitmap s.super.disk_size)
  require (not (inum == 0)) enospc
  set_bit inum
  save_bitmap
  lift (ok inum)

-- A write that takes the allocation back if it fails.
unfoldable pub write_or_undo : ℕ → Block → M (Unit {0}) → M (Unit {0})
write_or_undo lba b undo = on_error (write_block lba b) (undo >> ignore save_bitmap)

unfoldable pub fs_create : Env → List ℕ → ℕ → M (Unit {0})
fs_create env path mode = do
  (parent, name) ← parent_dir path
  require_absent parent name
  inum ← take_block
  write_or_undo inum (encode_inode (new_file env mode)) (clear_bit inum)
  add_entry parent name inum enospc

unfoldable pub new_dir : Env → ℕ → ℕ → Inode
new_dir env mode data_block = record {
  uid = env.uid % 2 ^ 16;
  gid = env.gid % 2 ^ 16;
  mode = bit_or s_ifdir mode;
  ctime = env.now % 2 ^ 32;
  mtime = env.now % 2 ^ 32;
  size = pos block_size;
  ptrs = λ i. if i == 0 then data_block else 0;
}

-- Two clear bits are set, for the inode and its one block of entries.
unfoldable pub take_two : M (ℕ × ℕ)
take_two = do
  (dir_inum, data_block) ← reads (λ s. two_free s.bitmap s.super.disk_size)
  require (not (dir_inum == 0 || data_block == 0)) enospc
  set_bit dir_inum
  set_bit data_block
  save_bitmap
  lift (ok (dir_inum, data_block))

unfoldable pub fs_mkdir : Env → List ℕ → ℕ → M (Unit {0})
fs_mkdir env path mode = do
  (parent, name) ← parent_dir path
  require_absent parent name
  (dir_inum, data_block) ← take_two
  write_or_undo dir_inum (encode_inode (new_dir env mode data_block))
      (clear_bit dir_inum >> clear_bit data_block)
  write_or_undo data_block zero_block (clear_bit dir_inum >> clear_bit data_block)
  add_entry parent name dir_inum eopnotsupp
