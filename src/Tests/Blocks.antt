-- ===== src/Tests/Blocks.antt =====
-- The theorems on the device, the bitmap, inodes and entries, at concrete blocks.
use cs5600_project_3_file_sy.Common.{ℕ, ◌≡◌, take, true, some, arith}
use cs5600_project_3_file_sy.Outcome.{ok}
use cs5600_project_3_file_sy.Disk.{zero_block}
use cs5600_project_3_file_sy.Bitmap.{count_used, first_free}
use cs5600_project_3_file_sy.Bitmap.Free.{first_free_lem, IsFirstFree}
use cs5600_project_3_file_sy.Bitmap.Count.{used_in, count_used_lem}
use cs5600_project_3_file_sy.Format.{
  decode_inode, encode_inode, set_entry, entry_valid, entry_inode, entry_name,
}
use cs5600_project_3_file_sy.Format.Inodes.{decode_inode-encode_inode, IsInode}
use cs5600_project_3_file_sy.Format.Entries.{set_entry_lem}
use cs5600_project_3_file_sy.Tests.Image.{codes, map_block, file_inode}

first_free_example :
    (r : ℕ) × (first_free (some map_block) 16 ≡ ok r) × IsFirstFree map_block 2 16 r
first_free_example = first_free_lem map_block 16 (omega arith)

count_used_example : count_used (some map_block) 2 14 ≡ ok (used_in map_block 2 14)
count_used_example = count_used_lem map_block 2 14 (omega arith)

file_inode-IsInode : IsInode file_inode
file_inode-IsInode = record {
  uid_fits = omega arith;
  gid_fits = omega arith;
  mode_fits = omega arith;
  ctime_fits = omega arith;
  mtime_fits = omega arith;
  size_fits = omega arith;
  ptrs_fit = λ i. ground arith;
}

decode_inode_example : decode_inode (encode_inode file_inode) ≡ file_inode
decode_inode_example = decode_inode-encode_inode file_inode file_inode-IsInode

set_entry_example :
    (entry_valid (set_entry zero_block 2 9 (codes "new")) 2 ≡ true)
    × (entry_inode (set_entry zero_block 2 9 (codes "new")) 2 ≡ 9)
    × (entry_name (set_entry zero_block 2 9 (codes "new")) 2 ≡ take 26 (codes "new"))
set_entry_example =
    set_entry_lem zero_block 2 9 (codes "new") (omega arith) (omega arith)
      ((omega arith, omega arith), ((omega arith, omega arith), ((omega arith, omega arith), tt)))
