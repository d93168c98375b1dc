-- ===== src/Tests/Runs.antt =====
-- Runs of several operations on the test image.
use cs5600_project_3_file_sy.Common.{ℕ, ◌≡◌, refl, List, [], ◌∷◌}
use cs5600_project_3_file_sy.Outcome.{Outcome, ok, err, ◌>>=◌, enotempty}
use cs5600_project_3_file_sy.Disk.{Device, block_read, block_write}
use cs5600_project_3_file_sy.Bitmap.{has_bit, with_bit, bit_test, bit_set, scan, first_free}
use cs5600_project_3_file_sy.Format.{
  decode_inode, encode_inode, is_dir, is_reg, c_string, entry_valid, entry_inode, entry_name,
  set_name, set_word, set_entry,
}
use cs5600_project_3_file_sy.Path.{
  skip_slashes, cut, strtok, tokens, pathparse, resolve_step, resolve_from, resolve_path, join,
  split_last, parent_of,
}
use cs5600_project_3_file_sy.Dir.{
  read_inode, dir_blocks, ptr_at, find_slot, find_from, find_in_dir, is_named, is_unused,
}
use cs5600_project_3_file_sy.Translate.{translate, walk, step, enter, descend}
use cs5600_project_3_file_sy.State.{set_bit, write_block, save_bitmap}
use cs5600_project_3_file_sy.Create.{
  parent_dir, require_absent, take_block, write_or_undo, add_entry, new_file, fs_create,
}
use cs5600_project_3_file_sy.Remove.{fs_rmdir, has_entry}
use cs5600_project_3_file_sy.Read.{fs_read, read_at, read_loop, slice}
use cs5600_project_3_file_sy.Write.{fs_write, write_at, write_loop, grow, blocks_needed}
use cs5600_project_3_file_sy.Tests.Image.{codes, device, state, env, contents, root_entries}

abbrev inum : Device → List ℕ → Outcome ℕ
inum d path = translate d path >>= λ r. ok r.0

abbrev three : List ℕ
three = 11 ∷ 12 ∷ 13 ∷ []

found_below : inum device (codes "//a/./b/") ≡ ok 8
unfolding translate walk step enter descend pathparse tokens strtok cut skip_slashes read_inode
    block_read decode_inode is_dir find_in_dir find_from dir_blocks ptr_at find_slot is_named
    entry_valid entry_inode entry_name c_string contents root_entries encode_inode set_entry
    set_name set_word
found_below = refl

-- The new file takes block 11, the first that is free, and its path leads there.
found_after_create :
    inum (fs_create env (codes "//a//b/../new") 33188 state).1.dev (codes "/a/new") ≡ ok 11
unfolding fs_create parent_dir parent_of resolve_path resolve_from resolve_step split_last join
    require_absent take_block write_or_undo add_entry first_free scan bit_test bit_set has_bit
    with_bit translate walk step enter descend pathparse tokens strtok cut skip_slashes read_inode
    block_read decode_inode is_dir find_in_dir find_from dir_blocks ptr_at find_slot is_named
    is_unused entry_valid entry_inode entry_name c_string contents root_entries encode_inode
    set_entry set_name set_word block_write write_block set_bit save_bitmap new_file
found_after_create = refl

-- Bytes 4094 to 4098, after 4095 to 4097 were overwritten.
read_after_write :
    fs_read (fs_write env (codes "/f") three 4095 state).1 (codes "f") 5 4094
    ≡ ok (78 ∷ 11 ∷ 12 ∷ 13 ∷ 82 ∷ [])
unfolding translate walk step enter descend pathparse tokens strtok cut skip_slashes read_inode
    block_read decode_inode is_dir find_in_dir find_from dir_blocks ptr_at find_slot is_named
    entry_valid entry_inode entry_name c_string contents root_entries encode_inode set_entry
    set_name set_word fs_write write_at write_loop grow blocks_needed block_write is_reg write_block
    fs_read read_at read_loop slice
read_after_write = refl

a_not_empty : (fs_rmdir (codes "/a") state).0 ≡ err enotempty
unfolding fs_rmdir has_entry translate walk step enter descend pathparse tokens strtok cut
    skip_slashes read_inode block_read decode_inode is_dir find_in_dir find_from dir_blocks ptr_at
    find_slot is_named entry_valid entry_inode entry_name c_string contents root_entries
    encode_inode set_entry set_name set_word
a_not_empty = refl
