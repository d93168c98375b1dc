-- ===== src/Tests/Refusals.antt =====
-- The root directory of the test image and the entry of its file.
use cs5600_project_3_file_sy.Common.{◌≡◌, refl}
use cs5600_project_3_file_sy.Outcome.{ok}
use cs5600_project_3_file_sy.Disk.{block_read}
use cs5600_project_3_file_sy.Format.{
  Inode, decode_inode, encode_inode, set_entry, set_name, set_word, is_dir, c_string, entry_valid,
  entry_inode, entry_name,
}
use cs5600_project_3_file_sy.Path.{
  skip_slashes, cut, strtok, tokens, pathparse, resolve_step, resolve_from, resolve_path, join,
  split_last, parent_of,
}
use cs5600_project_3_file_sy.Dir.{
  Hit, read_inode, dir_blocks, ptr_at, find_slot, find_from, find_in_dir, is_named,
}
use cs5600_project_3_file_sy.Translate.{translate, walk, step, enter, descend}
use cs5600_project_3_file_sy.Create.{parent_dir}
use cs5600_project_3_file_sy.Tests.Image.{codes, contents, root_entries, state}

abbrev pub root_inode : Inode
unfolding contents
root_inode = decode_inode (contents 2)

-- The entry of /f.
abbrev pub f_entry : Hit
f_entry = record { lba = 3; block = root_entries; slot = 3 }

pub f_parent : parent_dir (codes "/f") state ≡ (ok (root_inode, codes "f"), state)
unfolding parent_dir parent_of resolve_path resolve_from resolve_step split_last join translate walk
    step enter descend pathparse tokens strtok cut skip_slashes read_inode block_read decode_inode
    is_dir find_in_dir find_from dir_blocks ptr_at find_slot is_named entry_valid entry_inode
    entry_name c_string contents root_entries encode_inode set_entry set_name set_word
f_parent = refl
