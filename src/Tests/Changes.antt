-- ===== src/Tests/Changes.antt =====
-- fs_truncate, fs_rename and a lookup after fs_unlink on the test image.
use cs5600_project_3_file_sy.Common.{◌≡◌, refl, ◌∷◌, length, arith, true, none}
use cs5600_project_3_file_sy.Outcome.{ok, err, enoent}
use cs5600_project_3_file_sy.Disk.{block_read}
use cs5600_project_3_file_sy.Format.{
  decode_inode, encode_inode, set_entry, set_name, set_word, is_dir, c_string, entry_valid,
  entry_inode, entry_name,
}
use cs5600_project_3_file_sy.Path.{
  slash, skip_slashes, cut, strtok, tokens, pathparse, resolve_step, resolve_from, resolve_path,
  join, split_last, parent_of,
}
use cs5600_project_3_file_sy.Dir.{
  read_inode, dir_blocks, ptr_at, find_slot, find_from, find_in_dir, is_named,
}
use cs5600_project_3_file_sy.Translate.{translate, walk, step, enter, descend, start}
use cs5600_project_3_file_sy.Translate.Frame.{Trail}
use cs5600_project_3_file_sy.State.{State}
use cs5600_project_3_file_sy.Query.{fs_getattr}
use cs5600_project_3_file_sy.Attr.{fs_truncate}
use cs5600_project_3_file_sy.Attr.Truncated.{Truncated, fs_truncate-runs}
use cs5600_project_3_file_sy.Rename.{fs_rename}
use cs5600_project_3_file_sy.Rename.Renamed.{Renamed, fs_rename-runs}
use cs5600_project_3_file_sy.Remove.{fs_unlink}
use cs5600_project_3_file_sy.Remove.Gone.{IsBeside, fs_unlink-fs_getattr}
use cs5600_project_3_file_sy.Tests.Files.{stored_inode, f_found, f_inside}
use cs5600_project_3_file_sy.Tests.Growth.{block-IsWritable, f_is_file}
use cs5600_project_3_file_sy.Tests.Refusals.{root_inode, f_entry}
use cs5600_project_3_file_sy.Tests.Removal.{f_found_slash, f-IsOnly, f_here, f_blocks_two, root_at}
use cs5600_project_3_file_sy.Tests.Image.{
  codes, env, device, contents, root_entries, map_block, state,
}

fs_truncate-runs_example :
    (t : State) × (fs_truncate env (codes "f") 0 state ≡ (ok tt, t))
    × Truncated env 6 stored_inode map_block state t
fs_truncate-runs_example =
    fs_truncate-runs env (codes "f") 6 stored_inode map_block state f_found f_is_file refl
      (omega (arith, f_blocks_two)) (λ j l. omega (arith, f_blocks_two, f_inside j))
      (block-IsWritable 1 (omega arith) (omega arith))
      (block-IsWritable 6 (omega arith) (omega arith)) (λ e. omega arith)

pub f_parted : parent_of (codes "/f") ≡ ok (codes "/", codes "f")
unfolding parent_of resolve_path resolve_from resolve_step split_last join pathparse tokens strtok
    cut skip_slashes
f_parted = refl

pub g_parted : parent_of (codes "/g") ≡ ok (codes "/", codes "g")
unfolding parent_of resolve_path resolve_from resolve_step split_last join pathparse tokens strtok
    cut skip_slashes
g_parted = refl

pub root_found : translate device (codes "/") ≡ ok (2, root_inode)
unfolding translate walk step enter descend pathparse tokens strtok cut skip_slashes read_inode
    block_read decode_inode contents encode_inode
root_found = refl

pub root_is_dir : is_dir root_inode.mode ≡ true
unfolding is_dir decode_inode contents encode_inode
root_is_dir = refl

g_absent : find_in_dir (is_named (codes "g")) device root_inode ≡ ok none
unfolding find_in_dir find_from dir_blocks ptr_at find_slot is_named entry_valid entry_inode
    entry_name c_string contents root_entries encode_inode decode_inode set_entry set_name set_word
    block_read
g_absent = refl

fs_rename-runs_example :
    (t : State) × (fs_rename (codes "/f") (codes "/g") state ≡ (ok tt, t))
    × Renamed root_inode (codes "f") (codes "g") f_entry state t
fs_rename-runs_example =
    fs_rename-runs (codes "/f") (codes "/g") (codes "/") (codes "/") (codes "f") (codes "g")
      (6, stored_inode) 2 root_inode f_entry state f_found_slash f_parted g_parted root_found
      root_found root_is_dir f_here f-IsOnly g_absent ((omega arith, omega arith), tt) (omega arith)
      (block-IsWritable 3 (omega arith) (omega arith))

up-Trail : Trail (IsBeside state f_entry) device (pathparse (codes "/")) start
unfolding pathparse tokens strtok skip_slashes
up-Trail = tt

f_resolved : length (resolve_path (pathparse (codes "/f"))) ≡ 1
unfolding resolve_path resolve_from resolve_step pathparse tokens strtok cut skip_slashes
f_resolved = refl

fs_unlink-fs_getattr_example :
    (t : State) × (fs_unlink (codes "/f") state ≡ (ok tt, t))
    × (fs_getattr t (slash ∷ join (resolve_path (pathparse (codes "/f")))) ≡ err enoent)
fs_unlink-fs_getattr_example =
    fs_unlink-fs_getattr (codes "/f") (codes "/") 6 2 stored_inode root_inode (codes "f") f_entry
      map_block state ((omega arith, omega arith), ((omega arith, omega arith), tt)) f_parted
      (omega (arith, f_resolved)) f_found_slash f_is_file root_found root_is_dir f_here f-IsOnly
      refl (omega (arith, f_blocks_two)) (λ j l. omega (arith, f_blocks_two, f_inside j))
      (omega arith) (block-IsWritable 3 (omega arith) (omega arith))
      (block-IsWritable 1 (omega arith) (omega arith)) (λ j l e. omega (arith, root_at j l))
      (λ e. omega arith) up-Trail (omega arith, (λ e. omega arith), (λ e. omega arith))
