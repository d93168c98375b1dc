-- ===== src/Tests/Isolated.antt =====
-- fs_write on the file that fs_create made, beside another file.
use cs5600_project_3_file_sy.Common.{ℕ, ◌+◌, ◌<◌, ◌≡◌, refl, [], ◌∷◌, All, arith, true, false, some}
use cs5600_project_3_file_sy.Common.Int.{pos}
use cs5600_project_3_file_sy.Outcome.{ok}
use cs5600_project_3_file_sy.Disk.{Block, block_read, block_write}
use cs5600_project_3_file_sy.Bitmap.{has_bit, with_bit, first_free, scan, bit_test, bit_set}
use cs5600_project_3_file_sy.Bitmap.Count.{used_in}
use cs5600_project_3_file_sy.Format.{
  Inode, decode_inode, encode_inode, set_entry, set_name, set_word, is_dir, is_reg, c_string,
  entry_valid, entry_inode, entry_name, s_ifreg,
}
use cs5600_project_3_file_sy.Path.{
  skip_slashes, cut, strtok, tokens, pathparse, resolve_step, resolve_from, resolve_path, join,
  split_last, parent_of,
}
use cs5600_project_3_file_sy.Path.Resolve.{IsReal}
use cs5600_project_3_file_sy.Dir.{
  read_inode, dir_blocks, ptr_at, find_slot, find_from, find_in_dir, is_named, is_unused,
}
use cs5600_project_3_file_sy.Translate.{translate, walk, step, enter, descend}
use cs5600_project_3_file_sy.State.{State, set_bit, write_block, save_bitmap}
use cs5600_project_3_file_sy.State.Runs.{IsWritable}
use cs5600_project_3_file_sy.Create.{
  parent_dir, require_absent, take_block, write_or_undo, add_entry, new_file, fs_create,
}
use cs5600_project_3_file_sy.Read.{slice, read_loop, read_at, fs_read}
use cs5600_project_3_file_sy.Write.{fs_write}
use cs5600_project_3_file_sy.Write.Extend.{IsFile, IsStorage}
use cs5600_project_3_file_sy.Layout.{Consistent}
use cs5600_project_3_file_sy.Layout.Created.{fs_create-Consistent}
use cs5600_project_3_file_sy.Layout.Isolated.{fs_write-fs_read_other}
use cs5600_project_3_file_sy.Layout.Parent.{IsEntryPath}
use cs5600_project_3_file_sy.Layout.Touched.{IsShort}
use cs5600_project_3_file_sy.Tests.Calls.{after_create, create_succeeds}
use cs5600_project_3_file_sy.Tests.Consistency.{state-Consistent}
use cs5600_project_3_file_sy.Tests.Entries.{parted}
use cs5600_project_3_file_sy.Tests.Files.{stored_inode, f_is_reg}
use cs5600_project_3_file_sy.Tests.Image.{codes, env, contents, root_entries, map_block, state}

new_path : IsEntryPath (codes "/a/new")
new_path = record {
  bytes = (
    (omega arith, omega arith),
    (
      (omega arith, omega arith),
      (
        (omega arith, omega arith),
        (
          (omega arith, omega arith),
          ((omega arith, omega arith), ((omega arith, omega arith), tt)),
        ),
      ),
    ),
  );
  parent = codes "/a";
  name = codes "new";
  parts = parted;
}

regular : is_dir (s_ifreg + 0o644) ≡ false
unfolding is_dir
regular = refl

after-Consistent : Consistent after_create
after-Consistent = rw create_succeeds at (
    fs_create-Consistent env (codes "/a/new") (s_ifreg + 0o644) state new_path (omega arith) regular
      state-Consistent)

-- The bitmap with the inode of /a/new in it.
abbrev map_after : Block
map_after = with_bit map_block 11

-- The inode of /a/new.
abbrev made : Inode
made = decode_inode (encode_inode (new_file env (s_ifreg + 0o644)))

new_found : translate after_create.dev (codes "/a/new") ≡ ok (11, made)
unfolding fs_create parent_dir parent_of resolve_path resolve_from resolve_step split_last join
    require_absent take_block write_or_undo add_entry first_free scan bit_test bit_set has_bit
    translate walk step enter descend pathparse tokens strtok cut skip_slashes read_inode block_read
    decode_inode is_dir find_in_dir find_from dir_blocks ptr_at find_slot is_named is_unused
    entry_valid entry_inode entry_name c_string contents root_entries encode_inode set_entry
    set_name set_word block_write write_block set_bit save_bitmap
new_found = refl

f_found : translate after_create.dev (codes "/f") ≡ ok (6, stored_inode)
unfolding fs_create parent_dir parent_of resolve_path resolve_from resolve_step split_last join
    require_absent take_block write_or_undo add_entry first_free scan bit_test bit_set has_bit
    translate walk step enter descend pathparse tokens strtok cut skip_slashes read_inode block_read
    decode_inode is_dir find_in_dir find_from dir_blocks ptr_at find_slot is_named is_unused
    entry_valid entry_inode entry_name c_string contents root_entries encode_inode set_entry
    set_name set_word block_write write_block set_bit save_bitmap
f_found = refl

f_read : fs_read after_create (codes "/f") 2 10 ≡ ok (10 ∷ 11 ∷ [])
unfolding fs_create parent_dir parent_of resolve_path resolve_from resolve_step split_last join
    require_absent take_block write_or_undo add_entry first_free scan bit_test bit_set has_bit
    translate walk step enter descend pathparse tokens strtok cut skip_slashes read_inode block_read
    decode_inode is_dir is_reg find_in_dir find_from dir_blocks ptr_at find_slot is_named is_unused
    entry_valid entry_inode entry_name c_string contents root_entries encode_inode set_entry
    set_name set_word block_write write_block set_bit save_bitmap fs_read read_at read_loop slice
f_read = refl

after_facts :
    (after_create.dev.blocks ≡ 16)
    × (after_create.super.disk_size ≡ 16)
    × ((k : ℕ) → after_create.dev.bad_read k ≡ false)
    × ((k : ℕ) → after_create.dev.bad_write k ≡ false)
    × (after_create.bitmap ≡ some map_after)
unfolding fs_create parent_dir parent_of resolve_path resolve_from resolve_step split_last join
    require_absent take_block write_or_undo add_entry first_free scan bit_test bit_set has_bit
    translate walk step enter descend pathparse tokens strtok cut skip_slashes read_inode block_read
    decode_inode is_dir find_in_dir find_from dir_blocks ptr_at find_slot is_named is_unused
    entry_valid entry_inode entry_name c_string contents root_entries encode_inode set_entry
    set_name set_word block_write write_block set_bit save_bitmap
after_facts = (refl, refl, (λ k. refl), (λ k. refl), refl)

after-IsWritable : (k : ℕ) → 0 < k → k < 16 → IsWritable after_create.dev k
after-IsWritable k from to = record {
  positive = from;
  addressable = omega arith;
  good = after_facts.3 k;
}

after-IsStorage : IsStorage map_after after_create
after-IsStorage = record {
  loaded = after_facts.4;
  covered = omega (arith, after_facts.1);
  map_writable = after-IsWritable 1 (omega arith) (omega arith);
  free_inside = λ k from to free. omega (arith, after_facts.0, after_facts.1);
  free_readable = λ k from to free. after_facts.2 k;
  free_writable = λ k from to free. after-IsWritable k (omega arith) (omega (arith, after_facts.1));
}

eleven_used : has_bit map_after 11 ≡ true
unfolding has_bit with_bit
eleven_used = refl

ten_used : used_in map_after 2 14 ≡ 10
unfolding has_bit with_bit
ten_used = refl

made_facts : (is_dir made.mode ≡ false) × (made.size ≡ pos 0)
unfolding is_dir decode_inode encode_inode new_file
made_facts = (refl, refl)

made-IsFile : IsFile 11 0 made map_after after_create
made-IsFile = record {
  ready = record {
    in_array = omega arith;
    inside = λ j l. absurd (omega arith);
    readable = λ j l. absurd (omega arith);
    writable = λ j l. absurd (omega arith);
  };
  separate = record {
    inside = λ j l. absurd (omega arith);
    different = λ j k l h e. absurd (omega arith);
  };
  used = λ j l. absurd (omega arith);
  inode_used = eleven_used;
  inode_writable = after-IsWritable 11 (omega arith) (omega arith);
  apart = λ j l. absurd (omega arith);
  apart_map = λ j l. absurd (omega arith);
  inode_apart = λ e. omega arith;
}

paths-IsShort : (IsShort (codes "/a/new")) × (IsShort (codes "/f"))
unfolding pathparse tokens strtok cut skip_slashes
paths-IsShort = (omega arith, omega arith)

f-IsReal : All IsReal (pathparse (codes "/f"))
unfolding pathparse tokens strtok cut skip_slashes
f-IsReal = ((refl, refl), tt)

fs_write-fs_read_other_example :
    (t : State) × (fs_write env (codes "/a/new") (5 ∷ 6 ∷ []) 0 after_create ≡ (ok 2, t))
    × (fs_read t (codes "/f") 2 10 ≡ ok (10 ∷ 11 ∷ []))
fs_write-fs_read_other_example =
    fs_write-fs_read_other env (codes "/a/new") (codes "/f") (5 ∷ 6 ∷ []) (10 ∷ 11 ∷ []) 11 6 0 0 0
      1 2 10 made stored_inode map_after after_create after-Consistent paths-IsShort.0
      paths-IsShort.1 f-IsReal new_found f_found (λ e. omega arith) made_facts.0 f_is_reg
      made_facts.1 (omega arith) (omega arith) (omega arith) (omega arith) (omega arith)
      (omega arith) made-IsFile after-IsStorage (rw (after_facts.1) (omega (arith, ten_used)))
      (omega arith) f_read
