-- ===== src/Tests/Removal.antt =====
-- fs_unlink and fs_rmdir on the test image.
use cs5600_project_3_file_sy.Common.{
  ℕ, zero, suc, ◌+◌, ◌*◌, ◌≤◌, ◌<◌, ◌≡◌, refl, sym, ap, ◌∙◌, List, length, arith, true, false, some,
  ltb, le→ltb, dec_lt,
}
use cs5600_project_3_file_sy.Outcome.{ok, err, enotempty}
use cs5600_project_3_file_sy.Disk.{Block, zero_block, block_read}
use cs5600_project_3_file_sy.Format.{
  Inode, decode_inode, encode_inode, set_entry, set_name, set_word, is_dir, c_string, entry_valid,
  entry_inode, entry_name,
}
use cs5600_project_3_file_sy.Format.Entries.{IsTerminated}
use cs5600_project_3_file_sy.Path.{
  skip_slashes, cut, strtok, tokens, pathparse, resolve_step, resolve_from, resolve_path, join,
  split_last, parent_of,
}
use cs5600_project_3_file_sy.Dir.{
  Hit, read_inode, dir_blocks, ptr_at, find_slot, find_from, find_in_dir, is_named,
}
use cs5600_project_3_file_sy.Dir.Erase.{IsOnly}
use cs5600_project_3_file_sy.Translate.{translate, walk, step, enter, descend}
use cs5600_project_3_file_sy.State.{State}
use cs5600_project_3_file_sy.Create.{parent_dir}
use cs5600_project_3_file_sy.Remove.{file_blocks, fs_unlink, fs_rmdir}
use cs5600_project_3_file_sy.Remove.Unlinked.{Unlinked, fs_unlink-runs}
use cs5600_project_3_file_sy.Remove.Rmdir.{Rmdired, fs_rmdir-runs, fs_rmdir-enotempty}
use cs5600_project_3_file_sy.Tests.Files.{stored_inode, f_inside}
use cs5600_project_3_file_sy.Tests.Calls.{
  dir_a, a_found, a_ptr, first_ptr, terminated, one_block, read_five,
}
use cs5600_project_3_file_sy.Tests.Entries.{a_is_dir}
use cs5600_project_3_file_sy.Tests.Growth.{block-IsWritable, f_is_file, root_one, root_ptr}
use cs5600_project_3_file_sy.Tests.Refusals.{root_inode, f_entry, f_parent}
use cs5600_project_3_file_sy.Tests.Image.{codes, device, contents, root_entries, map_block, state}

-- Behind the two entries the block is 0.
pub root_past : (o : ℕ) → 128 ≤ o → root_entries o ≡ 0
unfolding root_entries set_entry set_name set_word
root_past o h =
    let name : ltb o 127 ≡ false = le→ltb o 127 (omega arith) in
    let word : ltb o 100 ≡ false = le→ltb o 100 (omega arith) in
    let name' : ltb o 31 ≡ false = le→ltb o 31 (omega arith) in
    let word' : ltb o 4 ≡ false = le→ltb o 4 (omega arith) in ground arith

root_low : (m : ℕ) → m < 4 → IsTerminated root_entries m
unfolding root_entries set_entry set_name set_word c_string
root_low zero h = omega arith
root_low (suc zero) h = omega arith
root_low (suc (suc zero)) h = omega arith
root_low (suc (suc (suc zero))) h = omega arith
root_low (suc (suc (suc (suc m)))) h = absurd (omega arith)

-- A string that begins with NUL.
empty_string : (b : Block) (o n : ℕ) → b o ≡ 0 → length (c_string b o (suc n)) ≡ 0
unfolding c_string
empty_string b o n e = rw e refl

root_ends : (m : ℕ) → m < 128 → IsTerminated root_entries m
root_ends m h = elim (dec_lt m 4) [
  | yes l ↦ root_low m l
  | no l ↦
      omega
        (arith, empty_string root_entries (32 * m + 4) 27 (root_past (32 * m + 4) (omega arith)))
]

-- An entry of a block of zeros is not valid.
pub no_entry :
    (b : Block) (k : ℕ) → ((j : ℕ) → j < 4 → b (32 * k + j) ≡ 0) → entry_valid b k ≡ false
unfolding entry_valid
no_entry b k h =
    let z : b (32 * k) ≡ 0 =
      let e : 32 * k + 0 ≡ 32 * k = omega arith in rw e at (h 0 (omega arith)) in
    rw (z, h 1 (omega arith), h 2 (omega arith), h 3 (omega arith)) refl

f_low : (m : ℕ) → m < 4 → is_named (codes "f") root_entries m ≡ true → m ≡ 3
unfolding is_named entry_valid entry_name root_entries set_entry set_name set_word c_string
f_low zero h e = let clash : false ≡ true = e in cc
f_low (suc zero) h e = let clash : false ≡ true = e in cc
f_low (suc (suc zero)) h e = let clash : false ≡ true = e in cc
f_low (suc (suc (suc zero))) h e = refl
f_low (suc (suc (suc (suc m)))) h e = absurd (omega arith)

named_valid :
    (name : List ℕ) (b : Block) (m : ℕ) → is_named name b m ≡ true → entry_valid b m ≡ true
unfolding is_named
named_valid name b m h = ground arith

f_only : (m : ℕ) → is_named (codes "f") root_entries m ≡ true → m ≡ 3
f_only m e = elim (dec_lt m 4) [
  | yes l ↦ f_low m l e
  | no l ↦
      let out = no_entry root_entries m (λ j lt. root_past (32 * m + j) (omega arith)) in
      let there = named_valid (codes "f") root_entries m e in
      let clash : true ≡ false = sym there ∙ out in cc
]

pub root_at : (j : ℕ) → j < dir_blocks root_inode.size → root_inode.ptrs j ≡ 3
root_at zero h = root_ptr
root_at (suc j) h = absurd (omega (arith, root_one))

pub read_three : block_read device 3 ≡ ok root_entries
unfolding block_read contents
read_three = refl

pub f-IsOnly : IsOnly device root_inode (codes "f") f_entry
f-IsOnly = record {
  blocks = λ j. root_entries;
  in_array = omega (arith, root_one);
  readable = λ j l. ap (block_read device) (root_at j l) ∙ read_three;
  ends = λ j m l lt. root_ends m lt;
  hit_there = read_three;
  only = λ j m l lt e. (root_at j l, f_only m e);
}

pub f_here : find_in_dir (is_named (codes "f")) device root_inode ≡ ok (some f_entry)
unfolding find_in_dir find_from dir_blocks ptr_at find_slot is_named entry_valid entry_inode
    entry_name c_string contents root_entries encode_inode decode_inode set_entry set_name set_word
    block_read
f_here = refl

pub f_blocks_two : file_blocks stored_inode.size ≡ 2
unfolding file_blocks decode_inode contents encode_inode
f_blocks_two = refl

pub f_found_slash : translate device (codes "/f") ≡ ok (6, stored_inode)
unfolding translate walk step enter descend pathparse tokens strtok cut skip_slashes read_inode
    block_read decode_inode is_dir find_in_dir find_from dir_blocks ptr_at find_slot is_named
    entry_valid entry_inode entry_name c_string contents root_entries encode_inode set_entry
    set_name set_word
f_found_slash = refl

fs_unlink-runs_example :
    (t : State) × (fs_unlink (codes "/f") state ≡ (ok tt, t))
    × Unlinked 6 stored_inode root_inode (codes "f") f_entry map_block state t
fs_unlink-runs_example =
    fs_unlink-runs (codes "/f") 6 stored_inode root_inode (codes "f") f_entry map_block state
      f_found_slash f_is_file f_parent f_here f-IsOnly refl (omega (arith, f_blocks_two))
      (λ j l. omega (arith, f_blocks_two, f_inside j)) (omega arith)
      (block-IsWritable 3 (omega arith) (omega arith))
      (block-IsWritable 1 (omega arith) (omega arith)) (λ j l e. omega (arith, root_at j l))
      (λ e. omega arith)

-- The directory /a/b.
abbrev dir_b : Inode
unfolding contents
dir_b = decode_inode (contents 8)

-- Its entry in /a.
abbrev b_entry : Hit
b_entry = record { lba = 5; block = contents 5; slot = 1 }

b_found : translate device (codes "/a/b") ≡ ok (8, dir_b)
unfolding translate walk step enter descend pathparse tokens strtok cut skip_slashes read_inode
    block_read decode_inode is_dir find_in_dir find_from dir_blocks ptr_at find_slot is_named
    entry_valid entry_inode entry_name c_string contents root_entries encode_inode set_entry
    set_name set_word
b_found = refl

b_parent : parent_dir (codes "/a/b") state ≡ (ok (dir_a, codes "b"), state)
unfolding parent_dir parent_of resolve_path resolve_from resolve_step split_last join translate walk
    step enter descend pathparse tokens strtok cut skip_slashes read_inode block_read decode_inode
    is_dir find_in_dir find_from dir_blocks ptr_at find_slot is_named entry_valid entry_inode
    entry_name c_string contents root_entries encode_inode set_entry set_name set_word
b_parent = refl

b_here : find_in_dir (is_named (codes "b")) device dir_a ≡ ok (some b_entry)
unfolding find_in_dir find_from dir_blocks ptr_at find_slot is_named entry_valid entry_inode
    entry_name c_string contents root_entries encode_inode decode_inode set_entry set_name set_word
    block_read
b_here = refl

b_is_dir : is_dir dir_b.mode ≡ true
unfolding is_dir decode_inode contents encode_inode
b_is_dir = refl

b_ptr : dir_b.ptrs 0 ≡ 10
unfolding decode_inode contents encode_inode
b_ptr = refl

read_ten : block_read device 10 ≡ ok zero_block
unfolding block_read contents
read_ten = refl

pub five_past : (o : ℕ) → 64 ≤ o → contents 5 o ≡ 0
unfolding contents set_entry set_name set_word
five_past o h =
    let name : ltb o 63 ≡ false = le→ltb o 63 (omega arith) in
    let word : ltb o 36 ≡ false = le→ltb o 36 (omega arith) in ground arith

b_low : (m : ℕ) → m < 2 → is_named (codes "b") (contents 5) m ≡ true → m ≡ 1
unfolding is_named entry_valid entry_name contents set_entry set_name set_word c_string
b_low zero h e = let clash : false ≡ true = e in cc
b_low (suc zero) h e = refl
b_low (suc (suc m)) h e = absurd (omega arith)

b_only : (m : ℕ) → is_named (codes "b") (contents 5) m ≡ true → m ≡ 1
b_only m e = elim (dec_lt m 2) [
  | yes l ↦ b_low m l e
  | no l ↦
      let out = no_entry (contents 5) m (λ j lt. five_past (32 * m + j) (omega arith)) in
      let there = named_valid (codes "b") (contents 5) m e in
      let clash : true ≡ false = sym there ∙ out in cc
]

b-IsOnly : IsOnly device dir_a (codes "b") b_entry
b-IsOnly = record {
  blocks = λ j. contents 5;
  in_array = omega (arith, one_block);
  readable = λ j l. ap (block_read device) (a_ptr j l) ∙ read_five;
  ends = λ j m l lt. terminated m lt;
  hit_there = read_five;
  only = λ j m l lt e. (a_ptr j l, b_only m e);
}

fs_rmdir-runs_example :
    (t : State) × (fs_rmdir (codes "/a/b") state ≡ (ok tt, t))
    × Rmdired 8 dir_b dir_a (codes "b") b_entry map_block state t
fs_rmdir-runs_example =
    fs_rmdir-runs (codes "/a/b") 8 dir_b dir_a (codes "b") b_entry zero_block map_block state
      b_found b_is_dir (ap (block_read device) b_ptr ∙ read_ten)
      (λ k l. no_entry zero_block k (λ j lt. refl)) b_parent b_here b-IsOnly refl
      (omega (arith, b_ptr)) (omega arith) (block-IsWritable 5 (omega arith) (omega arith))
      (block-IsWritable 1 (omega arith) (omega arith)) (λ j l e. omega (arith, a_ptr j l))
      (λ e. omega arith)

b_valid : entry_valid (contents 5) 1 ≡ true
unfolding entry_valid contents set_entry set_name set_word
b_valid = refl

fs_rmdir-enotempty_example : fs_rmdir (codes "/a") state ≡ (err enotempty, state)
fs_rmdir-enotempty_example =
    fs_rmdir-enotempty (codes "/a") 4 1 dir_a (contents 5) state a_found a_is_dir
      (ap (block_read device) first_ptr ∙ read_five) (omega arith) b_valid
