-- ===== src/Tests/Calls.antt =====
-- The theorems on fs_create and on sessions, at concrete calls on the test image.
use cs5600_project_3_file_sy.Common.{
  ℕ, zero, suc, ◌+◌, ◌^◌, ◌*◌, ◌≤◌, ◌<◌, ◌≡◌, refl, List, [], ◌∷◌, arith, true, false, sym, ap, ◌∙◌,
  ◌⊎◌, ltb, leb, le→ltb,
}
use cs5600_project_3_file_sy.Outcome.{ok}
use cs5600_project_3_file_sy.Disk.{Block, block_read, block_write}
use cs5600_project_3_file_sy.Bitmap.{has_bit, first_free, scan, bit_test, bit_set}
use cs5600_project_3_file_sy.Format.{
  Inode, decode_inode, encode_inode, set_entry, set_name, set_word, is_dir, c_string, entry_valid,
  entry_inode, entry_name, s_ifreg,
}
use cs5600_project_3_file_sy.Format.Entries.{IsTerminated}
use cs5600_project_3_file_sy.Path.{
  skip_slashes, cut, strtok, tokens, pathparse, resolve_step, resolve_from, resolve_path, join,
  split_last, parent_of,
}
use cs5600_project_3_file_sy.Dir.{
  read_inode, dir_blocks, ptr_at, find_slot, find_from, find_in_dir, is_named, is_unused,
}
use cs5600_project_3_file_sy.Dir.Search.{dir_block, dir_block-ok}
use cs5600_project_3_file_sy.Translate.{translate, walk, step, enter, descend}
use cs5600_project_3_file_sy.State.{State, Env, set_bit, write_block, save_bitmap}
use cs5600_project_3_file_sy.State.Keeps.{SameSuper}
use cs5600_project_3_file_sy.Create.{
  parent_dir, require_absent, take_block, write_or_undo, add_entry, fs_create,
}
use cs5600_project_3_file_sy.Create.Entry.{IsSound}
use cs5600_project_3_file_sy.Create.Created.{Created, fs_create-Created}
use cs5600_project_3_file_sy.Query.{Statvfs, fs_statfs}
use cs5600_project_3_file_sy.Query.Statfs.{fs_statfs_lem}
use cs5600_project_3_file_sy.Bitmap.Count.{used_in}
use cs5600_project_3_file_sy.Calls.{Call, session}
use cs5600_project_3_file_sy.Calls.Super.{session-SameSuper}
use cs5600_project_3_file_sy.Tests.Image.{
  codes, env, device, contents, root_entries, map_block, state,
}

-- The directory /a.
abbrev pub dir_a : Inode
unfolding contents
dir_a = decode_inode (contents 4)

pub a_parent : parent_dir (codes "/a/new") state ≡ (ok (dir_a, codes "new"), state)
unfolding parent_dir parent_of resolve_path resolve_from resolve_step split_last join translate walk
    step enter descend pathparse tokens strtok cut skip_slashes read_inode block_read decode_inode
    is_dir find_in_dir find_from dir_blocks ptr_at find_slot is_named entry_valid entry_inode
    entry_name c_string contents root_entries encode_inode set_entry set_name set_word
a_parent = refl

-- What the call leaves.
abbrev pub after_create : State
after_create = (fs_create env (codes "/a/new") (s_ifreg + 0o644) state).1

pub create_succeeds : fs_create env (codes "/a/new") (s_ifreg + 0o644) state ≡ (ok tt, after_create)
unfolding fs_create parent_dir parent_of resolve_path resolve_from resolve_step split_last join
    require_absent take_block write_or_undo add_entry first_free scan bit_test bit_set has_bit
    translate walk step enter descend pathparse tokens strtok cut skip_slashes read_inode block_read
    decode_inode is_dir find_in_dir find_from dir_blocks ptr_at find_slot is_named is_unused
    entry_valid entry_inode entry_name c_string contents root_entries encode_inode set_entry
    set_name set_word block_write write_block set_bit save_bitmap
create_succeeds = refl

-- The entries of /a.
pub terminated : (m : ℕ) → m < 128 → IsTerminated (contents 5) m
unfolding contents set_entry set_name set_word c_string
terminated zero h = omega arith
terminated (suc zero) h = omega arith
terminated (suc (suc m)) h =
    let o = 32 * suc (suc m) + 4 in
    let past_name : ltb o 63 ≡ false = le→ltb o 63 (omega arith) in
    let past_word : ltb o 36 ≡ false = le→ltb o 36 (omega arith) in
    let from_name : leb 36 o ≡ true = ground arith in
    let from_word : leb 32 o ≡ true = ground arith in
    rw (past_name, past_word, from_name, from_word) (omega arith)

pub one_block : dir_blocks dir_a.size ≡ 1
unfolding dir_blocks decode_inode contents encode_inode
one_block = refl

pub first_ptr : dir_a.ptrs 0 ≡ 5
unfolding decode_inode contents encode_inode
first_ptr = refl

pub read_five : block_read device 5 ≡ ok (contents 5)
unfolding block_read contents
read_five = refl

pub a_ptr : (j : ℕ) → j < dir_blocks dir_a.size → dir_a.ptrs j ≡ 5
a_ptr zero h = first_ptr
a_ptr (suc j) h = absurd (omega (arith, one_block))

pub five_used : has_bit map_block 5 ≡ true
unfolding has_bit
five_used = refl

pub a_ends :
    (j lba : ℕ) (b : Block)
    → j < dir_blocks dir_a.size
    → dir_block device dir_a j ≡ ok (lba, b)
    → (m : ℕ) → m < 128
    → IsTerminated b m
a_ends j lba b l e m h =
    let (in_array, at, read) = dir_block-ok device dir_a j lba b e in
    let read' : block_read device 5 ≡ ok b =
      ap (block_read device) (sym (sym at ∙ a_ptr j l)) ∙ read in
    let same : contents 5 ≡ b = cc (read_five, read') in rw (← same) (terminated m h)

pub a-IsSound : IsSound state map_block dir_a
a-IsSound = record {
  used = λ j l. ap (has_bit map_block) (a_ptr j l) ∙ five_used;
  apart = λ j l. omega (arith, a_ptr j l);
  inside = λ j l. omega (arith, a_ptr j l);
  ends = a_ends;
}

fs_create-Created_example :
    Created env (s_ifreg + 0o644) dir_a (codes "new") map_block state after_create
fs_create-Created_example =
    fs_create-Created env (codes "/a/new") (s_ifreg + 0o644) state after_create map_block dir_a
      (codes "new") a_parent refl (omega arith) a-IsSound
      ((omega arith, omega arith), ((omega arith, omega arith), ((omega arith, omega arith), tt)))
      (omega arith) create_succeeds

abbrev calls : List (Env × Call)
calls =
    (env, Call.mkdir (codes "/d") 0o755)
    ∷ (env, Call.write (codes "/f") (1 ∷ 2 ∷ []) 4999)
    ∷ (env, Call.unlink (codes "/a"))
    ∷ (env, Call.rename (codes "/f") (codes "/g"))
    ∷ []

session_example : SameSuper state (session calls state)
session_example = session-SameSuper calls state (omega arith)

pub a_found : translate device (codes "/a") ≡ ok (4, dir_a)
unfolding translate walk step enter descend pathparse tokens strtok cut skip_slashes read_inode
    block_read decode_inode is_dir find_in_dir find_from dir_blocks ptr_at find_slot is_named
    entry_valid entry_inode entry_name c_string contents root_entries encode_inode set_entry
    set_name set_word
a_found = refl

statfs_example :
    (v : Statvfs) × (fs_statfs state ≡ ok v)
    × (v.f_blocks + 2 ≡ 16)
    × (v.f_bavail ≡ v.f_bfree)
    × (((used_in map_block 0 16 + 2 ≤ 16) × (v.f_bfree + used_in map_block 0 16 + 2 ≡ 16))
        ⊎ ((16 < used_in map_block 0 16 + 2)
            × (v.f_bfree + used_in map_block 0 16 + 2 ≡ 2 ^ 64 + 16)))
statfs_example = fs_statfs_lem state map_block refl (omega arith) (omega arith)
