-- ===== src/Tests/Files.antt =====
-- The theorems on fs_read, fs_write and fs_create, at concrete calls on the test image.
use cs5600_project_3_file_sy.Common.{
  ℕ, zero, suc, ◌-◌, ◌/◌, ◌<◌, ◌≡◌, ◌≢◌, refl, List, [], ◌∷◌, length, min, arith, true,
}
use cs5600_project_3_file_sy.Common.Int.{pos}
use cs5600_project_3_file_sy.Outcome.{ok}
use cs5600_project_3_file_sy.Disk.{Block, block_read, block_write}
use cs5600_project_3_file_sy.Format.{
  Inode, decode_inode, encode_inode, set_entry, set_name, set_word, is_dir, is_reg, c_string,
  entry_valid, entry_inode, entry_name,
}
use cs5600_project_3_file_sy.Path.{skip_slashes, cut, strtok, tokens, pathparse}
use cs5600_project_3_file_sy.Dir.{
  read_inode, dir_blocks, ptr_at, find_slot, find_from, find_in_dir, is_named,
}
use cs5600_project_3_file_sy.Translate.{translate, walk, step, enter, descend}
use cs5600_project_3_file_sy.State.{State, write_block}
use cs5600_project_3_file_sy.Read.{fs_read}
use cs5600_project_3_file_sy.Read.Contents.{file_slice, Holds, fs_read_lem}
use cs5600_project_3_file_sy.Write.{blocks_needed, grow, write_loop, write_at, fs_write}
use cs5600_project_3_file_sy.Write.Update.{Updated, fs_write-Updated, fs_write_underflow}
use cs5600_project_3_file_sy.Tests.Image.{
  codes, env, device, contents, root_entries, map_block, state,
}

-- Block 6 as an inode.
abbrev pub stored_inode : Inode
unfolding contents
stored_inode = decode_inode (contents 6)

pub f_found : translate device (codes "f") ≡ ok (6, stored_inode)
unfolding translate walk step enter descend pathparse tokens strtok cut skip_slashes read_inode
    block_read decode_inode is_dir find_in_dir find_from dir_blocks ptr_at find_slot is_named
    entry_valid entry_inode entry_name c_string contents root_entries encode_inode set_entry
    set_name set_word
f_found = refl

-- The blocks of the file.
abbrev f_blocks : ℕ → Block
f_blocks j = contents (stored_inode.ptrs j)

f_holds_at : (j : ℕ) → j < 2 → block_read device (stored_inode.ptrs j) ≡ ok (f_blocks j)
unfolding block_read decode_inode encode_inode contents
f_holds_at zero h = refl
f_holds_at (suc zero) h = refl
f_holds_at (suc (suc j)) h = absurd (omega arith)

f-Holds : Holds device stored_inode f_blocks 0 5000
f-Holds p l m = (omega arith, f_holds_at (p / 4096) (omega arith))

pub f_is_reg : is_reg stored_inode.mode ≡ true
unfolding is_reg decode_inode contents encode_inode
f_is_reg = refl

pub f_size : stored_inode.size ≡ pos 5000
unfolding decode_inode contents encode_inode
f_size = refl

fs_read_example :
    fs_read state (codes "f") 5 4094 ≡ ok (file_slice f_blocks 4094 (min 5 (5000 - 4094)))
fs_read_example =
    fs_read_lem state (codes "f") 5 4094 6 5000 stored_inode f_blocks f_found f_is_reg f_size
      (omega arith) f-Holds

abbrev three : List ℕ
three = 11 ∷ 12 ∷ 13 ∷ []

-- What fs_write leaves when it overwrites three bytes across the two blocks.
abbrev after_write : State
after_write = (fs_write env (codes "f") three 4095 state).1

write_succeeds : fs_write env (codes "f") three 4095 state ≡ (ok 3, after_write)
unfolding translate walk step enter descend pathparse tokens strtok cut skip_slashes read_inode
    block_read decode_inode is_dir find_in_dir find_from dir_blocks ptr_at find_slot is_named
    entry_valid entry_inode entry_name c_string contents root_entries encode_inode set_entry
    set_name set_word fs_write write_at write_loop grow blocks_needed block_write is_reg write_block
write_succeeds = refl

pub f_inside : (i : ℕ) → i < 2 → stored_inode.ptrs i < 16
unfolding decode_inode contents encode_inode
f_inside zero h = omega arith
f_inside (suc zero) h = omega arith
f_inside (suc (suc j)) h = absurd (omega arith)

pub f_different : (i j : ℕ) → i < 2 → j < 2 → stored_inode.ptrs i ≡ stored_inode.ptrs j → i ≡ j
unfolding decode_inode contents encode_inode
f_different zero zero h k e = refl
f_different zero (suc zero) h k e = absurd (omega arith)
f_different (suc zero) zero h k e = absurd (omega arith)
f_different (suc zero) (suc zero) h k e = refl
f_different (suc (suc i)) j h k e = absurd (omega arith)
f_different zero (suc (suc j)) h k e = absurd (omega arith)
f_different (suc zero) (suc (suc j)) h k e = absurd (omega arith)

pub f_apart : (i : ℕ) → i < 2 → stored_inode.ptrs i ≢ 6
unfolding decode_inode contents encode_inode
f_apart zero h e = omega arith
f_apart (suc zero) h e = omega arith
f_apart (suc (suc j)) h e = absurd (omega arith)

fs_write-Updated_example :
    (3 ≡ length three) × Updated env 6 4095 2 stored_inode three state after_write
fs_write-Updated_example =
    fs_write-Updated env (codes "f") three 6 4095 5000 2 3 stored_inode state after_write f_found
      f_size (omega arith) (omega arith) (omega arith)
      (record { inside = f_inside; different = f_different }) f_apart write_succeeds

-- Three bytes at position 3, in the first of the two blocks.
fs_write_underflow_example : fs_write env (codes "f") three 3 state ≢ (ok 3, after_write)
fs_write_underflow_example =
    fs_write_underflow env (codes "f") three 6 3 5000 3 stored_inode map_block state after_write
      f_found f_size (omega arith) (omega arith) refl (omega arith)
