-- ===== src/Tests/Listings.antt =====
-- fs_readdir, and what follows an fs_create, on the test image.
use mathlib.Core.List.{Memᴰ}
use cs5600_project_3_file_sy.Common.{
  ℕ, zero, suc, ◌+◌, ◌*◌, ◌^◌, ◌≤◌, ◌<◌, ◌≡◌, refl, sym, ap, ◌∙◌, List, arith, true, false, none,
  some, Option, dec_lt, str_eq, if◌then◌else◌, ltb, le→ltb,
}
use cs5600_project_3_file_sy.Outcome.{ok}
use cs5600_project_3_file_sy.Disk.{Block, Device, block_read, block_write}
use cs5600_project_3_file_sy.Disk.Open.{is_image_name}
use cs5600_project_3_file_sy.Bitmap.{has_bit, first_free, scan, bit_test, bit_set}
use cs5600_project_3_file_sy.Format.{
  decode_inode, encode_inode, decode_super, set_entry, set_name, set_word, is_dir, c_string,
  entry_valid, entry_inode, entry_name, name_ends, s_ifreg,
}
use cs5600_project_3_file_sy.Path.{
  Name, skip_slashes, cut, strtok, tokens, pathparse, resolve_step, resolve_from, resolve_path,
  join, split_last, parent_of,
}
use cs5600_project_3_file_sy.Dir.{
  read_inode, dir_blocks, ptr_at, find_slot, find_from, find_in_dir, is_named, is_unused,
}
use cs5600_project_3_file_sy.Translate.{translate, walk, step, enter, descend}
use cs5600_project_3_file_sy.Query.{Stat, setstat, fs_readdir}
use cs5600_project_3_file_sy.Query.Listed.{IsReadable, fs_readdir_lem}
use cs5600_project_3_file_sy.Query.Slots.{IsListed, entry_items, in_order}
use cs5600_project_3_file_sy.State.{set_bit, write_block, save_bitmap}
use cs5600_project_3_file_sy.Init.{start_up}
use cs5600_project_3_file_sy.Create.{
  parent_dir, require_absent, take_block, write_or_undo, add_entry, new_file, fs_create,
}
use cs5600_project_3_file_sy.Create.Shown.{fs_create-fs_readdir}
use cs5600_project_3_file_sy.Calls.Restart.{IsSynced, fs_create-start_up}
use cs5600_project_3_file_sy.Tests.Calls.{
  dir_a, a_parent, a_ptr, a_found, one_block, a-IsSound, after_create, create_succeeds,
}
use cs5600_project_3_file_sy.Tests.Changes.{root_found, root_is_dir}
use cs5600_project_3_file_sy.Tests.Entries.{parted, a_is_dir, a-Trail, aside, used_below}
use cs5600_project_3_file_sy.Tests.Growth.{root_one}
use cs5600_project_3_file_sy.Tests.Refusals.{root_inode}
use cs5600_project_3_file_sy.Tests.Removal.{root_at, read_three, no_entry, root_past, five_past}
use cs5600_project_3_file_sy.Tests.Image.{
  codes, env, device, contents, root_entries, map_block, state,
}

pub root_numbers :
    (m : ℕ)
    → m < 4
    → entry_valid root_entries m ≡ true
    → (entry_inode root_entries m < 2 ^ 19) × (name_ends root_entries m ≡ true)
unfolding entry_valid entry_inode entry_name c_string root_entries set_entry set_name set_word
root_numbers zero h v = (omega arith, refl)
root_numbers (suc zero) h v = (omega arith, refl)
root_numbers (suc (suc zero)) h v = (omega arith, refl)
root_numbers (suc (suc (suc zero))) h v = (omega arith, refl)
root_numbers (suc (suc (suc (suc m)))) h v = absurd (omega arith)

unfoldable pub root-IsReadable : IsReadable device root_inode
root-IsReadable = record {
  blocks = λ j. root_entries;
  in_array = omega (arith, root_one);
  reads = λ j l. ap (block_read device) (root_at j l) ∙ read_three;
  fits = λ j m l small v. elim (dec_lt m 4) [
    | yes q ↦ root_numbers m q v
    | no q ↦
        let out = no_entry root_entries m (λ j lt. root_past (32 * m + j) (omega arith)) in
        let clash : true ≡ false = sym v ∙ out in cc
  ];
}

fs_readdir_example :
    ((fs_readdir state (codes "/")).1 ≡ ok tt)
    × ((e : Name × Stat)
        → (Memᴰ e (fs_readdir state (codes "/")).0
            → (j m : ℕ) × (j < dir_blocks root_inode.size)
              × (m < 128)
              × IsListed device (root-IsReadable.blocks j) m e)
          × ((j m : ℕ) × (j < dir_blocks root_inode.size)
                × (m < 128)
                × IsListed device (root-IsReadable.blocks j) m e
              → Memᴰ e (fs_readdir state (codes "/")).0))
    × ((fs_readdir state (codes "/")).0
        ≡ in_order
            (λ j. in_order (entry_items device (root-IsReadable.blocks j)) 0 128)
            0
            (dir_blocks root_inode.size))
fs_readdir_example =
    fs_readdir_lem (codes "/") 2 root_inode state root_found root_is_dir root-IsReadable

state-IsSynced : IsSynced state
unfolding decode_super block_read contents
state-IsSynced = record {
  first = contents 0;
  first_there = refl;
  super_is = refl;
  magic_is = refl;
  map = map_block;
  map_there = refl;
  map_is = refl;
}

-- The one file that can be opened is the image that the call left.
abbrev open_image : List ℕ → Option Device
open_image file = if str_eq file (codes "disk.img") then some after_create.dev else none

named : is_image_name (codes "disk.img") ≡ true
unfolding is_image_name
named = refl

fs_create-start_up_example : start_up open_image (codes "disk.img") ≡ some after_create
fs_create-start_up_example =
    fs_create-start_up open_image (codes "disk.img") env (codes "/a/new") (s_ifreg + 0o644) state
      after_create map_block dir_a (codes "new") a_parent refl (omega arith) a-IsSound
      ((omega arith, omega arith), ((omega arith, omega arith), ((omega arith, omega arith), tt)))
      (omega arith) state-IsSynced create_succeeds named refl

-- Block 5 after the call.
abbrev new_block : Block
new_block = set_entry (contents 5) 0 11 (codes "new")

new_past : (o : ℕ) → 64 ≤ o → new_block o ≡ 0
unfolding set_entry set_name set_word
new_past o h =
    let name : ltb o 31 ≡ false = le→ltb o 31 (omega arith) in
    let word : ltb o 4 ≡ false = le→ltb o 4 (omega arith) in ground (arith, five_past o h)

new_numbers :
    (m : ℕ)
    → m < 2
    → entry_valid new_block m ≡ true
    → (entry_inode new_block m < 2 ^ 19) × (name_ends new_block m ≡ true)
unfolding entry_valid entry_inode entry_name c_string contents set_entry set_name set_word
new_numbers zero h v = (omega arith, refl)
new_numbers (suc zero) h v = (omega arith, refl)
new_numbers (suc (suc m)) h v = absurd (omega arith)

read_new : block_read after_create.dev 5 ≡ ok new_block
unfolding fs_create parent_dir parent_of resolve_path resolve_from resolve_step split_last join
    require_absent take_block write_or_undo add_entry first_free scan bit_test bit_set has_bit
    translate walk step enter descend pathparse tokens strtok cut skip_slashes read_inode block_read
    decode_inode is_dir find_in_dir find_from dir_blocks ptr_at find_slot is_named is_unused
    entry_valid entry_inode entry_name c_string contents root_entries encode_inode set_entry
    set_name set_word block_write write_block set_bit save_bitmap
read_new = refl

new-IsReadable : IsReadable after_create.dev dir_a
new-IsReadable = record {
  blocks = λ j. new_block;
  in_array = omega (arith, one_block);
  reads = λ j l. ap (block_read after_create.dev) (a_ptr j l) ∙ read_new;
  fits = λ j m l small v. elim (dec_lt m 2) [
    | yes q ↦ new_numbers m q v
    | no q ↦
        let out = no_entry new_block m (λ j lt. new_past (32 * m + j) (omega arith)) in
        let clash : true ≡ false = sym v ∙ out in cc
  ];
}

fs_create-fs_readdir_example :
    ((fs_readdir after_create (codes "/a")).1 ≡ ok tt)
    × Memᴰ
        (codes "new", setstat (new_file env (s_ifreg + 0o644)))
        (fs_readdir after_create (codes "/a")).0
fs_create-fs_readdir_example =
    fs_create-fs_readdir env (codes "/a/new") (codes "/a") (codes "new") (s_ifreg + 0o644) 4 dir_a
      map_block state after_create parted
      ((omega arith, omega arith), ((omega arith, omega arith), ((omega arith, omega arith), tt)))
      (omega arith) a_found a_is_dir refl (omega arith) a-IsSound a-Trail
      (aside 4 used_below.2 (omega arith) (omega arith)) (λ k free. refl) (omega arith)
      create_succeeds new-IsReadable
