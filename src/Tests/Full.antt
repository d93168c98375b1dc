-- ===== src/Tests/Full.antt =====
-- The theorems on the refusals of fs_create and fs_mkdir, at concrete calls on the test image.
use cs5600_project_3_file_sy.Common.{
  ℕ, zero, suc, ◌+◌, ◌*◌, ◌%◌, ◌-◌, ◌<◌, ◌≡◌, refl, sym, ap, ◌∙◌, List, [], true, false, arith,
  ◌==◌, if◌then◌else◌, length,
}
use cs5600_project_3_file_sy.Outcome.{ok, err, eexist, enospc}
use cs5600_project_3_file_sy.Disk.{Block, block_read}
use cs5600_project_3_file_sy.Bitmap.{has_bit}
use cs5600_project_3_file_sy.Format.{
  decode_inode, encode_inode, set_entry, set_name, set_word, is_dir, c_string, entry_valid,
  entry_inode, entry_name, name_ends, s_ifreg,
}
use cs5600_project_3_file_sy.Format.Entries.{IsTerminated}
use cs5600_project_3_file_sy.Path.{skip_slashes, cut, strtok, tokens, pathparse}
use cs5600_project_3_file_sy.Dir.{
  read_inode, dir_blocks, ptr_at, find_slot, find_from, find_in_dir, is_named,
}
use cs5600_project_3_file_sy.Dir.Hits.{IsOpen}
use cs5600_project_3_file_sy.Dir.Search.{dir_block-ok}
use cs5600_project_3_file_sy.Translate.{translate, walk, step, enter, descend}
use cs5600_project_3_file_sy.State.{State}
use cs5600_project_3_file_sy.Create.{fs_create, fs_mkdir}
use cs5600_project_3_file_sy.Create.Entry.{IsSound}
use cs5600_project_3_file_sy.Create.Errors.{Leaked, create_mkdir-eexist, fs_create-enospc}
use cs5600_project_3_file_sy.Tests.Calls.{dir_a, a_ptr, one_block, five_used}
use cs5600_project_3_file_sy.Tests.Changes.{f_parted, root_found, root_is_dir}
use cs5600_project_3_file_sy.Tests.Entries.{parted, a_is_dir}
use cs5600_project_3_file_sy.Tests.Growth.{root_one}
use cs5600_project_3_file_sy.Tests.Listings.{root-IsReadable}
use cs5600_project_3_file_sy.Tests.Refusals.{root_inode}
use cs5600_project_3_file_sy.Tests.Image.{
  codes, env, device, contents, root_entries, map_block, state,
}

root-IsOpen : IsOpen device root_inode
unfolding root-IsReadable
root-IsOpen = record {
  blocks = λ j. root_entries;
  in_array = root-IsReadable.in_array;
  reads = root-IsReadable.reads;
  ends = λ j m l small v. (root-IsReadable.fits j m l small v).1;
}

-- The fourth entry of the root is /f.
f_valid : entry_valid root_entries 3 ≡ true
unfolding entry_valid root_entries set_entry set_name set_word
f_valid = refl

f_name : entry_name root_entries 3 ≡ codes "f"
unfolding entry_name root_entries set_entry set_name set_word c_string
f_name = refl

eexist_example :
    (fs_create env (codes "/f") s_ifreg state ≡ (err eexist, state))
    × (fs_mkdir env (codes "/f") s_ifreg state ≡ (err eexist, state))
unfolding root-IsOpen
eexist_example =
    create_mkdir-eexist env (codes "/f") (codes "/") (codes "f") s_ifreg 2 root_inode state 0 3
      f_parted root_found root_is_dir root-IsOpen (omega (arith, root_one)) (omega arith) f_valid
      f_name

-- Each entry of /a is used, with an empty name.
abbrev crowded_block : Block
crowded_block o = if o % 32 == 0 then 1 else 0

abbrev crowded : State
crowded = record state {
  dev = record device { store = λ k. if k == 5 then crowded_block else contents k };
}

crowded_found : translate crowded.dev (codes "/a") ≡ ok (4, dir_a)
unfolding translate walk step enter descend pathparse tokens strtok cut skip_slashes read_inode
    block_read decode_inode is_dir find_in_dir find_from dir_blocks ptr_at find_slot is_named
    entry_valid entry_inode entry_name c_string contents root_entries encode_inode set_entry
    set_name set_word
crowded_found = refl

read_crowded : block_read crowded.dev 5 ≡ ok crowded_block
unfolding block_read
read_crowded = refl

no_string : (b : Block) (o n : ℕ) → b o ≡ 0 → c_string b o n ≡ []
unfolding c_string
no_string b o zero e = refl
no_string b o (suc n) e = rw e

crowded_zero : (m : ℕ) → crowded_block (32 * m + 4) ≡ 0
crowded_zero m = ground arith

crowded_valid : (m : ℕ) → entry_valid crowded_block m ≡ true
unfolding entry_valid
crowded_valid m = ground arith

crowded_name : (m : ℕ) → entry_name crowded_block m ≡ []
unfolding entry_name
crowded_name m = no_string crowded_block (32 * m + 4) (4096 - (32 * m + 4)) (crowded_zero m)

crowded_ends : (m : ℕ) → m < 128 → name_ends crowded_block m ≡ true
crowded_ends m l = let none = crowded_name m in rw none (ground arith)

crowded-IsOpen : IsOpen crowded.dev dir_a
crowded-IsOpen = record {
  blocks = λ j. crowded_block;
  in_array = omega (arith, one_block);
  reads = λ j l. ap (block_read crowded.dev) (a_ptr j l) ∙ read_crowded;
  ends = λ j m l small v. crowded_ends m small;
}

crowded-IsTerminated : (m : ℕ) → IsTerminated crowded_block m
crowded-IsTerminated m =
    let none = no_string crowded_block (32 * m + 4) 28 (crowded_zero m) in rw none (omega arith)

crowded-IsSound : IsSound crowded map_block dir_a
crowded-IsSound = record {
  used = λ j l. ap (has_bit map_block) (a_ptr j l) ∙ five_used;
  apart = λ j l. omega (arith, a_ptr j l);
  inside = λ j l. omega (arith, a_ptr j l);
  ends = λ j lba b l e m h.
      let (in_array, at, read) = dir_block-ok crowded.dev dir_a j lba b e in
      let read' : block_read crowded.dev 5 ≡ ok b =
        ap (block_read crowded.dev) (sym (sym at ∙ a_ptr j l)) ∙ read in
      let same : crowded_block ≡ b = cc (read_crowded, read') in
      rw (← same) (crowded-IsTerminated m);
}

eleven_clear : has_bit map_block 11 ≡ false
unfolding has_bit
eleven_clear = refl

enospc_example :
    (t : State) × (fs_create env (codes "/a/new") s_ifreg crowded ≡ (err enospc, t))
    × Leaked env s_ifreg map_block crowded t
unfolding crowded-IsOpen
enospc_example =
    fs_create-enospc env (codes "/a/new") (codes "/a") (codes "new") s_ifreg 4 11 crowded map_block
      dir_a parted crowded_found a_is_dir refl (omega arith) crowded-IsSound crowded-IsOpen
      (λ j m l small. (
        crowded_valid m,
        (λ e.
            let clash : ◌≡◌ {A = ℕ} 3 0 = ap (λ (x : List ℕ). length x) (sym e ∙ crowded_name m) in
            omega arith),
      ))
      (omega arith) (omega arith) eleven_clear
      (record { positive = omega arith; addressable = omega arith; good = refl })
      (λ k from to free. record { positive = omega arith; addressable = omega arith; good = refl })
