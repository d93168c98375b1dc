-- ===== src/Create/Entry.antt =====
-- The entry that fs_create and fs_mkdir write into the parent directory.
use cs5600_project_3_file_sy.Common.{
  ℕ, ◌^◌, ◌≤◌, ◌<◌, ◌≡◌, ◌≢◌, sym, ap, ◌∙◌, All, length, arith, true, false, none, some,
}
use cs5600_project_3_file_sy.Outcome.{ok}
use cs5600_project_3_file_sy.Disk.{Block, Device, block_read, block_write}
use cs5600_project_3_file_sy.Disk.Access.{
  block_read-block_write_self, block_read-block_write_ne, readable,
}
use cs5600_project_3_file_sy.Bitmap.{has_bit}
use cs5600_project_3_file_sy.Format.{Inode, set_entry}
use cs5600_project_3_file_sy.Format.Strings.{IsChar}
use cs5600_project_3_file_sy.Format.Entries.{IsTerminated}
use cs5600_project_3_file_sy.Path.{Name}
use cs5600_project_3_file_sy.Dir.{Hit, find_in_dir, dir_blocks, is_named, is_unused}
use cs5600_project_3_file_sy.Dir.Search.{
  dir_block, dir_block-ok, dir_block-intro, Found, find_from-Found,
}
use cs5600_project_3_file_sy.Dir.Insert.{find_from-cong, find_from-insert, entered}
use cs5600_project_3_file_sy.State.{State}

-- A directory whose blocks are in use and on the image, with names that end in their entries.
pub record IsSound (s : State) (map : Block) (dir : Inode) : Type 0 where
  pub used : (j : ℕ) → j < dir_blocks dir.size → has_bit map (dir.ptrs j) ≡ true
  pub apart : (j : ℕ) → j < dir_blocks dir.size → 2 ≤ dir.ptrs j
  pub inside : (j : ℕ) → j < dir_blocks dir.size → dir.ptrs j < s.dev.blocks
  pub ends :
      (j lba : ℕ) (b : Block)
      → j < dir_blocks dir.size
      → dir_block s.dev dir j ≡ ok (lba, b)
      → (m : ℕ) → m < 128
      → IsTerminated b m

-- From the device `d0` on which the directory was found sound, the writes before the entry have left
-- the directory as it was; the last device is `d2`.
module _ (s : State) (map : Block) (parent : Inode) (name : Name) (inum : ℕ) (d2 d3 : Device)
    (h : Hit) (sound : IsSound s map parent) (inum_to : inum < 2 ^ 31) (chars : All IsChar name)
    (fits : length name ≤ 26)
    (same : (j : ℕ)
      → j < dir_blocks parent.size
      → block_read d2 (parent.ptrs j) ≡ block_read s.dev (parent.ptrs j))
    (grows : s.dev.blocks ≤ d2.blocks)
    (w3 : block_write d2 h.lba (set_entry h.block h.slot inum name) ≡ ok d3)
    (absent : find_in_dir (is_named name) s.dev parent ≡ ok none)
    (unused : find_in_dir is_unused d2 parent ≡ ok (some h)) where
  ends_two :
      (j lba : ℕ) (b : Block)
      → j < dir_blocks parent.size
      → dir_block d2 parent j ≡ ok (lba, b)
      → (m : ℕ) → m < 128
      → IsTerminated b m
  ends_two j lba b l e =
      let (in_array, at, read) = dir_block-ok d2 parent j lba b e in
      sound.ends j (parent.ptrs j) b l
        (dir_block-intro s.dev parent j b in_array (sym (same j l) ∙ ap (block_read d2) at ∙ read))

  hit-Found : Found is_unused d2 parent 0 (dir_blocks parent.size) h
  unfolding find_in_dir
  hit-Found = find_from-Found is_unused d2 parent 0 (dir_blocks parent.size) h unused

  pub entry_found : find_in_dir (is_named name) d3 parent ≡ ok (some (entered h inum name))
  unfolding find_in_dir
  entry_found =
      let (in_array, at, read) =
        dir_block-ok d2 parent hit-Found.index h.lba h.block hit-Found.block_there in
      let (bound, good) = readable d2 h.lba h.block read in
      find_from-insert d2 d3 parent h inum name inum_to chars fits
        (block_read-block_write_self d2 d3 h.lba (set_entry h.block h.slot inum name) w3 good) 0
        (dir_blocks parent.size)
        (λ j l m ne.
          block_read-block_write_ne d2 d3 h.lba (parent.ptrs j) (set_entry h.block h.slot inum name)
            w3 ne (omega (arith, sound.inside j (omega arith), grows)))
        (λ j lba b l m e. ends_two j lba b (omega arith) e) unused
        (find_from-cong (is_named name) s.dev d2 parent 0 (dir_blocks parent.size)
            (λ j l m. same j (omega arith))
          ∙ absent)

  -- The block of the entry is one of the directory's.
  pub hit_index : (j : ℕ) × (j < dir_blocks parent.size) × (parent.ptrs j ≡ h.lba)
  hit_index =
      let (in_array, at, read) =
        dir_block-ok d2 parent hit-Found.index h.lba h.block hit-Found.block_there in
      (hit-Found.index, omega (arith, hit-Found.index_to), at)

  pub slot_fits : h.slot < 128
  slot_fits = omega (arith, hit-Found.slot_first.in_range)

-- A block that is used and one that is free.
pub used-ne_free : (map : Block) (i j : ℕ) → has_bit map i ≡ true → has_bit map j ≡ false → i ≢ j
used-ne_free map i j u f e = let clash : true ≡ false = sym u ∙ ap (has_bit map) e ∙ f in cc
