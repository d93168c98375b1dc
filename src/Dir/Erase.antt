-- ===== src/Dir/Erase.antt =====
-- A search after the one entry with a name was cleared.
use cs5600_project_3_file_sy.Common.{
  ℕ, ◌≤◌, ◌<◌, ◌≡◌, ◌≢◌, refl, sym, ap, ◌∙◌, Bool, true, false, none, arith, ℕ_discrete,
}
use cs5600_project_3_file_sy.Outcome.{ok}
use cs5600_project_3_file_sy.Disk.{Block, Device, block_read}
use cs5600_project_3_file_sy.Format.{Inode, clear_entry}
use cs5600_project_3_file_sy.Format.Entries.{IsTerminated, clear_entry-ne, clear_entry-invalid}
use cs5600_project_3_file_sy.Path.{Name}
use cs5600_project_3_file_sy.Dir.{Hit, find_in_dir, dir_blocks, is_named}
use cs5600_project_3_file_sy.Dir.Search.{find_from-nowhere}

-- The blocks of a directory can be read, and the entry at `h` is the only one with the name.
pub record IsOnly (d : Device) (n : Inode) (name : Name) (h : Hit) : Type 0 where
  pub blocks : ℕ → Block
  pub in_array : dir_blocks n.size ≤ 1019
  pub readable : (j : ℕ) → j < dir_blocks n.size → block_read d (n.ptrs j) ≡ ok (blocks j)
  pub ends : (j m : ℕ) → j < dir_blocks n.size → m < 128 → IsTerminated (blocks j) m
  pub hit_there : block_read d h.lba ≡ ok h.block
  pub only :
      (j m : ℕ)
      → j < dir_blocks n.size
      → m < 128
      → is_named name (blocks j) m ≡ true
      → (n.ptrs j ≡ h.lba) × (m ≡ h.slot)

not_named : (c : Bool) → (c ≡ true → ⊥) → c ≡ false
not_named true h = absurd (h refl)
not_named false h = refl

-- In a block with no other entry of the name, none is left.
cleared_misses :
    (name : Name) (b : Block) (k m : ℕ)
    → m < 128
    → IsTerminated b m
    → (is_named name b m ≡ true → m ≡ k)
    → is_named name (clear_entry b k) m ≡ false
unfolding is_named
cleared_misses name b k m l ends only = elim (ℕ_discrete m k) [
  | yes e ↦ rw (e, clear_entry-invalid b k)
  | no ne ↦
      let (v, i, s) = clear_entry-ne b k m (λ q. ne (sym q)) l ends in
      rw (v, s) (not_named (is_named name b m) (λ q. ne (only q)))
]

module _ (d d' : Device) (n : Inode) (name : Name) (h : Hit) (only : IsOnly d n name h)
    (same : (j : ℕ)
      → j < dir_blocks n.size
      → n.ptrs j ≢ h.lba
      → block_read d' (n.ptrs j) ≡ block_read d (n.ptrs j))
    (erased : block_read d' h.lba ≡ ok (clear_entry h.block h.slot)) where
  -- The blocks of the directory after the entry was cleared, and what they show of the name.
  after :
      (j : ℕ)
      → j < dir_blocks n.size
      → (b : Block) × (block_read d' (n.ptrs j) ≡ ok b)
        × ((m : ℕ) → m < 128 → is_named name b m ≡ false)
  after j l = elim (ℕ_discrete (n.ptrs j) h.lba) [
    | yes e ↦
        let found : ok (only.blocks j) ≡ ok h.block =
          sym (only.readable j l) ∙ ap (block_read d) e ∙ only.hit_there in
        let block : only.blocks j ≡ h.block = cc in
        (
          clear_entry h.block h.slot,
          ap (block_read d') e ∙ erased,
          λ m lt.
              cleared_misses name h.block h.slot m lt (rw block at (only.ends j m l lt))
                (λ q. (only.only j m l lt (rw block q)).1),
        )
    | no ne ↦ (
      only.blocks j,
      same j l ne ∙ only.readable j l,
      λ m lt. not_named (is_named name (only.blocks j) m) (λ q. ne (only.only j m l lt q).0),
    )
  ]

  pub find_in_dir-erased : find_in_dir (is_named name) d' n ≡ ok none
  unfolding find_in_dir
  find_in_dir-erased =
      find_from-nowhere (is_named name) d' n 0 (dir_blocks n.size) (omega (arith, only.in_array))
        (λ j from to. after j (omega arith))
