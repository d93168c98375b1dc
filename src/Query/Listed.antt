-- ===== src/Query/Listed.antt =====
-- What fs_readdir hands to its filler.
use mathlib.Core.List.{Memᴰ}
use cs5600_project_3_file_sy.Common.{
  ℕ, zero, suc, ◌+◌, ◌^◌, ◌≤◌, ◌<◌, ◌≡◌, inl, inr, refl, ap, ◌∙◌, List, [], ◌++◌, true, arith,
  ℕ_discrete, lt→ltb,
}
use cs5600_project_3_file_sy.Outcome.{Outcome, ok, err, crash, ◌>>=◌}
use cs5600_project_3_file_sy.Disk.{Block, Device, block_read}
use cs5600_project_3_file_sy.Format.{Inode, is_dir, entry_valid, entry_inode, name_ends}
use cs5600_project_3_file_sy.Path.{Name}
use cs5600_project_3_file_sy.Dir.{ptr_at, dir_blocks}
use cs5600_project_3_file_sy.Translate.{translate}
use cs5600_project_3_file_sy.State.{State}
use cs5600_project_3_file_sy.Query.{Stat, Listing, list_slots, list_blocks, list_dir, fs_readdir}
use cs5600_project_3_file_sy.Query.Slots.{
  IsListed, entry_items, in_order, slots_end, slots_items, slots_listed, slots_list,
}

-- The directory: each of its blocks can be read, the inode numbers in its entries fit an `int`
-- offset, and their names end inside the block.
pub record IsReadable (d : Device) (n : Inode) : Type 0 where
  pub blocks : ℕ → Block
  pub in_array : dir_blocks n.size ≤ 1019
  pub reads : (j : ℕ) → j < dir_blocks n.size → block_read d (n.ptrs j) ≡ ok (blocks j)
  pub fits :
      (j m : ℕ)
      → j < dir_blocks n.size
      → m < 128
      → entry_valid (blocks j) m ≡ true
      → (entry_inode (blocks j) m < 2 ^ 19) × (name_ends (blocks j) m ≡ true)

module _ (d : Device) (n : Inode) (dir : IsReadable d n) where
  -- Some entry of the blocks `i` to `i + r - 1` gives the item.
  abbrev SomeEntry : ℕ → ℕ → Name × Stat → Type 0
  SomeEntry i r e = (j m : ℕ) × (i ≤ j) × (j < i + r) × (m < 128) × IsListed d (dir.blocks j) m e

  list_blocks-step :
      (i r : ℕ)
      → i < dir_blocks n.size
      → list_blocks d n i (suc r) ≡ list_slots d (dir.blocks i) 0 128 (list_blocks d n (i + 1) r)
  unfolding list_blocks ptr_at
  list_blocks-step i r l =
      let more = list_blocks d n (i + 1) r in
      let goes : Outcome Block → Listing = λ o. elim o [
        | ok b ↦ list_slots d b 0 128 more
        | err e ↦ ([], err e)
        | crash ↦ ([], crash)
      ] in
      let found : (ptr_at n i >>= block_read d) ≡ ok (dir.blocks i) =
        rw (lt→ltb i 1019 (omega (arith, dir.in_array))) (dir.reads i l) in
      ap goes found

  blocks_end : (i r : ℕ) → i + r ≤ dir_blocks n.size → (list_blocks d n i r).1 ≡ ok tt
  unfolding list_blocks
  blocks_end i zero l = refl
  blocks_end i (suc r) l =
      let here : i < dir_blocks n.size = omega arith in
      ap (λ (x : Listing). x.1) (list_blocks-step i r here)
      ∙ slots_end d (dir.blocks i) 0 128 (list_blocks d n (i + 1) r)
          (λ m from to. dir.fits i m here (omega arith)) (blocks_end (i + 1) r (omega arith))

  blocks_listed :
      (i r : ℕ) (e : Name × Stat)
      → i + r ≤ dir_blocks n.size
      → Memᴰ e (list_blocks d n i r).0
      → SomeEntry i r e
  unfolding list_blocks
  blocks_listed i zero e l h = elim h [ ]
  blocks_listed i (suc r) e l h =
      let step = ap (λ (x : Listing). x.0) (list_blocks-step i r (omega arith)) in
      elim (slots_listed d (dir.blocks i) 0 128 (list_blocks d n (i + 1) r) e
        (λ m from to. dir.fits i m (omega arith) (omega arith)) (rw step at h)) [
          | inl (m, from, to, is) ↦ (i, m, omega arith, omega arith, omega arith, is)
          | inr g ↦
              let (j, m, from, to, small, is) = blocks_listed (i + 1) r e (omega arith) g in
              (j, m, omega arith, omega arith, small, is)
        ]

  blocks_list :
      (i r : ℕ) (e : Name × Stat)
      → i + r ≤ dir_blocks n.size
      → SomeEntry i r e
      → Memᴰ e (list_blocks d n i r).0
  blocks_list i zero e l (j, m, from, to, small, is) = absurd (omega arith)
  blocks_list i (suc r) e l (j, m, from, to, small, is) =
      let here : i < dir_blocks n.size = omega arith in
      let step = ap (λ (x : Listing). x.0) (list_blocks-step i r here) in
      let safe = λ (m : ℕ) (from : 0 ≤ m) (to : m < 128). dir.fits i m here to in
      rw step (
        slots_list d (dir.blocks i) 0 128 (list_blocks d n (i + 1) r) e safe
          (elim (ℕ_discrete j i) [
            | yes q ↦ inl (m, omega arith, omega arith, rw q at is)
            | no ne ↦
                inr (
                  blocks_list (i + 1) r e (omega arith) (j, m, omega arith, omega arith, small, is))
          ]))

  -- The items of the blocks, in order.
  blocks_items :
      (i r : ℕ)
      → i + r ≤ dir_blocks n.size
      → list_blocks d n i r
        ≡ (in_order (λ j. in_order (entry_items d (dir.blocks j)) 0 128) i r, ok tt)
  unfolding list_blocks
  blocks_items i zero l = refl
  blocks_items i (suc r) l =
      let here : i < dir_blocks n.size = omega arith in
      let items = λ (j : ℕ). in_order (entry_items d (dir.blocks j)) 0 128 in
      list_blocks-step i r here
      ∙ slots_items d (dir.blocks i) 0 128 (list_blocks d n (i + 1) r)
          (λ m from to. dir.fits i m here (omega arith))
      ∙ ap (λ (x : Listing). (items i ++ x.0, x.1)) (blocks_items (i + 1) r (omega arith))

-- In a directory whose blocks can be read and whose valid entries hold inode numbers below 2^19 and
-- names that end inside the block, fs_readdir returns 0, and it hands out a name with attributes
-- exactly if a valid entry has that name and leads to an inode that can be read and has these
-- attributes: each such entry once, in the order of the blocks and of the entries in them.
pub fs_readdir_lem :
    (path : List ℕ) (inum : ℕ) (n : Inode) (s : State)
    → translate s.dev path ≡ ok (inum, n)
    → is_dir n.mode ≡ true
    → (dir : IsReadable s.dev n)
    → ((fs_readdir s path).1 ≡ ok tt)
      × ((e : Name × Stat)
          → (Memᴰ e (fs_readdir s path).0
              → (j m : ℕ) × (j < dir_blocks n.size) × (m < 128) × IsListed s.dev (dir.blocks j) m e)
            × ((j m : ℕ) × (j < dir_blocks n.size) × (m < 128) × IsListed s.dev (dir.blocks j) m e
                → Memᴰ e (fs_readdir s path).0))
      × ((fs_readdir s path).0
          ≡ in_order (λ j. in_order (entry_items s.dev (dir.blocks j)) 0 128) 0 (dir_blocks n.size))
unfolding fs_readdir list_dir
fs_readdir_lem path inum n s e is dir =
    let whole : fs_readdir s path ≡ list_blocks s.dev n 0 (dir_blocks n.size) = rw (e, is) in
    let listing = ap (λ (x : Listing). x.0) whole in
    (
      ap (λ (x : Listing). x.1) whole ∙ blocks_end s.dev n dir 0 (dir_blocks n.size) (omega arith),
      λ x. (
        λ h.
            let (j, m, from, to, small, listed) =
              blocks_listed s.dev n dir 0 (dir_blocks n.size) x (omega arith) (rw listing at h) in
            (j, m, omega arith, small, listed),
        λ (j, m, l, small, listed). rw listing (
            blocks_list s.dev n dir 0 (dir_blocks n.size) x (omega arith)
              (j, m, omega arith, omega arith, small, listed)),
      ),
      listing
          ∙ ap (λ (x : Listing). x.0)
              (blocks_items s.dev n dir 0 (dir_blocks n.size) (omega arith)),
    )
