-- ===== src/Dir/Hits.antt =====
-- Directories whose entries are known: when a search hits, and what the name of a hit is.
use cs5600_project_3_file_sy.Common.{
  ℕ, zero, suc, ◌+◌, ◌≤◌, ◌<◌, ◌≡◌, ◌≢◌, inl, inr, ap, ◌∙◌, sym, Bool, true, false, some, none,
  arith, List, take, length, take_all, length-take, Option-cases, str_eq, str_eq→eq, str_eq_refl,
  Bool-cases, refl, ◌&&◌,
}
use cs5600_project_3_file_sy.Outcome.{ok}
use cs5600_project_3_file_sy.Disk.{Block, Device, block_read}
use cs5600_project_3_file_sy.Format.{Inode, entry_valid, entry_name, name_ends, name_room}
use cs5600_project_3_file_sy.Format.Entries.{IsTerminated}
use cs5600_project_3_file_sy.Format.Ends.{IsTerminated-name_ends}
use cs5600_project_3_file_sy.Path.{Name}
use cs5600_project_3_file_sy.Dir.{
  Hit, over_read, find_slot, find_from, find_in_dir, dir_blocks, is_named,
}
use cs5600_project_3_file_sy.Dir.Slots.{find_slot-none, find_slot-some}
use cs5600_project_3_file_sy.Dir.Search.{
  dir_block-intro, find_from-hit, find_from-miss, find_from-nowhere,
}

pub over_read-ends : (b : Block) (k : ℕ) → k < 128 → IsTerminated b k → over_read b k ≡ false
over_read-ends b k l h = let e = IsTerminated-name_ends b k l h in ground (arith, e)

-- A short name is not the beginning of a longer one.
pub take_short : (r : ℕ) (s t : List ℕ) → length s < r → s ≡ take r t → s ≡ t
take_short r s t l e =
    e ∙ take_all r t (omega (arith, ap (λ (x : List ℕ). length x) e, length-take r t))

-- The blocks of the directory can be read, and the name of each valid entry ends inside its block.
pub record IsOpen (d : Device) (n : Inode) : Type 0 where
  pub blocks : ℕ → Block
  pub in_array : dir_blocks n.size ≤ 1019
  pub reads : (j : ℕ) → j < dir_blocks n.size → block_read d (n.ptrs j) ≡ ok (blocks j)
  pub ends :
      (j m : ℕ)
      → j < dir_blocks n.size
      → m < 128
      → entry_valid (blocks j) m ≡ true
      → name_ends (blocks j) m ≡ true

-- The test of an entry by its name, where the name ends inside the block.
pub named_entry :
    (name : Name) (b : Block) (m : ℕ)
    → entry_valid b m ≡ true
    → name_ends b m ≡ true
    → entry_name b m ≡ name
    → is_named name b m ≡ true
unfolding is_named
named_entry name b m v ends e =
    let room : take (name_room m) name ≡ name =
      take_all (name_room m) name (ground (arith, ap (λ (x : List ℕ). length x) e)) in
    rw (v, room, e) (str_eq_refl name)

pub other_entry :
    (name : Name) (b : Block) (m : ℕ)
    → (entry_valid b m ≡ true → (name_ends b m ≡ true) × (entry_name b m ≢ name))
    → is_named name b m ≡ false
unfolding is_named
other_entry name b m h =
    decide (entry_valid b m) (str_eq (entry_name b m) (take (name_room m) name)) (λ v q.
      let (ends, ne) = h v in
      ne (
        take_short (name_room m) (entry_name b m) name (ground arith)
          (str_eq→eq (entry_name b m) (take (name_room m) name) q)))
  where
    decide : (x y : Bool) → (x ≡ true → y ≡ true → ⊥) → (x && y) ≡ false
    decide true true never = absurd (never refl refl)
    decide true false never = refl
    decide false y never = refl

module _ (p : Block → ℕ → Bool) (d : Device) (n : Inode) (dir : IsOpen d n) where
  -- A directory that has an entry with the property.
  find_from-open :
      (i r j m : ℕ)
      → i + r ≤ dir_blocks n.size
      → i ≤ j
      → j < i + r
      → m < 128
      → p (dir.blocks j) m ≡ true
      → (h : Hit) × (find_from p d n i r ≡ ok (some h))
  find_from-open i zero j m fits l l' small e = absurd (omega arith)
  find_from-open i (suc r) j m fits l l' small e =
      let b = dir.blocks i in
      let here : i < dir_blocks n.size = omega arith in
      let there = dir_block-intro d n i b (omega (arith, dir.in_array)) (dir.reads i here) in
      elim (Option-cases (find_slot (p b) 0 128)) [
        | inl none_here ↦
            let later : i ≢ j = λ q.
              let clash : true ≡ false =
                sym e
                ∙ ap (λ x. p (dir.blocks x) m) (sym q)
                ∙ find_slot-none (p b) 0 128 none_here m (omega arith) (omega arith) in
              cc in
            let (h, found) =
              find_from-open (i + 1) r j m (omega arith) (omega arith) (omega arith) small e in
            (h, find_from-miss p d n i r (n.ptrs i) b there none_here ∙ found)
        | inr (k, found) ↦
            let first = find_slot-some (p b) 0 128 k found in
            let inside : over_read b k ≡ false =
              let ends = dir.ends i k here (omega (arith, first.in_range)) in ends_over b k ends in
            (
              record { lba = n.ptrs i; block = b; slot = k },
              find_from-hit p d n i r (n.ptrs i) b k there found inside,
            )
      ]
    where
      ends_over :
          (b : Block) (k : ℕ)
          → (entry_valid b k ≡ true → name_ends b k ≡ true)
          → over_read b k ≡ false
      ends_over b k h = elim (Bool-cases (entry_valid b k)) [ inl v ↦ rw (v, h v) | inr v ↦ rw v ]

  pub find_in_dir-open :
      (j m : ℕ)
      → j < dir_blocks n.size
      → m < 128
      → p (dir.blocks j) m ≡ true
      → (h : Hit) × (find_in_dir p d n ≡ ok (some h))
  unfolding find_in_dir
  find_in_dir-open j m l small e =
      find_from-open 0 (dir_blocks n.size) j m (omega arith) (omega arith) (omega arith) small e

  pub find_in_dir-nowhere :
      ((j m : ℕ) → j < dir_blocks n.size → m < 128 → p (dir.blocks j) m ≡ false)
      → find_in_dir p d n ≡ ok none
  unfolding find_in_dir
  find_in_dir-nowhere h =
      find_from-nowhere p d n 0 (dir_blocks n.size) (omega (arith, dir.in_array))
        (λ j from to. (dir.blocks j, dir.reads j (omega arith), λ m l. h j m (omega arith) l))
