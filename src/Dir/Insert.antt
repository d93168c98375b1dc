-- ===== src/Dir/Insert.antt =====
-- A search after a write into a directory.
use cs5600_project_3_file_sy.Common.{
  ℕ, zero, suc, ◌+◌, ◌-◌, ◌*◌, ◌≤◌, ◌<◌, ◌^◌, ◌≡◌, ◌≢◌, inl, inr, refl, sym, ap, ◌∙◌, Bool, true,
  false, none, some, arith, take_all, All, str_eq_refl, length, ltb, lt→ltb,
}
use cs5600_project_3_file_sy.Outcome.{ok}
use cs5600_project_3_file_sy.Disk.{Block, Device, block_read}
use cs5600_project_3_file_sy.Format.{Inode, set_entry}
use cs5600_project_3_file_sy.Format.Strings.{IsChar}
use cs5600_project_3_file_sy.Format.Entries.{IsTerminated, set_entry_lem, set_entry-ne}
use cs5600_project_3_file_sy.Path.{Name}
use cs5600_project_3_file_sy.Dir.{Hit, over_read, ptr_at, find_slot, find_from, is_named, is_unused}
use cs5600_project_3_file_sy.Dir.Slots.{find_slot-some, find_slot-none, find_slot-IsFirst}
use cs5600_project_3_file_sy.Dir.Search.{
  dir_block, dir_block-ok, dir_block-intro, miss_round, find_from-hit, find_from-miss,
  find_from-Round, Found, find_from-Found,
}

-- A search reads the directory's own blocks and nothing else.
pub find_from-cong :
    (p : Block → ℕ → Bool) (d d' : Device) (n : Inode) (i r : ℕ)
    → ((j : ℕ) → i ≤ j → j < i + r → block_read d' (n.ptrs j) ≡ block_read d (n.ptrs j))
    → find_from p d' n i r ≡ find_from p d n i r
unfolding find_from ptr_at
find_from-cong p d d' n i zero h = refl
find_from-cong p d d' n i (suc r) h = ground (
  arith,
  h i (omega arith) (omega arith),
  find_from-cong p d d' n (i + 1) r (λ j l m. h j (omega arith) (omega arith)),
)

-- A block after the new entry was written in its first unused slot: that entry is the first of its
-- name, if the name was not there before.
module _ (b : Block) (k inum : ℕ) (name : Name) (inum_fits : inum < 2 ^ 31)
    (chars : All IsChar name) (fits : length name ≤ 26)
    (ends : (m : ℕ) → m < 128 → IsTerminated b m) (unused : find_slot (is_unused b) 0 128 ≡ some k)
    (absent : find_slot (is_named name b) 0 128 ≡ none) where
  others : (m : ℕ) → m < 128 → m ≢ k → is_named name (set_entry b k inum name) m ≡ false
  unfolding is_named
  others m l ne =
      let (v, i, e) = set_entry-ne b k m inum name (λ q. ne (sym q)) l (ends m l) in
      rw (v, e) (find_slot-none (is_named name b) 0 128 absent m (omega arith) (omega arith))

  this : is_named name (set_entry b k inum name) k ≡ true
  unfolding is_named
  this =
      let first = find_slot-some (is_unused b) 0 128 k unused in
      let (v, i, e) = set_entry_lem b k inum name (omega (arith, first.in_range)) inum_fits chars in
      rw
        (
          v,
          e,
          take_all 26 name fits,
          take_all (4096 - (32 * k + 4)) name (omega (arith, first.in_range)),
        )
        (str_eq_refl name)

  this_ends : over_read (set_entry b k inum name) k ≡ false
  this_ends =
      let first = find_slot-some (is_unused b) 0 128 k unused in
      let (v, i, e) = set_entry_lem b k inum name (omega (arith, first.in_range)) inum_fits chars in
      let room : ltb (length name) (4096 - (32 * k + 4)) ≡ true =
        lt→ltb (length name) (4096 - (32 * k + 4)) (omega (arith, first.in_range)) in
      rw (v, e, take_all 26 name fits, room)

  pub found_in_block : find_slot (is_named name (set_entry b k inum name)) 0 128 ≡ some k
  found_in_block =
      let first = find_slot-some (is_unused b) 0 128 k unused in
      find_slot-IsFirst (is_named name (set_entry b k inum name)) 0 128 k (record {
        from = first.from;
        in_range = first.in_range;
        holds = this;
        first = λ m l lt. others m (omega (arith, first.in_range)) (omega arith);
      })

-- The hit after the write.
abbrev pub entered : Hit → ℕ → Name → Hit
entered h inum name = record h { block = set_entry h.block h.slot inum name }

-- A block with no unused entry is not the one in which an unused entry was found.
full_block_ne :
    (d : Device) (n : Inode) (i r lba : ℕ) (b : Block) (h : Hit)
    → Found is_unused d n i r h
    → block_read d lba ≡ ok b
    → find_slot (is_unused b) 0 128 ≡ none
    → lba ≢ h.lba
full_block_ne d n i r lba b h f e m same =
    let there = dir_block-ok d n f.index h.lba h.block f.block_there in
    let both : ok b ≡ ok h.block = sym e ∙ ap (block_read d) same ∙ there.2 in
    let same_b : h.block ≡ b = cc in
    let held = f.slot_first in
    let clash : false ≡ true =
      sym (find_slot-none (is_unused b) 0 128 m h.slot (omega arith) (omega (arith, held.in_range)))
      ∙ rw (← same_b) held.holds in
    cc

-- The round that reaches the block of the new entry.
insert_here :
    (d d' : Device) (n : Inode) (inum : ℕ) (name : Name) (i r lba : ℕ) (b : Block) (k : ℕ)
    → inum < 2 ^ 31
    → All IsChar name
    → length name ≤ 26
    → dir_block d n i ≡ ok (lba, b)
    → block_read d' lba ≡ ok (set_entry b k inum name)
    → ((m : ℕ) → m < 128 → IsTerminated b m)
    → find_slot (is_unused b) 0 128 ≡ some k
    → find_slot (is_named name b) 0 128 ≡ none
    → find_from (is_named name) d' n i (suc r)
      ≡ ok (some (record { lba = lba; block = set_entry b k inum name; slot = k }))
insert_here d d' n inum name i r lba b k inum_fits chars fits there written ends unused absent =
    let (in_array, at, read) = dir_block-ok d n i lba b there in
    let there' : dir_block d' n i ≡ ok (n.ptrs i, set_entry b k inum name) =
      dir_block-intro d' n i (set_entry b k inum name) in_array (ap (block_read d') at ∙ written) in
    rw (← at) (
      find_from-hit (is_named name) d' n i r (n.ptrs i) (set_entry b k inum name) k there'
        (found_in_block b k inum name inum_fits chars fits ends unused absent)
        (this_ends b k inum name inum_fits chars fits ends unused absent))

module _ (d d' : Device) (n : Inode) (h : Hit) (inum : ℕ) (name : Name) (inum_fits : inum < 2 ^ 31)
    (chars : All IsChar name) (fits : length name ≤ 26)
    (written : block_read d' h.lba ≡ ok (set_entry h.block h.slot inum name)) where
  -- The entry that was written into the first unused slot is the one that a search by name finds.
  pub find_from-insert :
      (i r : ℕ)
      → ((j : ℕ)
          → i ≤ j
          → j < i + r
          → n.ptrs j ≢ h.lba
          → block_read d' (n.ptrs j) ≡ block_read d (n.ptrs j))
      → ((j lba : ℕ) (b : Block)
          → i ≤ j
          → j < i + r
          → dir_block d n j ≡ ok (lba, b)
          → (m : ℕ) → m < 128
          → IsTerminated b m)
      → find_from is_unused d n i r ≡ ok (some h)
      → find_from (is_named name) d n i r ≡ ok none
      → find_from (is_named name) d' n i r ≡ ok (some (entered h inum name))
  unfolding find_from
  find_from-insert i zero same ends u a = cc
  find_from-insert i (suc r) same ends u a =
      let (lba, b, there, round) = find_from-Round is_unused d n i r (some h) u in
      let (in_array, at, read) = dir_block-ok d n i lba b there in
      let (absent, a') = miss_round (is_named name) d n i r lba b there a in
      elim round [
        | inl (k, m, q) ↦
            let hit : h ≡ record { lba = lba; block = b; slot = k } = cc in
            rw hit (
              insert_here d d' n inum name i r lba b k inum_fits chars fits there
                (rw hit at written) (ends i lba b (omega arith) (omega arith) there) m absent)
        | inr (m, u') ↦
            let other : n.ptrs i ≢ h.lba = λ e.
              full_block_ne d n (i + 1) r lba b h (find_from-Found is_unused d n (i + 1) r h u')
                read m (sym at ∙ e) in
            let there' : dir_block d' n i ≡ ok (n.ptrs i, b) =
              dir_block-intro d' n i b in_array
                (same i (omega arith) (omega arith) other ∙ ap (block_read d) at ∙ read) in
            find_from-miss (is_named name) d' n i r (n.ptrs i) b there' absent
            ∙ find_from-insert (i + 1) r (λ j l m. same j (omega arith) (omega arith))
                (λ j lba b l m. ends j lba b (omega arith) (omega arith)) u' a'
      ]
