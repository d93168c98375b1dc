-- ===== src/Create/Created.antt =====
-- fs_create where it succeeds.
use cs5600_project_3_file_sy.Common.{
  Bool, ℕ, ◌^◌, ◌≤◌, ◌<◌, ◌≡◌, ◌≢◌, inl, inr, refl, sym, ap, ◌∙◌, List, All, length, arith, false,
  none, some,
}
use cs5600_project_3_file_sy.Outcome.{ok, enospc}
use cs5600_project_3_file_sy.Disk.{Block, Device, block_read, block_write}
use cs5600_project_3_file_sy.Disk.Access.{
  block_write-Wrote, block_read-block_write_self, block_read-block_write_ne, store-block_write_self,
  store-block_write_ne, bad_read-block_write,
}
use cs5600_project_3_file_sy.Bitmap.{has_bit, with_bit, first_free}
use cs5600_project_3_file_sy.Bitmap.Free.{first_free_lem}
use cs5600_project_3_file_sy.Format.{Inode, encode_inode, set_entry}
use cs5600_project_3_file_sy.Format.Strings.{IsChar}
use cs5600_project_3_file_sy.Format.Entries.{set_entry_lem}
use cs5600_project_3_file_sy.Path.{Name}
use cs5600_project_3_file_sy.Dir.{Hit, hit_inode, find_in_dir, dir_blocks, is_named, is_unused}
use cs5600_project_3_file_sy.Dir.Insert.{entered}
use cs5600_project_3_file_sy.State.{State, Env, ◌>>=◌, ◌>>◌, clear_bit}
use cs5600_project_3_file_sy.State.Steps.{next}
use cs5600_project_3_file_sy.Create.{
  parent_dir, require_absent, take_block, write_or_undo, add_entry, new_file, fs_create,
}
use cs5600_project_3_file_sy.Create.Entry.{IsSound, entry_found, hit_index, slot_fits, used-ne_free}
use cs5600_project_3_file_sy.Create.Parts.{
  require_absent-then, take_block-then, taken, write_or_undo-then, add_entry-ok,
}

-- What a successful call has done.
pub record Created (env : Env) (mode : ℕ) (parent : Inode) (name : Name) (map : Block) (s t : State)
    : Type 0 where
  pub inum : ℕ
  pub inum_from : 2 ≤ inum
  pub inum_to : inum < s.super.disk_size
  pub was_free : has_bit map inum ≡ false
  pub was_absent : find_in_dir (is_named name) s.dev parent ≡ ok none
  pub marked : t.bitmap ≡ some (with_bit map inum)
  pub saved : t.dev.store 1 ≡ with_bit map inum
  pub inode_there : t.dev.store inum ≡ encode_inode (new_file env mode)
  pub hit : Hit
  pub found : find_in_dir (is_named name) t.dev parent ≡ ok (some hit)
  pub leads_there : hit_inode hit ≡ inum
  pub others :
      (k : ℕ)
      → k ≢ 1
      → k ≢ inum
      → ((j : ℕ) → j < dir_blocks parent.size → parent.ptrs j ≢ k)
      → k < s.dev.blocks
      → block_read t.dev k ≡ block_read s.dev k
  pub reads :
      s.dev.bad_read inum ≡ false → block_read t.dev inum ≡ ok (encode_inode (new_file env mode))
  pub grows : s.dev.blocks ≤ t.dev.blocks
  pub bad_read_same : t.dev.bad_read ≡ s.dev.bad_read
  pub super_same : t.super ≡ s.super

free_block :
    (map : Block) (disk_size i : ℕ)
    → disk_size ≤ 32768
    → first_free (some map) disk_size ≡ ok i
    → i ≢ 0
    → (2 ≤ i) × (i < disk_size) × (has_bit map i ≡ false)
free_block map disk_size i h e z =
    let (i', e', f) = first_free_lem map disk_size h in
    let same : ok i ≡ ok i' = sym e ∙ e' in
    let same_i : i' ≡ i = cc in
    rw (← same_i) (elim f [
      | inl (z', all) ↦ absurd (z (sym same_i ∙ z'))
      | inr (l, m, free, all) ↦ (l, m, free)
    ])

-- The three writes of a call, one after the other.
module _ (env : Env) (mode : ℕ) (s : State) (map : Block) (parent : Inode) (name : Name) (inum : ℕ)
    (d1 d2 d3 : Device) (h : Hit) (sound : IsSound s map parent) (inum_from : 2 ≤ inum)
    (inum_to : inum < 2 ^ 31) (free : has_bit map inum ≡ false) (chars : All IsChar name)
    (fits : length name ≤ 26) (w1 : block_write s.dev 1 (with_bit map inum) ≡ ok d1)
    (w2 : block_write d1 inum (encode_inode (new_file env mode)) ≡ ok d2)
    (w3 : block_write d2 h.lba (set_entry h.block h.slot inum name) ≡ ok d3)
    (absent : find_in_dir (is_named name) s.dev parent ≡ ok none)
    (unused : find_in_dir is_unused d2 parent ≡ ok (some h)) where
  apart_inum : (j : ℕ) → j < dir_blocks parent.size → parent.ptrs j ≢ inum
  apart_inum j l = used-ne_free map (parent.ptrs j) inum (sound.used j l) free

  grows_two : s.dev.blocks ≤ d2.blocks
  grows_two = omega (
    arith,
    (block_write-Wrote s.dev 1 (with_bit map inum) d1 w1).grows,
    (block_write-Wrote d1 inum (encode_inode (new_file env mode)) d2 w2).grows,
  )

  -- A block that is neither the bitmap nor the new inode is as it was before the entry is written.
  same_two : (k : ℕ) → k ≢ 1 → k ≢ inum → k < s.dev.blocks → block_read d2 k ≡ block_read s.dev k
  same_two k not_map not_inum l =
      block_read-block_write_ne d1 d2 inum k (encode_inode (new_file env mode)) w2 not_inum
        (omega (arith, (block_write-Wrote s.dev 1 (with_bit map inum) d1 w1).grows))
      ∙ block_read-block_write_ne s.dev d1 1 k (with_bit map inum) w1 not_map l

  same_dir :
      (j : ℕ)
      → j < dir_blocks parent.size
      → block_read d2 (parent.ptrs j) ≡ block_read s.dev (parent.ptrs j)
  same_dir j l =
      same_two (parent.ptrs j) (omega (arith, sound.apart j l)) (apart_inum j l) (sound.inside j l)

  there : (j : ℕ) × (j < dir_blocks parent.size) × (parent.ptrs j ≡ h.lba)
  there =
      hit_index s map parent name inum d2 d3 h sound inum_to chars fits same_dir grows_two w3 absent
        unused

  slot_there : h.slot < 128
  slot_there =
      slot_fits s map parent name inum d2 d3 h sound inum_to chars fits same_dir grows_two w3 absent
        unused

  found_after : find_in_dir (is_named name) d3 parent ≡ ok (some (entered h inum name))
  found_after =
      entry_found s map parent name inum d2 d3 h sound inum_to chars fits same_dir grows_two w3
        absent unused

  not_map : h.lba ≢ 1
  not_map e = omega (arith, sound.apart there.0 there.1, there.2, e)

  not_inum : h.lba ≢ inum
  not_inum e = apart_inum there.0 there.1 (there.2 ∙ e)

  bitmap_stored : d3.store 1 ≡ with_bit map inum
  bitmap_stored =
      let one = block_write-Wrote s.dev 1 (with_bit map inum) d1 w1 in
      store-block_write_ne d2 d3 h.lba 1 (set_entry h.block h.slot inum name) w3
        (λ q. not_map (sym q))
        (omega (
          arith,
          one.reaches,
          (block_write-Wrote d1 inum (encode_inode (new_file env mode)) d2 w2).grows,
        ))
      ∙ store-block_write_ne d1 d2 inum 1 (encode_inode (new_file env mode)) w2 (omega arith)
          (omega (arith, one.reaches))
      ∙ store-block_write_self s.dev d1 1 (with_bit map inum) w1

  inode_stored : d3.store inum ≡ encode_inode (new_file env mode)
  inode_stored =
      store-block_write_ne d2 d3 h.lba inum (set_entry h.block h.slot inum name) w3
        (λ q. not_inum (sym q))
        (omega
          (arith, (block_write-Wrote d1 inum (encode_inode (new_file env mode)) d2 w2).reaches))
      ∙ store-block_write_self d1 d2 inum (encode_inode (new_file env mode)) w2

  elsewhere :
      (k : ℕ)
      → k ≢ 1
      → k ≢ inum
      → ((j : ℕ) → j < dir_blocks parent.size → parent.ptrs j ≢ k)
      → k < s.dev.blocks
      → block_read d3 k ≡ block_read s.dev k
  elsewhere k a b c l =
      block_read-block_write_ne d2 d3 h.lba k (set_entry h.block h.slot inum name) w3
        (λ q. c there.0 there.1 (there.2 ∙ sym q)) (omega (arith, grows_two))
      ∙ same_two k a b l

  read_inum :
      s.dev.bad_read inum ≡ false → block_read d3 inum ≡ ok (encode_inode (new_file env mode))
  read_inum good =
      let inode = encode_inode (new_file env mode) in
      block_read-block_write_ne d2 d3 h.lba inum (set_entry h.block h.slot inum name) w3
        (λ q. not_inum (sym q)) (omega (arith, (block_write-Wrote d1 inum inode d2 w2).reaches))
      ∙ block_read-block_write_self d1 d2 inum inode w2 (
          ap (λ (f : ℕ → Bool). f inum) (bad_read-block_write s.dev d1 1 (with_bit map inum) w1)
          ∙ good)

  created :
      (t : State)
      → inum < s.super.disk_size
      → t ≡ record (taken s map inum d1) { dev = d3 }
      → Created env mode parent name map s t
  created t to last = rw last (record {
    inum = inum;
    inum_from = inum_from;
    inum_to = to;
    was_free = free;
    was_absent = absent;
    marked = refl;
    saved = bitmap_stored;
    inode_there = inode_stored;
    hit = entered h inum name;
    found = found_after;
    leads_there = (set_entry_lem h.block h.slot inum name slot_there inum_to chars).1;
    others = elsewhere;
    reads = read_inum;
    grows = omega (
      arith,
      grows_two,
      (block_write-Wrote d2 h.lba (set_entry h.block h.slot inum name) d3 w3).grows,
    );
    bad_read_same =
        bad_read-block_write d2 d3 h.lba (set_entry h.block h.slot inum name) w3
        ∙ bad_read-block_write d1 d2 inum (encode_inode (new_file env mode)) w2
        ∙ bad_read-block_write s.dev d1 1 (with_bit map inum) w1;
    super_same = refl;
  })

-- If fs_create succeeds in a sound directory, with a name of at most 26 bytes, on a disk that the
-- bitmap covers, the name was not in the directory and now is, with the number of a block that was
-- free; that block holds the new inode, and its bit is set in memory and on the disk.
pub fs_create-Created :
    (env : Env) (path : List ℕ) (mode : ℕ) (s t : State) (map : Block) (parent : Inode)
    (name : Name)
    → parent_dir path s ≡ (ok (parent, name), s)
    → s.bitmap ≡ some map
    → s.super.disk_size ≤ 32768
    → IsSound s map parent
    → All IsChar name
    → length name ≤ 26
    → fs_create env path mode s ≡ (ok tt, t)
    → Created env mode parent name map s t
unfolding fs_create
fs_create-Created env path mode s t map parent name p b disk sound chars fits h =
    let link = λ (inum : ℕ). add_entry parent name inum enospc in
    let store = λ (inum : ℕ).
      write_or_undo inum (encode_inode (new_file env mode)) (clear_bit inum) >> link inum in
    let rest = λ (r : Inode × Name).
      require_absent r.0 r.1
      >> (take_block >>= λ inum.
          write_or_undo inum (encode_inode (new_file env mode)) (clear_bit inum)
          >> add_entry r.0 r.1 inum enospc) in
    let h0 : rest (parent, name) s ≡ (ok tt, t) = ap (next rest) (sym p) ∙ h in
    let (absent, h1) = require_absent-then parent name (take_block >>= store) s h0 in
    let (i, d1, found, z, w1, h2) = take_block-then map store s b h1 in
    let (d2, w2, h3) =
      write_or_undo-then i (encode_inode (new_file env mode)) (clear_bit i) (link i)
        (taken s map i d1) h2 in
    let mid : State = record (taken s map i d1) { dev = d2 } in
    let (hit, d3, unused, w3, last) = add_entry-ok parent name i enospc mid t h3 in
    let (from, to, free) = free_block map s.super.disk_size i disk found z in
    let small : i < 2 ^ 31 = omega arith in
    created env mode s map parent name i d1 d2 d3 hit sound from small free chars fits w1 w2 w3
      absent unused t to last
