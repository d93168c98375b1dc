-- ===== src/Remove/Unlinked.antt =====
-- fs_unlink where nothing stops it.
use cs5600_project_3_file_sy.Common.{
  ℕ, ◌≤◌, ◌<◌, ◌≡◌, ◌≢◌, refl, ap, ◌∙◌, List, arith, false, not, ◌&&◌, some, none, ◌==◌,
}
use cs5600_project_3_file_sy.Outcome.{ok, eisdir}
use cs5600_project_3_file_sy.Disk.{Block, Device}
use cs5600_project_3_file_sy.Disk.Access.{
  store-block_write_self, store-block_write_ne, block_read-block_write_ne,
  block_read-block_write_self, readable,
}
use cs5600_project_3_file_sy.Bitmap.{has_bit, without_bit}
use cs5600_project_3_file_sy.Bitmap.Bits.{has_bit-without_bit}
use cs5600_project_3_file_sy.Format.{Inode, is_dir, clear_entry}
use cs5600_project_3_file_sy.Path.{Name}
use cs5600_project_3_file_sy.Dir.{Hit, find_in_dir, dir_blocks, is_named}
use cs5600_project_3_file_sy.Dir.Erase.{IsOnly, find_in_dir-erased}
use cs5600_project_3_file_sy.Translate.{translate}
use cs5600_project_3_file_sy.State.{State, ◌>>=◌, ◌>>◌, require, clear_bit, save_bitmap}
use cs5600_project_3_file_sy.State.Runs.{
  bind-to, reads-to, require-to, put, IsWritable, block_write-put, write_block-to, clear_bit-to,
  save_bitmap-to,
}
use cs5600_project_3_file_sy.Create.{parent_dir}
use cs5600_project_3_file_sy.Remove.{
  file_blocks, release_blocks, erase_entry, remove_entry, fs_unlink,
}
use cs5600_project_3_file_sy.Remove.Blocks.{owns, release_blocks-to}

-- The name is not in the directory any more; the file's blocks and its inode are free, in memory and
-- on the disk; beside the bitmap and the block of the entry the image is as it was.
pub record Unlinked (inum : ℕ) (n parent : Inode) (name : Name) (h : Hit) (map : Block)
    (s t : State) : Type 0 where
  pub name_gone : find_in_dir (is_named name) t.dev parent ≡ ok none
  pub map_after : Block
  pub marked : t.bitmap ≡ some map_after
  pub saved : t.dev.store 1 ≡ map_after
  pub bits :
      (k : ℕ)
      → has_bit map_after k
        ≡ (not (inum == k) && (not (owns n 0 (file_blocks n.size) k) && has_bit map k))
  pub others : (k : ℕ) → k ≢ 1 → k ≢ h.lba → k < s.dev.blocks → t.dev.store k ≡ s.dev.store k
  pub super_same : t.super ≡ s.super
  pub grows : s.dev.blocks ≤ t.dev.blocks
  pub bad_read_same : t.dev.bad_read ≡ s.dev.bad_read

pub remove_entry-to :
    (parent : Inode) (name : Name) (h : Hit) (s : State)
    → find_in_dir (is_named name) s.dev parent ≡ ok (some h)
    → IsWritable s.dev h.lba
    → remove_entry parent name s
      ≡ (ok tt, record s { dev = put s.dev h.lba (clear_entry h.block h.slot) })
unfolding remove_entry
remove_entry-to parent name h s e w =
    reads-to (λ s. find_in_dir (is_named name) s.dev parent) erase_entry s (some h) e
    ∙ write_block-to h.lba (clear_entry h.block h.slot) s w

-- The two writes: the entry, and then the bitmap.
module _ (d : Device) (parent : Inode) (name : Name) (h : Hit) (map : Block)
    (only : IsOnly d parent name h) (entry_ok : IsWritable d h.lba) (map_ok : IsWritable d 1)
    (apart : (j : ℕ) → j < dir_blocks parent.size → parent.ptrs j ≢ 1)
    (entry_apart : h.lba ≢ 1) where
  abbrev erased : Device
  erased = put d h.lba (clear_entry h.block h.slot)

  abbrev ended : Device
  ended = put erased 1 map

  pub map_ok_after : IsWritable erased 1
  map_ok_after = record {
    positive = map_ok.positive;
    addressable = map_ok.addressable;
    good = map_ok.good;
  }

  inside : (j : ℕ) → j < dir_blocks parent.size → parent.ptrs j < d.blocks
  inside j l = (readable d (parent.ptrs j) (only.blocks j) (only.readable j l)).0

  pub name_gone : find_in_dir (is_named name) ended parent ≡ ok none
  name_gone =
      let w1 = block_write-put d h.lba (clear_entry h.block h.slot) entry_ok in
      let w2 = block_write-put erased 1 map map_ok_after in
      let (here, good) = readable d h.lba h.block only.hit_there in
      find_in_dir-erased d ended parent name h only
        (λ j l ne.
          block_read-block_write_ne erased ended 1 (parent.ptrs j) map w2 (apart j l)
            (omega (arith, inside j l))
          ∙ block_read-block_write_ne d erased h.lba (parent.ptrs j) (clear_entry h.block h.slot) w1
              ne (inside j l))
        (block_read-block_write_ne erased ended 1 h.lba map w2 entry_apart (omega arith)
          ∙ block_read-block_write_self d erased h.lba (clear_entry h.block h.slot) w1 good)

  pub map_saved : ended.store 1 ≡ map
  map_saved = store-block_write_self erased ended 1 map (block_write-put erased 1 map map_ok_after)

  pub others_same : (k : ℕ) → k ≢ 1 → k ≢ h.lba → k < d.blocks → ended.store k ≡ d.store k
  others_same k a c l =
      store-block_write_ne erased ended 1 k map (block_write-put erased 1 map map_ok_after) a
        (omega arith)
      ∙ store-block_write_ne d erased h.lba k (clear_entry h.block h.slot)
          (block_write-put d h.lba (clear_entry h.block h.slot) entry_ok) c l

-- Of a file whose block numbers all have a bit, whose entry is the only one with its name in a
-- directory that can be read, and where the block of the entry and the bitmap block can be written,
-- fs_unlink succeeds: the name is not in the directory any more, and the bits of the file's blocks
-- and of its inode are clear, and no other bit changes, in memory and on the disk.
pub fs_unlink-runs :
    (path : List ℕ) (inum : ℕ) (n parent : Inode) (name : Name) (h : Hit) (map : Block) (s : State)
    → translate s.dev path ≡ ok (inum, n)
    → is_dir n.mode ≡ false
    → parent_dir path s ≡ (ok (parent, name), s)
    → find_in_dir (is_named name) s.dev parent ≡ ok (some h)
    → IsOnly s.dev parent name h
    → s.bitmap ≡ some map
    → file_blocks n.size ≤ 1019
    → ((j : ℕ) → j < file_blocks n.size → n.ptrs j < 32768)
    → inum < 32768
    → IsWritable s.dev h.lba
    → IsWritable s.dev 1
    → ((j : ℕ) → j < dir_blocks parent.size → parent.ptrs j ≢ 1)
    → h.lba ≢ 1
    → (t : State) × (fs_unlink path s ≡ (ok tt, t)) × Unlinked inum n parent name h map s t
unfolding fs_unlink
fs_unlink-runs path inum n parent name h map s e file p found only b few small inum_small entry_ok
      map_ok apart entry_apart =
    let s1 : State = record s { dev = put s.dev h.lba (clear_entry h.block h.slot) } in
    let (map2, freed, bits) =
      release_blocks-to n 0 (file_blocks n.size) map s1 b (omega arith)
        (λ j l m. small j (omega arith)) in
    let s2 : State = record s1 { bitmap = some map2 } in
    let map3 = without_bit map2 inum in
    let s3 : State = record s1 { bitmap = some map3 } in
    let saves =
      save_bitmap-to map3 s3 refl
        (map_ok_after s.dev parent name h map3 only entry_ok map_ok apart entry_apart) in
    let t : State = record s3 { dev = put s1.dev 1 map3 } in
    let clear = λ (r : ℕ × Inode). clear_bit r.0 >> save_bitmap in
    let free = λ (r : ℕ × Inode). release_blocks r.1 0 (file_blocks r.1.size) >> clear r in
    let take_out = λ (r : ℕ × Inode) (q : Inode × Name). remove_entry q.0 q.1 >> free r in
    let in_parent = λ (r : ℕ × Inode). parent_dir path >>= take_out r in
    let guard = λ (r : ℕ × Inode). require (not (is_dir r.1.mode)) eisdir >> in_parent r in
    (
      t,
      reads-to (λ s. translate s.dev path) guard s (inum, n) e
          ∙ require-to (not (is_dir n.mode)) eisdir (in_parent (inum, n)) s (ap not file)
          ∙ bind-to (parent_dir path) (take_out (inum, n)) s s (parent, name) p
          ∙ bind-to (remove_entry parent name) (λ _. free (inum, n)) s s1 tt
              (remove_entry-to parent name h s found entry_ok)
          ∙ bind-to (release_blocks n 0 (file_blocks n.size)) (λ _. clear (inum, n)) s1 s2 tt freed
          ∙ bind-to (clear_bit inum) (λ _. save_bitmap) s2 s3 tt
              (clear_bit-to inum map2 s2 refl inum_small)
          ∙ saves,
      record {
        name_gone = name_gone s.dev parent name h map3 only entry_ok map_ok apart entry_apart;
        map_after = map3;
        marked = refl;
        saved = map_saved s.dev parent name h map3 only entry_ok map_ok apart entry_apart;
        bits = λ k. has_bit-without_bit map2 inum k ∙ ap (λ c. not (inum == k) && c) (bits k);
        others = others_same s.dev parent name h map3 only entry_ok map_ok apart entry_apart;
        super_same = refl;
        grows = omega arith;
        bad_read_same = refl;
      },
    )
