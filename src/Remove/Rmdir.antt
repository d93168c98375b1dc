-- ===== src/Remove/Rmdir.antt =====
-- fs_rmdir: the refusal, and the run that nothing stops.
use cs5600_project_3_file_sy.Common.{
  ℕ, ◌<◌, ◌≡◌, ◌≢◌, inl, inr, refl, sym, ap, ◌∙◌, List, arith, true, false, not, ◌&&◌, Option-cases,
  some, none, ◌==◌,
}
use cs5600_project_3_file_sy.Outcome.{ok, err, enotdir, enotempty}
use cs5600_project_3_file_sy.Disk.{Block, block_read}
use cs5600_project_3_file_sy.Bitmap.{has_bit, without_bit}
use cs5600_project_3_file_sy.Bitmap.Bits.{has_bit-without_bit}
use cs5600_project_3_file_sy.Format.{Inode, is_dir, clear_entry, entry_valid}
use cs5600_project_3_file_sy.Path.{Name}
use cs5600_project_3_file_sy.Dir.{Hit, find_in_dir, find_slot, dir_blocks, is_named}
use cs5600_project_3_file_sy.Dir.Slots.{find_slot-none, find_slot-none_intro}
use cs5600_project_3_file_sy.Dir.Erase.{IsOnly}
use cs5600_project_3_file_sy.Translate.{translate}
use cs5600_project_3_file_sy.State.{State, ◌>>=◌, ◌>>◌, reads, require, clear_bit, save_bitmap}
use cs5600_project_3_file_sy.State.Runs.{
  bind-to, reads-to, require-to, put, IsWritable, clear_bit-to, save_bitmap-to,
}
use cs5600_project_3_file_sy.Create.{parent_dir}
use cs5600_project_3_file_sy.Remove.{has_entry, remove_entry, fs_rmdir}
use cs5600_project_3_file_sy.Remove.Unlinked.{
  remove_entry-to, map_ok_after, name_gone, map_saved, others_same,
}

-- The name is not in the parent any more; the directory's first block and its inode are free, in
-- memory and on the disk; beside the bitmap and the block of the entry the image is as it was.
pub record Rmdired (inum : ℕ) (n parent : Inode) (name : Name) (h : Hit) (map : Block) (s t : State)
    : Type 0 where
  pub name_gone : find_in_dir (is_named name) t.dev parent ≡ ok none
  pub map_after : Block
  pub marked : t.bitmap ≡ some map_after
  pub saved : t.dev.store 1 ≡ map_after
  pub bits :
      (k : ℕ) → has_bit map_after k ≡ (not (inum == k) && (not (n.ptrs 0 == k) && has_bit map k))
  pub others : (k : ℕ) → k ≢ 1 → k ≢ h.lba → k < s.dev.blocks → t.dev.store k ≡ s.dev.store k
  pub super_same : t.super ≡ s.super

has_entry-none : (b : Block) → ((k : ℕ) → k < 128 → entry_valid b k ≡ false) → has_entry b ≡ false
unfolding has_entry
has_entry-none b h =
    rw (find_slot-none_intro (entry_valid b) 0 128 (λ k l m. h k (omega arith)), has_entry)

has_entry-some : (b : Block) (k : ℕ) → k < 128 → entry_valid b k ≡ true → has_entry b ≡ true
unfolding has_entry
has_entry-some b k l v = elim (Option-cases (find_slot (entry_valid b) 0 128)) [
  | inl e ↦
      let clash : true ≡ false =
        sym v ∙ find_slot-none (entry_valid b) 0 128 e k (omega arith) (omega arith) in
      cc
  | inr (j, e) ↦ rw (e, has_entry)
]

-- Where the first block of the directory has a valid entry, fs_rmdir returns -ENOTEMPTY and changes
-- nothing.
pub fs_rmdir-enotempty :
    (path : List ℕ) (inum k : ℕ) (n : Inode) (b : Block) (s : State)
    → translate s.dev path ≡ ok (inum, n)
    → is_dir n.mode ≡ true
    → block_read s.dev (n.ptrs 0) ≡ ok b
    → k < 128
    → entry_valid b k ≡ true
    → fs_rmdir path s ≡ (err enotempty, s)
unfolding fs_rmdir
fs_rmdir-enotempty path inum k n b s e dir read l v =
    let finish = λ (r : ℕ × Inode). clear_bit (r.1.ptrs 0) >> (clear_bit r.0 >> save_bitmap) in
    let take_out = λ (r : ℕ × Inode) (q : Inode × Name). remove_entry q.0 q.1 >> finish r in
    let in_parent = λ (r : ℕ × Inode). parent_dir path >>= take_out r in
    let empty =
      λ (r : ℕ × Inode) (b : Block). require (not (has_entry b)) enotempty >> in_parent r in
    let look = λ (r : ℕ × Inode). reads (λ s. block_read s.dev (r.1.ptrs 0)) >>= empty r in
    reads-to (λ s. translate s.dev path) (λ r. require (is_dir r.1.mode) enotdir >> look r) s
      (inum, n) e
    ∙ require-to (is_dir n.mode) enotdir (look (inum, n)) s dir
    ∙ reads-to (λ s. block_read s.dev (n.ptrs 0)) (empty (inum, n)) s b read
    ∙ ap (λ c. (require (not c) enotempty >> in_parent (inum, n)) s) (has_entry-some b k l v)

-- Of a directory whose first block has no valid entry, whose entry is the only one with its name in a
-- parent that can be read, and where the block of the entry and the bitmap block can be written,
-- fs_rmdir succeeds: the name is not in the parent any more, and the bits of the directory's first
-- block and of its inode are clear, and no other bit changes, in memory and on the disk.
pub fs_rmdir-runs :
    (path : List ℕ) (inum : ℕ) (n parent : Inode) (name : Name) (h : Hit) (b map : Block)
    (s : State)
    → translate s.dev path ≡ ok (inum, n)
    → is_dir n.mode ≡ true
    → block_read s.dev (n.ptrs 0) ≡ ok b
    → ((k : ℕ) → k < 128 → entry_valid b k ≡ false)
    → parent_dir path s ≡ (ok (parent, name), s)
    → find_in_dir (is_named name) s.dev parent ≡ ok (some h)
    → IsOnly s.dev parent name h
    → s.bitmap ≡ some map
    → n.ptrs 0 < 32768
    → inum < 32768
    → IsWritable s.dev h.lba
    → IsWritable s.dev 1
    → ((j : ℕ) → j < dir_blocks parent.size → parent.ptrs j ≢ 1)
    → h.lba ≢ 1
    → (t : State) × (fs_rmdir path s ≡ (ok tt, t)) × Rmdired inum n parent name h map s t
unfolding fs_rmdir
fs_rmdir-runs path inum n parent name h b map s e dir read none_valid p found only m small
      inum_small entry_ok map_ok apart entry_apart =
    let s1 : State = record s { dev = put s.dev h.lba (clear_entry h.block h.slot) } in
    let map2 = without_bit map (n.ptrs 0) in
    let s2 : State = record s1 { bitmap = some map2 } in
    let map3 = without_bit map2 inum in
    let s3 : State = record s1 { bitmap = some map3 } in
    let saves =
      save_bitmap-to map3 s3 refl
        (map_ok_after s.dev parent name h map3 only entry_ok map_ok apart entry_apart) in
    let t : State = record s3 { dev = put s1.dev 1 map3 } in
    let last = λ (r : ℕ × Inode). clear_bit r.0 >> save_bitmap in
    let finish = λ (r : ℕ × Inode). clear_bit (r.1.ptrs 0) >> last r in
    let take_out = λ (r : ℕ × Inode) (q : Inode × Name). remove_entry q.0 q.1 >> finish r in
    let in_parent = λ (r : ℕ × Inode). parent_dir path >>= take_out r in
    let empty =
      λ (r : ℕ × Inode) (b : Block). require (not (has_entry b)) enotempty >> in_parent r in
    let look = λ (r : ℕ × Inode). reads (λ s. block_read s.dev (r.1.ptrs 0)) >>= empty r in
    (
      t,
      reads-to (λ s. translate s.dev path) (λ r. require (is_dir r.1.mode) enotdir >> look r) s
            (inum, n) e
          ∙ require-to (is_dir n.mode) enotdir (look (inum, n)) s dir
          ∙ reads-to (λ s. block_read s.dev (n.ptrs 0)) (empty (inum, n)) s b read
          ∙ require-to (not (has_entry b)) enotempty (in_parent (inum, n)) s
              (ap not (has_entry-none b none_valid))
          ∙ bind-to (parent_dir path) (take_out (inum, n)) s s (parent, name) p
          ∙ bind-to (remove_entry parent name) (λ _. finish (inum, n)) s s1 tt
              (remove_entry-to parent name h s found entry_ok)
          ∙ bind-to (clear_bit (n.ptrs 0)) (λ _. last (inum, n)) s1 s2 tt
              (clear_bit-to (n.ptrs 0) map s1 m small)
          ∙ bind-to (clear_bit inum) (λ _. save_bitmap) s2 s3 tt
              (clear_bit-to inum map2 s2 refl inum_small)
          ∙ saves,
      record {
        name_gone = name_gone s.dev parent name h map3 only entry_ok map_ok apart entry_apart;
        map_after = map3;
        marked = refl;
        saved = map_saved s.dev parent name h map3 only entry_ok map_ok apart entry_apart;
        bits = λ k.
            has_bit-without_bit map2 inum k
            ∙ ap (λ c. not (inum == k) && c) (has_bit-without_bit map (n.ptrs 0) k);
        others = others_same s.dev parent name h map3 only entry_ok map_ok apart entry_apart;
        super_same = refl;
      },
    )
