-- ===== src/Attr/Truncated.antt =====
-- fs_truncate to length 0.
use cs5600_project_3_file_sy.Common.{
  ℕ, ◌≤◌, ◌<◌, ◌≡◌, ◌≢◌, refl, ap, ◌∙◌, List, arith, false, not, true, ◌&&◌, some, ◌==◌, ◌-◌, ◌^◌,
  ==_ne, lt→ltb,
}
use cs5600_project_3_file_sy.Outcome.{ok, err, eio, eisdir, einval}
use cs5600_project_3_file_sy.Disk.{Block, block_write}
use cs5600_project_3_file_sy.Disk.Access.{
  block_write-Wrote, store-block_write_self, store-block_write_ne,
}
use cs5600_project_3_file_sy.Bitmap.{has_bit}
use cs5600_project_3_file_sy.Format.{Inode, encode_inode, is_dir}
use cs5600_project_3_file_sy.Translate.{translate}
use cs5600_project_3_file_sy.State.{
  State, Env, ◌>>=◌, ◌>>◌, reads, require, write_block, save_bitmap,
}
use cs5600_project_3_file_sy.State.Runs.{
  bind-to, bind-fails, reads-to, require-to, put, IsWritable, block_write-put, write_block-to,
  save_bitmap-to,
}
use cs5600_project_3_file_sy.Remove.{file_blocks, release_blocks}
use cs5600_project_3_file_sy.Remove.Blocks.{owns, release_blocks-to}
use cs5600_project_3_file_sy.Attr.{emptied, fs_truncate}

-- The file has no contents, its blocks have no bit in the bitmap, in memory and on the disk, and the
-- rest of the image and the bitmap is as it was.
pub record Truncated (env : Env) (inum : ℕ) (n : Inode) (map : Block) (s t : State) : Type 0 where
  pub map_after : Block
  pub marked : t.bitmap ≡ some map_after
  pub saved : t.dev.store 1 ≡ map_after
  pub bits :
      (k : ℕ) → has_bit map_after k ≡ (not (owns n 0 (file_blocks n.size) k) && has_bit map k)
  pub inode_there : t.dev.store inum ≡ encode_inode (emptied env n)
  pub others : (k : ℕ) → k ≢ 1 → k ≢ inum → k < s.dev.blocks → t.dev.store k ≡ s.dev.store k
  pub super_same : t.super ≡ s.super
  pub grows : s.dev.blocks ≤ t.dev.blocks
  pub bad_read_same : t.dev.bad_read ≡ s.dev.bad_read

-- Of a file whose block numbers all have a bit, where its inode and the bitmap block can be written,
-- fs_truncate to 0 succeeds: the inode has no blocks and size 0, and exactly the file's blocks are
-- free that were not before, in memory and on the disk.
pub fs_truncate-runs :
    (env : Env) (path : List ℕ) (inum : ℕ) (n : Inode) (map : Block) (s : State)
    → translate s.dev path ≡ ok (inum, n)
    → is_dir n.mode ≡ false
    → s.bitmap ≡ some map
    → file_blocks n.size ≤ 1019
    → ((j : ℕ) → j < file_blocks n.size → n.ptrs j < 32768)
    → IsWritable s.dev 1
    → IsWritable s.dev inum
    → inum ≢ 1
    → (t : State) × (fs_truncate env path 0 s ≡ (ok tt, t)) × Truncated env inum n map s t
unfolding fs_truncate
fs_truncate-runs env path inum n map s e file b few small map_ok inode_ok ne =
    let (map', freed, bits) =
      release_blocks-to n 0 (file_blocks n.size) map s b (omega arith)
        (λ j l m. small j (omega arith)) in
    let u : State = record s { bitmap = some map' } in
    let inode = encode_inode (emptied env n) in
    let d1 = put s.dev inum inode in
    let w1 = block_write-put s.dev inum inode inode_ok in
    let v : State = record u { dev = d1 } in
    let map_ok' : IsWritable d1 1 = record {
      positive = map_ok.positive;
      addressable = map_ok.addressable;
      good = map_ok.good;
    } in
    let w2 = block_write-put d1 1 map' map_ok' in
    let t : State = record v { dev = put d1 1 map' } in
    let finish =
      λ (r : ℕ × Inode). write_block r.0 (encode_inode (emptied env r.1)) >> save_bitmap in
    let free = λ (r : ℕ × Inode). release_blocks r.1 0 (file_blocks r.1.size) >> finish r in
    let guard = λ (r : ℕ × Inode). require (not (is_dir r.1.mode)) eisdir >> free r in
    (
      t,
      require-to (0 == 0) einval (reads (λ s. translate s.dev path) >>= guard) s refl
          ∙ reads-to (λ s. translate s.dev path) guard s (inum, n) e
          ∙ require-to (not (is_dir n.mode)) eisdir (free (inum, n)) s (ap not file)
          ∙ bind-to (release_blocks n 0 (file_blocks n.size)) (λ _. finish (inum, n)) s u tt freed
          ∙ bind-to (write_block inum inode) (λ _. save_bitmap) u v tt
              (write_block-to inum inode u inode_ok)
          ∙ save_bitmap-to map' v refl map_ok',
      record {
        map_after = map';
        marked = refl;
        saved = store-block_write_self d1 t.dev 1 map' w2;
        bits = bits;
        inode_there =
            store-block_write_ne d1 t.dev 1 inum map' w2 ne
              (block_write-Wrote s.dev inum inode d1 w1).reaches
            ∙ store-block_write_self s.dev d1 inum inode w1;
        others = λ k a c l.
            store-block_write_ne d1 t.dev 1 k map' w2 a
              (omega (arith, (block_write-Wrote s.dev inum inode d1 w1).grows))
            ∙ store-block_write_ne s.dev d1 inum k inode w1 c l;
        super_same = refl;
        grows = omega arith;
        bad_read_same = refl;
      },
    )

-- Of a file whose block numbers all have a bit, where the write of its inode fails, fs_truncate to 0
-- returns -EIO and does not touch the image, but in memory the file's blocks are free, and only they
-- are that were not before: the file on the disk still has them.
pub fs_truncate-eio :
    (env : Env) (path : List ℕ) (inum : ℕ) (n : Inode) (map : Block) (s : State)
    → translate s.dev path ≡ ok (inum, n)
    → is_dir n.mode ≡ false
    → s.bitmap ≡ some map
    → file_blocks n.size ≤ 1019
    → ((j : ℕ) → j < file_blocks n.size → n.ptrs j < 32768)
    → 0 < inum
    → inum < 2 ^ 19 - 1
    → s.dev.bad_write inum ≡ true
    → (map' : Block) × (fs_truncate env path 0 s ≡ (err eio, record s { bitmap = some map' }))
      × ((k : ℕ) → has_bit map' k ≡ (not (owns n 0 (file_blocks n.size) k) && has_bit map k))
unfolding fs_truncate write_block block_write
fs_truncate-eio env path inum n map s e file b few small from to bad =
    let (map', freed, bits) =
      release_blocks-to n 0 (file_blocks n.size) map s b (omega arith)
        (λ j l m. small j (omega arith)) in
    let u : State = record s { bitmap = some map' } in
    let inode = encode_inode (emptied env n) in
    let refused : write_block inum inode u ≡ (err eio, u) =
      rw (==_ne inum 0 (omega arith), lt→ltb inum (2 ^ 19 - 1) to, bad) in
    let finish =
      λ (r : ℕ × Inode). write_block r.0 (encode_inode (emptied env r.1)) >> save_bitmap in
    let free = λ (r : ℕ × Inode). release_blocks r.1 0 (file_blocks r.1.size) >> finish r in
    let guard = λ (r : ℕ × Inode). require (not (is_dir r.1.mode)) eisdir >> free r in
    (
      map',
      require-to (0 == 0) einval (reads (λ s. translate s.dev path) >>= guard) s refl
          ∙ reads-to (λ s. translate s.dev path) guard s (inum, n) e
          ∙ require-to (not (is_dir n.mode)) eisdir (free (inum, n)) s (ap not file)
          ∙ bind-to (release_blocks n 0 (file_blocks n.size)) (λ _. finish (inum, n)) s u tt freed
          ∙ bind-fails (write_block inum inode) (λ _. save_bitmap) u u eio refused,
      bits,
    )
