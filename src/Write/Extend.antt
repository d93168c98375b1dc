-- ===== src/Write/Extend.antt =====
-- What fs_write needs of a file and of the free blocks to add some, and what it has done then.
use cs5600_project_3_file_sy.Common.{
  ℕ, ◌+◌, ◌-◌, ◌/◌, ◌≤◌, ◌<◌, ◌≡◌, ◌≢◌, sym, ap, ◌∙◌, List, arith, true, false, length, some,
  dec_lt,
}
use cs5600_project_3_file_sy.Disk.{Block}
use cs5600_project_3_file_sy.Bitmap.{has_bit}
use cs5600_project_3_file_sy.Format.{Inode, encode_inode}
use cs5600_project_3_file_sy.State.{State, Env}
use cs5600_project_3_file_sy.State.Runs.{IsWritable}
use cs5600_project_3_file_sy.Write.{resized}
use cs5600_project_3_file_sy.Write.Loop.{file_byte, Separate}
use cs5600_project_3_file_sy.Write.Done.{overwritten}
use cs5600_project_3_file_sy.Write.Runs.{Ready}
use cs5600_project_3_file_sy.Write.Grow.{Grown}

-- The file of inode `n` on a sound image: its `m` blocks and its inode are in use, different from one
-- another and from the bitmap block, and can be read and written.
pub record IsFile (inum m : ℕ) (n : Inode) (map : Block) (s : State) : Type 0 where
  pub ready : Ready m n s
  pub separate : Separate m s n
  pub used : (j : ℕ) → j < m → has_bit map (n.ptrs j) ≡ true
  pub inode_used : has_bit map inum ≡ true
  pub inode_writable : IsWritable s.dev inum
  pub apart : (j : ℕ) → j < m → n.ptrs j ≢ inum
  pub apart_map : (j : ℕ) → j < m → n.ptrs j ≢ 1
  pub inode_apart : inum ≢ 1

-- The bitmap is in memory and covers the disk, its block can be written, and the free blocks are on
-- the image and can be read and written.
pub record IsStorage (map : Block) (s : State) : Type 0 where
  pub loaded : s.bitmap ≡ some map
  pub covered : s.super.disk_size ≤ 32768
  pub map_writable : IsWritable s.dev 1
  pub free_inside :
      (k : ℕ) → 2 ≤ k → k < s.super.disk_size → has_bit map k ≡ false → k < s.dev.blocks
  pub free_readable :
      (k : ℕ) → 2 ≤ k → k < s.super.disk_size → has_bit map k ≡ false → s.dev.bad_read k ≡ false
  pub free_writable :
      (k : ℕ) → 2 ≤ k → k < s.super.disk_size → has_bit map k ≡ false → IsWritable s.dev k

-- What the write has done: the file has `m` blocks, the first `m0` of which it had before.
pub record Extended (env : Env) (inum offset m0 m : ℕ) (n : Inode) (buf : List ℕ) (map : Block)
    (s t : State) : Type 0 where
  pub file : Inode
  pub map_after : Block
  pub grown : Grown n file m0 (m - m0) map map_after s.super.disk_size
  pub ready : Ready m file s
  pub contents :
      (p : ℕ) → p / 4096 < m → file_byte t file p ≡ overwritten s file offset (length buf) buf p
  pub inode : t.dev.store inum ≡ encode_inode (resized env (offset + length buf) file)
  pub marked : t.bitmap ≡ some map_after
  pub saved : m0 < m → t.dev.store 1 ≡ map_after
  pub kept : m0 ≡ m → 1 < s.dev.blocks → t.dev.store 1 ≡ s.dev.store 1
  pub others :
      (lba : ℕ)
      → lba < s.dev.blocks
      → lba ≢ 1
      → lba ≢ inum
      → ((j : ℕ) → j < m → file.ptrs j ≢ lba)
      → t.dev.store lba ≡ s.dev.store lba
  pub grows : s.dev.blocks ≤ t.dev.blocks
  pub bad_read_same : t.dev.bad_read ≡ s.dev.bad_read
  pub super_same : t.super ≡ s.super

used_free_ne : (map : Block) (i j : ℕ) → has_bit map i ≡ true → has_bit map j ≡ false → i ≢ j
used_free_ne map i j u f e = let clash : true ≡ false = sym u ∙ ap (has_bit map) e ∙ f in cc

-- The grown file is one, too.
module _ (inum m0 m : ℕ) (n g : Inode) (map map' : Block) (s : State)
    (file : IsFile inum m0 n map s) (storage : IsStorage map s) (more : m0 ≤ m) (few : m ≤ 1019)
    (grown : Grown n g m0 (m - m0) map map' s.super.disk_size) where
  -- An item is one of the old ones, or a block that was free.
  each :
      (P : ℕ → Type 0)
      → ((j : ℕ) → j < m0 → P (n.ptrs j))
      → ((k : ℕ) → 2 ≤ k → k < s.super.disk_size → has_bit map k ≡ false → P k)
      → (j : ℕ) → j < m
      → P (g.ptrs j)
  each P old new j l = elim (dec_lt j m0) [
    | yes a ↦ rw (grown.before j a) (old j a)
    | no a ↦ let (x, y, z) = grown.fresh j (omega arith) (omega arith) in new (g.ptrs j) x y z
  ]

  pub grown-Ready : Ready m g s
  grown-Ready = record {
    in_array = few;
    inside = each (λ k. k < s.dev.blocks) file.ready.inside storage.free_inside;
    readable = each (λ k. s.dev.bad_read k ≡ false) file.ready.readable storage.free_readable;
    writable = each (λ k. IsWritable s.dev k) file.ready.writable storage.free_writable;
  }

  pub grown_apart : (j : ℕ) → j < m → g.ptrs j ≢ inum
  grown_apart =
      each (λ k. k ≢ inum) file.apart
        (λ k x y z e. used_free_ne map inum k file.inode_used z (sym e))

  pub grown_apart_map : (j : ℕ) → j < m → g.ptrs j ≢ 1
  grown_apart_map = each (λ k. k ≢ 1) file.apart_map (λ k x y z. omega arith)

  differ : (j k : ℕ) → j < k → k < m → g.ptrs j ≢ g.ptrs k
  differ j k l h e = elim (dec_lt k m0) [
    | yes a ↦
        let same : j ≡ k =
          file.separate.different j k (omega arith) a
            (sym (grown.before j (omega arith)) ∙ e ∙ grown.before k a) in
        omega arith
    | no a ↦ elim (dec_lt j m0) [
      | yes b ↦
          let (x, y, z) = grown.fresh k (omega arith) (omega arith) in
          used_free_ne map (n.ptrs j) (g.ptrs k) (file.used j b) z (sym (grown.before j b) ∙ e)
      | no b ↦ grown.distinct j k (omega arith) l (omega arith) e
    ]
  ]

  pub grown-Separate : Separate m s g
  grown-Separate = record {
    inside = grown-Ready.inside;
    different = λ j k l h e. elim (dec_lt j k) [
      | yes a ↦ absurd (differ j k a h e)
      | no a ↦ elim (dec_lt k j) [ yes b ↦ absurd (differ k j b l (sym e)) | no b ↦ omega arith ]
    ];
  }
