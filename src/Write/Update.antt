-- ===== src/Write/Update.antt =====
-- fs_write as a whole, where the file needs no more blocks than it has.
use cs5600_project_3_file_sy.Common.{
  ℕ, ◌+◌, ◌/◌, ◌%◌, ◌^◌, ◌≤◌, ◌<◌, ◌≡◌, ◌≢◌, some, sym, ap, ◌∙◌, List, arith, Bool, true, false,
  ltb, length, le→ltb,
}
use cs5600_project_3_file_sy.Common.Int.{pos}
use cs5600_project_3_file_sy.Outcome.{Outcome, ok}
use cs5600_project_3_file_sy.Disk.{Block, Device, u8, block_write}
use cs5600_project_3_file_sy.Disk.Access.{
  block_write-Wrote, store-block_write_ne, bad_read-block_write,
}
use cs5600_project_3_file_sy.Format.{Inode, encode_inode}
use cs5600_project_3_file_sy.Translate.{translate}
use cs5600_project_3_file_sy.State.{State, Env}
use cs5600_project_3_file_sy.Write.{
  grow, write_loop, resized, save_if, write_at, fs_write, blocks_of, blocks_needed, size_t_of,
}
use cs5600_project_3_file_sy.Write.Guards.{fs_write-write_at, Written, write_at-Written}
use cs5600_project_3_file_sy.Write.Loop.{file_byte, Separate, stored_ne}
use cs5600_project_3_file_sy.Write.Done.{overwritten, write_loop_lem}
use cs5600_project_3_file_sy.Write.Underflow.{write_at_underflow}

grow_none :
    (n g : Inode) (i k : ℕ) (s u : State) → k ≡ 0 → grow n i k s ≡ (ok g, u) → (g ≡ n) × (u ≡ s)
unfolding grow
grow_none n g i k s u e h =
    let h' : grow n i 0 s ≡ (ok g, u) = ap (λ j. grow n i j s) (sym e) ∙ h in ground arith

save_none : (b : Bool) (s t : State) → b ≡ false → save_if b s ≡ (ok tt, t) → t ≡ s
save_none true s t e h = cc
save_none false s t e h = sym (ap (λ (x : Outcome (Unit {0}) × State). x.1) h)

no_blocks : (a b : ℕ) → a ≡ b → a < 2 ^ 32 → blocks_needed a b ≡ 0
unfolding blocks_needed
no_blocks a b e l = omega arith

-- With as many blocks as before, nothing is allocated and the bitmap is not written.
same_blocks :
    (env : Env) (inum offset : ℕ) (n : Inode) (buf : List ℕ) (s t : State)
    (w : Written env inum offset n buf s t)
    → blocks_of ((offset + length buf) % 2 ^ 64) ≡ blocks_of (size_t_of n.size)
    → (w.grown ≡ n) × (w.middle ≡ s) × (t ≡ record w.last { dev = w.dev })
same_blocks env inum offset n buf s t w e =
    let new_blocks = blocks_of ((offset + length buf) % 2 ^ 64) in
    let current_blocks = blocks_of (size_t_of n.size) in
    let (g, u) =
      grow_none n w.grown current_blocks (blocks_needed new_blocks current_blocks) s w.middle
        (no_blocks new_blocks current_blocks e (omega arith)) w.grew in
    (
      g,
      u,
      save_none (ltb current_blocks new_blocks) (record w.last { dev = w.dev }) t
          (le→ltb current_blocks new_blocks (omega arith)) w.saved,
    )

-- What an in-place write has done.
pub record Updated (env : Env) (inum offset m : ℕ) (n : Inode) (buf : List ℕ) (s t : State)
    : Type 0 where
  pub contents :
      (p : ℕ) → p / 4096 < m → file_byte t n p ≡ overwritten s n offset (length buf) buf p
  pub inode : t.dev.store inum ≡ encode_inode (resized env (offset + length buf) n)
  pub others :
      (lba : ℕ)
      → lba < s.dev.blocks
      → lba ≢ inum
      → ((j : ℕ) → j < m → n.ptrs j ≢ lba)
      → t.dev.store lba ≡ s.dev.store lba
  pub grows : s.dev.blocks ≤ t.dev.blocks
  pub bad_read_same : t.dev.bad_read ≡ s.dev.bad_read
  pub super_same : t.super ≡ s.super
  pub bitmap_same : t.bitmap ≡ s.bitmap

store-inode :
    (m inum : ℕ) (n : Inode) (b : Block) (u : State) (d : Device) (p : ℕ)
    → block_write u.dev inum b ≡ ok d
    → Separate m u n
    → ((j : ℕ) → j < m → n.ptrs j ≢ inum)
    → p / 4096 < m
    → u8 (d.store (n.ptrs (p / 4096))) (p % 4096) ≡ file_byte u n p
store-inode m inum n b u d p h sep ne l =
    let w = block_write-Wrote u.dev inum b d h in
    rw w.result (
      ap (λ (c : Block). u8 c (p % 4096))
        (stored_ne u.dev inum (n.ptrs (p / 4096)) b (ne (p / 4096) l) (sep.inside (p / 4096) l)))

inode_stored : (d d' : Device) (k : ℕ) (b : Block) → block_write d k b ≡ ok d' → d'.store k ≡ b
inode_stored d d' k b h = rw ((block_write-Wrote d k b d' h).result) (ground arith)

module _ (env : Env) (inum offset size m : ℕ) (n : Inode) (buf : List ℕ) (s t : State)
    (size_is : n.size ≡ pos size) (size_fits : size < 2 ^ 31) (blocks : (size + 4095) / 4096 ≡ m)
    (inside : (offset + length buf + 4095) / 4096 ≡ m) (sep : Separate m s n)
    (apart : (j : ℕ) → j < m → n.ptrs j ≢ inum) where
  same_count : blocks_of ((offset + length buf) % 2 ^ 64) ≡ blocks_of (size_t_of n.size)
  same_count =
      let e : blocks_of (size_t_of n.size) ≡ (size + 4095) / 4096 =
        ap (λ z. blocks_of (size_t_of z)) size_is ∙ omega arith in
      omega arith

  write_at-Updated :
      (k : ℕ)
      → write_at env inum n buf offset s ≡ (ok k, t)
      → (k ≡ length buf) × Updated env inum offset m n buf s t
  write_at-Updated k h =
      let (count, w) = write_at-Written env inum offset n buf s t k h in
      let (grown, middle, after) = same_blocks env inum offset n buf s t w same_count in
      let loop : write_loop n offset buf (length buf) (length buf) s ≡ (ok tt, w.last) =
        rw (grown, middle) at w.wrote in
      let (bytes, rest) =
        write_loop_lem m n (length buf) offset (length buf) buf s w.last loop sep (omega arith) in
      let exact : (offset + length buf) % 2 ^ 64 ≡ offset + length buf = omega arith in
      let stored : block_write w.last.dev inum (encode_inode (resized env (offset + length buf) n))
          ≡ ok w.dev =
        rw (grown, exact) at w.inode_written in
      let sep' : Separate m w.last n = record {
        inside = λ i l. omega (arith, sep.inside i l, rest.grows);
        different = sep.different;
      } in
      (
        count,
        rw after (record {
          contents = λ p l.
              store-inode m inum n (encode_inode (resized env (offset + length buf) n)) w.last w.dev
                p stored sep' apart l
              ∙ bytes p l;
          inode =
              inode_stored w.last.dev w.dev inum
                (encode_inode (resized env (offset + length buf) n)) stored;
          others = λ lba l ne file.
              store-block_write_ne w.last.dev w.dev inum lba
                (encode_inode (resized env (offset + length buf) n)) stored ne
                (omega (arith, rest.grows))
              ∙ rest.others lba l file;
          grows = omega (
            arith,
            rest.grows,
            (block_write-Wrote w.last.dev inum (encode_inode (resized env (offset + length buf) n))
                w.dev stored).grows,
          );
          bad_read_same =
              bad_read-block_write w.last.dev w.dev inum
                (encode_inode (resized env (offset + length buf) n)) stored
              ∙ rest.bad_read_same;
          super_same = rest.super_same;
          bitmap_same = rest.bitmap_same;
        }),
      )

-- For a file whose `m` blocks are different blocks of the image and not its inode's, a write that
-- leaves it with `m` blocks, if it succeeds, returns the length of the buffer; from then on the
-- file holds the buffer at `offset` and its old bytes elsewhere, its inode has the larger of the
-- old and the new size and the time of the call, and the bitmap is as it was.
pub fs_write-Updated :
    (env : Env) (path buf : List ℕ) (inum offset size m k : ℕ) (n : Inode) (s t : State)
    → translate s.dev path ≡ ok (inum, n)
    → n.size ≡ pos size
    → size < 2 ^ 31
    → (size + 4095) / 4096 ≡ m
    → (offset + length buf + 4095) / 4096 ≡ m
    → Separate m s n
    → ((j : ℕ) → j < m → n.ptrs j ≢ inum)
    → fs_write env path buf offset s ≡ (ok k, t)
    → (k ≡ length buf) × Updated env inum offset m n buf s t
fs_write-Updated env path buf inum offset size m k n s t e size_is fits blocks inside sep apart h =
    write_at-Updated env inum offset size m n buf s t size_is fits blocks inside sep apart k
      (fs_write-write_at env path buf offset s t k inum n e h).2

-- On a disk that the bitmap covers, a write that ends before the last block of the file begins
-- never succeeds, whatever its data.
pub fs_write_underflow :
    (env : Env) (path buf : List ℕ) (inum offset size k : ℕ) (n : Inode) (map : Block) (s t : State)
    → translate s.dev path ≡ ok (inum, n)
    → n.size ≡ pos size
    → size < 2 ^ 31
    → s.super.disk_size ≤ 32768
    → s.bitmap ≡ some map
    → (offset + length buf + 4095) / 4096 < (size + 4095) / 4096
    → fs_write env path buf offset s ≢ (ok k, t)
fs_write_underflow env path buf inum offset size k n map s t e size_is fits disk b less h =
    write_at_underflow env inum offset size n buf map s t k size_is fits disk b less
      (fs_write-write_at env path buf offset s t k inum n e h).2
