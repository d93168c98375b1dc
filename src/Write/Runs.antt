-- ===== src/Write/Runs.antt =====
-- fs_write run forward, on a medium that can read and write the blocks of the file.
use cs5600_project_3_file_sy.Common.{
  ℕ, zero, suc, ◌+◌, ◌-◌, ◌*◌, ◌/◌, ◌%◌, ◌^◌, ◌≤◌, ◌<◌, ◌≡◌, ◌≢◌, inl, inr, refl, ap, ◌∙◌, List,
  arith, Bool, Bool-cases, false, not, ◌||◌, ltb, lt→ltb, le→ltb, drop, length,
}
use cs5600_project_3_file_sy.Common.Int.{pos}
use cs5600_project_3_file_sy.Outcome.{ok, eisdir, einval}
use cs5600_project_3_file_sy.Disk.{Block, Device, zero_block}
use cs5600_project_3_file_sy.Format.{Inode, encode_inode, is_dir}
use cs5600_project_3_file_sy.Dir.{ptr_at}
use cs5600_project_3_file_sy.Translate.{translate}
use cs5600_project_3_file_sy.State.{State, Env, M, ◌>>=◌, ◌>>◌, lift, require, write_block}
use cs5600_project_3_file_sy.State.Runs.{
  bind-to, reads-to, lift-to, require-to, put, IsWritable, write_block-to, read_good,
}
use cs5600_project_3_file_sy.Read.{chunk}
use cs5600_project_3_file_sy.Write.Loop.{Separate}
use cs5600_project_3_file_sy.Write.Done.{write_loop_lem}
use cs5600_project_3_file_sy.Write.Update.{Updated, fs_write-Updated}
use cs5600_project_3_file_sy.Write.{
  patch, old_block, write_loop, grow, blocks_of, blocks_needed, size_t_of, past_end, resized,
  save_if, write_at, fs_write,
}

-- The first `m` blocks of the file can be read and written.
pub record Ready (m : ℕ) (n : Inode) (s : State) : Type 0 where
  pub in_array : m ≤ 1019
  pub inside : (j : ℕ) → j < m → n.ptrs j < s.dev.blocks
  pub readable : (j : ℕ) → j < m → s.dev.bad_read (n.ptrs j) ≡ false
  pub writable : (j : ℕ) → j < m → IsWritable s.dev (n.ptrs j)

IsWritable-put : (d : Device) (k j : ℕ) (b : Block) → IsWritable d j → IsWritable (put d k b) j
IsWritable-put d k j b w = record {
  positive = w.positive;
  addressable = w.addressable;
  good = w.good;
}

Ready-put :
    (m : ℕ) (n : Inode) (s : State) (k : ℕ) (b : Block)
    → Ready m n s
    → Ready m n (record s { dev = put s.dev k b })
Ready-put m n s k b r = record {
  in_array = r.in_array;
  inside = λ j l. omega (arith, r.inside j l);
  readable = r.readable;
  writable = λ j l. IsWritable-put s.dev k (n.ptrs j) b (r.writable j l);
}

old_block-runs :
    (at k lba : ℕ) (s : State)
    → lba < s.dev.blocks
    → s.dev.bad_read lba ≡ false
    → IsWritable s.dev lba
    → (b : Block) × (old_block at k lba s ≡ (ok b, s))
old_block-runs at k lba s l g w = elim (Bool-cases (ltb 0 (at % 4096) || ltb k 4096)) [
  | inl e ↦ (
    s.dev.store lba,
    rw e (ap (λ r. (r, s)) (read_good s.dev lba l (omega (arith, w.addressable)) g)),
  )
  | inr e ↦ (zero_block, rw e refl)
]

pub write_loop-runs :
    (m : ℕ) (n : Inode) (fuel at r : ℕ) (buf : List ℕ) (s : State)
    → Ready m n s
    → at + r ≤ m * 4096
    → r ≤ fuel
    → (t : State) × (write_loop n at buf r fuel s ≡ (ok tt, t))
unfolding write_loop ptr_at
write_loop-runs m n fuel at zero buf s ready fits l = (s, refl)
write_loop-runs m n zero at (suc r) buf s ready fits l = absurd (omega arith)
write_loop-runs m n (suc fuel) at (suc r) buf s ready fits l =
    let k = chunk at (suc r) in
    let here : at / 4096 < m = omega arith in
    let lba = n.ptrs (at / 4096) in
    let (b, old) =
      old_block-runs at k lba s (ready.inside (at / 4096) here) (ready.readable (at / 4096) here)
        (ready.writable (at / 4096) here) in
    let new = patch b (at % 4096) buf k in
    let u : State = record s { dev = put s.dev lba new } in
    let rest = write_loop n (at + k) (drop k buf) (suc r - k) fuel in
    let write = λ (lba : ℕ) (b : Block). write_block lba (patch b (at % 4096) buf k) >> rest in
    let (t, later) =
      write_loop-runs m n fuel (at + k) (suc r - k) (drop k buf) u (Ready-put m n s lba new ready)
        (omega arith) (omega arith) in
    (
      t,
      lift-to (ptr_at n (at / 4096)) (λ lba. old_block at k lba >>= write lba) s lba
            (rw (lt→ltb (at / 4096) 1019 (omega (arith, ready.in_array))))
          ∙ bind-to (old_block at k lba) (write lba) s s b old
          ∙ bind-to (write_block lba new) (λ _. rest) s u tt
              (write_block-to lba new s (ready.writable (at / 4096) here))
          ∙ later,
    )

module _ (env : Env) (inum offset size m : ℕ) (n : Inode) (buf : List ℕ) (s : State)
    (size_is : n.size ≡ pos size) (size_fits : size < 2 ^ 31) (blocks : (size + 4095) / 4096 ≡ m)
    (inside : (offset + length buf + 4095) / 4096 ≡ m) (ready : Ready m n s)
    (inode_writable : IsWritable s.dev inum) (sep : Separate m s n) where
  current : blocks_of (size_t_of n.size) ≡ m
  current = ap (λ z. blocks_of (size_t_of z)) size_is ∙ omega (arith, ready.in_array)

  wanted : blocks_of ((offset + length buf) % 2 ^ 64) ≡ m
  wanted = omega (arith, ready.in_array)

  grow-none :
      grow n
        (blocks_of (size_t_of n.size))
        (blocks_needed (blocks_of ((offset + length buf) % 2 ^ 64)) (blocks_of (size_t_of n.size)))
        s
      ≡ (ok n, s)
  unfolding grow blocks_needed
  grow-none =
      let none : blocks_needed m m ≡ 0 = omega (arith, ready.in_array) in rw (current, wanted, none)

  save-none :
      (u : State)
      → save_if (ltb (blocks_of (size_t_of n.size)) (blocks_of ((offset + length buf) % 2 ^ 64))) u
        ≡ (ok tt, u)
  save-none u = let same : ltb m m ≡ false = le→ltb m m (omega arith) in rw (current, wanted, same)

  write_at-runs : (t : State) × (write_at env inum n buf offset s ≡ (ok (length buf), t))
  unfolding write_at
  write_at-runs =
      let new_size = (offset + length buf) % 2 ^ 64 in
      let new_blocks = blocks_of new_size in
      let current_blocks = blocks_of (size_t_of n.size) in
      let (u, looped) =
        write_loop-runs m n (length buf) offset (length buf) buf s ready (omega arith)
          (omega arith) in
      let kept =
        (write_loop_lem m n (length buf) offset (length buf) buf s u looped sep (omega arith)).1 in
      let b = encode_inode (resized env new_size n) in
      let writable : IsWritable u.dev inum = record {
        positive = inode_writable.positive;
        addressable = inode_writable.addressable;
        good = ap (λ (f : ℕ → Bool). f inum) kept.bad_write_same ∙ inode_writable.good;
      } in
      let v : State = record u { dev = put u.dev inum b } in
      let done : M ℕ = lift (ok (length buf)) in
      let save : M ℕ = save_if (ltb current_blocks new_blocks) >> done in
      let store = λ (g : Inode). write_block inum (encode_inode (resized env new_size g)) >> save in
      (
        v,
        bind-to (grow n current_blocks (blocks_needed new_blocks current_blocks))
              (λ g. write_loop g offset buf (length buf) (length buf) >> store g) s s n grow-none
            ∙ bind-to (write_loop n offset buf (length buf) (length buf)) (λ _. store n) s u tt
                looped
            ∙ bind-to (write_block inum b) (λ _. save) u v tt (write_block-to inum b u writable)
            ∙ bind-to (save_if (ltb current_blocks new_blocks)) (λ _. done) v v tt (save-none v),
      )

-- How many blocks the file has and how many it needs.
pub write_counts :
    (offset size m0 m : ℕ) (n : Inode) (buf : List ℕ)
    → n.size ≡ pos size
    → size < 2 ^ 31
    → (size + 4095) / 4096 ≡ m0
    → (offset + length buf + 4095) / 4096 ≡ m
    → m0 ≤ m
    → m ≤ 1019
    → (blocks_of (size_t_of n.size) ≡ m0)
      × (blocks_needed (blocks_of ((offset + length buf) % 2 ^ 64)) (blocks_of (size_t_of n.size))
          ≡ m - m0)
unfolding blocks_needed
write_counts offset size m0 m n buf size_is fits old inside more few =
    let current : blocks_of (size_t_of n.size) ≡ m0 =
      ap (λ z. blocks_of (size_t_of z)) size_is ∙ omega arith in
    let exact : (offset + length buf) % 2 ^ 64 ≡ offset + length buf = omega arith in
    (current, rw (current, exact) (omega arith))

-- Past the guards.
pub fs_write-to :
    (env : Env) (path buf : List ℕ) (inum offset size : ℕ) (n : Inode) (s : State)
    → translate s.dev path ≡ ok (inum, n)
    → is_dir n.mode ≡ false
    → n.size ≡ pos size
    → offset ≤ size
    → fs_write env path buf offset s ≡ write_at env inum n buf offset s
unfolding fs_write
fs_write-to env path buf inum offset size n s e file size_is at_most =
    let rest = write_at env inum n buf offset in
    let guards = λ (r : ℕ × Inode).
      require (not (is_dir r.1.mode)) eisdir
      >> (require (not (past_end offset r.1.size)) einval >> write_at env r.0 r.1 buf offset) in
    let not_past : past_end offset n.size ≡ false =
      ap (past_end offset) size_is ∙ le→ltb size offset at_most in
    reads-to (λ s. translate s.dev path) guards s (inum, n) e
    ∙ require-to (not (is_dir n.mode)) eisdir
        (require (not (past_end offset n.size)) einval >> rest) s (ap not file)
    ∙ require-to (not (past_end offset n.size)) einval rest s (ap not not_past)

-- Where the blocks of a file and its inode can be read and written, a write inside the file that
-- leaves it with as many blocks as it has succeeds: it returns the length of the buffer, and the file
-- then holds the buffer at `offset` and its old bytes elsewhere.
pub fs_write-runs :
    (env : Env) (path buf : List ℕ) (inum offset size m : ℕ) (n : Inode) (s : State)
    → translate s.dev path ≡ ok (inum, n)
    → is_dir n.mode ≡ false
    → n.size ≡ pos size
    → size < 2 ^ 31
    → offset ≤ size
    → (size + 4095) / 4096 ≡ m
    → (offset + length buf + 4095) / 4096 ≡ m
    → Ready m n s
    → IsWritable s.dev inum
    → Separate m s n
    → ((j : ℕ) → j < m → n.ptrs j ≢ inum)
    → (t : State) × (fs_write env path buf offset s ≡ (ok (length buf), t))
      × Updated env inum offset m n buf s t
fs_write-runs env path buf inum offset size m n s e file size_is fits at_most blocks inside ready
      writable sep apart =
    let (t, ran) =
      write_at-runs env inum offset size m n buf s size_is fits blocks inside ready writable sep in
    let whole : fs_write env path buf offset s ≡ (ok (length buf), t) =
      fs_write-to env path buf inum offset size n s e file size_is at_most ∙ ran in
    (
      t,
      whole,
      (fs_write-Updated env path buf inum offset size m (length buf) n s t e size_is fits blocks
          inside sep apart whole).1,
    )
