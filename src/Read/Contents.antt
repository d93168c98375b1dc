-- ===== src/Read/Contents.antt =====
-- fs_read against the contents of the file: the bytes of its blocks, one after the other.
use cs5600_project_3_file_sy.Common.{
  ℕ, zero, suc, ◌+◌, ◌-◌, ◌*◌, ◌/◌, ◌%◌, ◌^◌, ◌≤◌, ◌<◌, ◌≡◌, min, refl, ap, ◌∙◌, List, [], ◌∷◌,
  ◌++◌, arith, true, lt→ltb, le→ltb, length, dec_lt,
}
use cs5600_project_3_file_sy.Common.Int.{pos}
use cs5600_project_3_file_sy.Outcome.{ok}
use cs5600_project_3_file_sy.Disk.{Block, Device, u8, block_read}
use cs5600_project_3_file_sy.Format.{Inode, is_reg}
use cs5600_project_3_file_sy.Dir.{ptr_at}
use cs5600_project_3_file_sy.Translate.{translate}
use cs5600_project_3_file_sy.State.{State}
use cs5600_project_3_file_sy.Read.{slice, chunk, read_loop, clip, read_at, fs_read}

-- The `n` bytes from position `at` on of a file whose blocks are `bs`.
abbrev pub file_slice : (ℕ → Block) → ℕ → ℕ → List ℕ
file_slice bs at zero = []
file_slice bs at (suc n) = u8 (bs (at / 4096)) (at % 4096) ∷ file_slice bs (at + 1) n

-- The blocks of the inode that hold the bytes from `lo` on and below `hi` can be read, and are `bs`.
abbrev pub Holds : Device → Inode → (ℕ → Block) → ℕ → ℕ → Type 0
Holds d n bs lo hi =
    (p : ℕ)
    → lo ≤ p
    → p < hi
    → (p / 4096 < 1019) × (block_read d (n.ptrs (p / 4096)) ≡ ok (bs (p / 4096)))

pub length-file_slice : (bs : ℕ → Block) (at n : ℕ) → length (file_slice bs at n) ≡ n
length-file_slice bs at zero = refl
length-file_slice bs at (suc n) = ap suc (length-file_slice bs (at + 1) n)

file_slice-append :
    (bs : ℕ → Block) (at k m : ℕ)
    → file_slice bs at k ++ file_slice bs (at + k) m ≡ file_slice bs at (k + m)
file_slice-append bs at zero m =
    let e : at + 0 ≡ at = omega arith in let f : 0 + m ≡ m = omega arith in rw (e, f)
file_slice-append bs at (suc k) m =
    let e : at + suc k ≡ at + 1 + k = omega arith in
    let f : suc k + m ≡ suc (k + m) = omega arith in rw (e, f, file_slice-append bs (at + 1) k m)

-- Inside one block the file is the block.
slice-file_slice :
    (bs : ℕ → Block) (q at k o : ℕ)
    → at ≡ q * 4096 + o
    → o + k ≤ 4096
    → slice (bs q) o k ≡ file_slice bs at k
unfolding slice
slice-file_slice bs q at zero o e h = refl
slice-file_slice bs q at (suc k) o e h =
    let f : at / 4096 ≡ q = omega arith in
    let g : at % 4096 ≡ o = omega arith in
    rw (f, g, slice-file_slice bs q (at + 1) k (o + 1) (omega arith) (omega arith))

read_loop_lem :
    (d : Device) (n : Inode) (bs : ℕ → Block) (fuel at r : ℕ)
    → r ≤ fuel
    → Holds d n bs at (at + r)
    → read_loop d n at r fuel ≡ ok (file_slice bs at r)
unfolding read_loop ptr_at
read_loop_lem d n bs zero at zero h k = refl
read_loop_lem d n bs (suc fuel) at zero h k = refl
read_loop_lem d n bs zero at (suc r) h k = absurd (omega arith)
read_loop_lem d n bs (suc fuel) at (suc r) h k =
    let (in_array, read) = k at (omega arith) (omega arith) in
    let c = chunk at (suc r) in
    let ih =
      read_loop_lem d n bs fuel (at + c) (suc r - c) (omega arith)
        (λ p l m. k p (omega arith) (omega arith)) in
    let split : c + (suc r - c) ≡ suc r = omega arith in
    rw
      (
        lt→ltb (at / 4096) 1019 in_array,
        read,
        ih,
        slice-file_slice bs (at / 4096) at c (at % 4096) (omega arith) (omega arith),
      )
      (ap ok (file_slice-append bs at c (suc r - c) ∙ ap (file_slice bs at) split))

read_at_lem :
    (d : Device) (n : Inode) (bs : ℕ → Block) (size len offset : ℕ)
    → offset + len < 2 ^ 64
    → Holds d n bs 0 size
    → read_at d n (pos size) offset len ≡ ok (file_slice bs offset (min len (size - offset)))
unfolding read_at
read_at_lem d n bs size len offset h k = elim (dec_lt offset size) [
  | yes a ↦
      let e : clip size offset len ≡ min len (size - offset) = ground arith in
      rw (lt→ltb offset size a, e)
        (read_loop_lem d n bs (min len (size - offset)) offset (min len (size - offset))
          (omega arith) (λ p l m. k p (omega arith) (omega arith)))
  | no a ↦
      let e : min len (size - offset) ≡ 0 = omega arith in rw (le→ltb offset size (omega arith), e)
]

-- A read of a regular file whose blocks can be read, with `offset + len` below 2^64, returns the
-- bytes of the file from `offset` on: `len` of them, or as many as there are before the end, none
-- at or past it. It never runs out of rounds.
pub fs_read_lem :
    (s : State) (path : List ℕ) (len offset inum size : ℕ) (n : Inode) (bs : ℕ → Block)
    → translate s.dev path ≡ ok (inum, n)
    → is_reg n.mode ≡ true
    → n.size ≡ pos size
    → offset + len < 2 ^ 64
    → Holds s.dev n bs 0 size
    → fs_read s path len offset ≡ ok (file_slice bs offset (min len (size - offset)))
unfolding fs_read
fs_read_lem s path len offset inum size n bs t reg e h k =
    rw (t, reg)
      (ap (λ z. read_at s.dev n z offset len) e ∙ read_at_lem s.dev n bs size len offset h k)
