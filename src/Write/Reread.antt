-- ===== src/Write/Reread.antt =====
-- Blocks, inodes and bytes that are read after a write.
use cs5600_project_3_file_sy.Common.{
  ℕ, zero, suc, ◌+◌, ◌/◌, ◌%◌, ◌^◌, ◌≤◌, ◌<◌, ◌≡◌, refl, sym, ap, ◌∙◌, List, [], ◌∷◌, All, arith,
  dec_lt, length, get_or, max,
}
use cs5600_project_3_file_sy.Common.Int.{signed32-IsInt32}
use cs5600_project_3_file_sy.Outcome.{ok, ◌>>=◌, >>=-eq-ok}
use cs5600_project_3_file_sy.Disk.{Block, Device, u8, block_read}
use cs5600_project_3_file_sy.Format.{Inode, decode_inode}
use cs5600_project_3_file_sy.Format.Inodes.{IsInode}
use cs5600_project_3_file_sy.Path.{pathparse}
use cs5600_project_3_file_sy.Dir.{read_inode}
use cs5600_project_3_file_sy.Translate.{start, walk, translate}
use cs5600_project_3_file_sy.State.{Env}
use cs5600_project_3_file_sy.Read.Contents.{file_slice}
use cs5600_project_3_file_sy.Write.{resized, size_t_of}
use cs5600_project_3_file_sy.Write.Grow.{Grown}

pub block_read-same :
    (d d' : Device) (k : ℕ)
    → k < d.blocks
    → d.blocks ≤ d'.blocks
    → d'.store k ≡ d.store k
    → d'.bad_read k ≡ d.bad_read k
    → block_read d' k ≡ block_read d k
unfolding block_read
block_read-same d d' k l g e f = ground (arith, e, f)

-- A block that was read once, if the image has not become shorter.
pub read_again :
    (d d' : Device) (k : ℕ) (b : Block)
    → block_read d k ≡ ok b
    → d.blocks ≤ d'.blocks
    → d'.bad_read k ≡ d.bad_read k
    → block_read d' k ≡ ok (d'.store k)
unfolding block_read
read_again d d' k b h g f = ground (arith, f)

-- What translate has read last.
pub translate-inode :
    (d : Device) (path : List ℕ) (inum : ℕ) (n : Inode)
    → translate d path ≡ ok (inum, n)
    → (b : Block) × (block_read d inum ≡ ok b) × (n ≡ decode_inode b)
unfolding translate read_inode
translate-inode d path inum n e =
    let (c, f, g) =
      >>=-eq-ok (walk d (pathparse path) start) (λ c. read_inode d c.inum >>= λ n. ok (c.inum, n))
        e in
    let (n', f', g') = >>=-eq-ok (read_inode d c.inum) (λ n. ok (c.inum, n)) g in
    let (b, read, h) = >>=-eq-ok (block_read d c.inum) (λ b. ok (decode_inode b)) f' in
    let here : c.inum ≡ inum = cc in (b, ap (block_read d) (sym here) ∙ read, cc)

pub file_slice-list :
    (bs : ℕ → Block) (at : ℕ) (xs : List ℕ)
    → ((i : ℕ) → i < length xs → u8 (bs ((at + i) / 4096)) ((at + i) % 4096) ≡ get_or xs i 0)
    → file_slice bs at (length xs) ≡ xs
file_slice-list bs at [] h = refl
file_slice-list bs at (x ∷ xs) h =
    let head : u8 (bs (at / 4096)) (at % 4096) ≡ x =
      let z : at + 0 ≡ at = omega arith in rw z at (h 0 (omega arith)) in
    let tail =
      file_slice-list bs (at + 1) xs (λ i l.
        let e : at + suc i ≡ at + 1 + i = omega arith in rw e at (h (suc i) (omega arith))) in
    rw (head, tail)

pub get_or-byte :
    (xs : List ℕ) (i : ℕ) → All (λ x. x < 256) xs → get_or xs i 0 % 256 ≡ get_or xs i 0
get_or-byte [] i h = refl
get_or-byte (x ∷ xs) zero h = omega (arith, h.0)
get_or-byte (x ∷ xs) (suc i) h = get_or-byte xs i h.1

-- The inode with its new blocks.
pub Grown-IsInode :
    (n g : Inode) (i r : ℕ) (map map' : Block) (disk_size : ℕ)
    → Grown n g i r map map' disk_size
    → disk_size ≤ 32768
    → IsInode n
    → IsInode g
Grown-IsInode n g i r map map' disk_size grown disk h = rw grown.rest_same (record {
  uid_fits = h.uid_fits;
  gid_fits = h.gid_fits;
  mode_fits = h.mode_fits;
  ctime_fits = h.ctime_fits;
  mtime_fits = h.mtime_fits;
  size_fits = h.size_fits;
  ptrs_fit = λ j. elim (dec_lt j i) [
    | yes a ↦ rw (grown.before j a) (h.ptrs_fit j)
    | no a ↦ elim (dec_lt j (i + r)) [
      | yes b ↦ let (x, y, z) = grown.fresh j (omega arith) b in omega arith
      | no b ↦ rw (grown.after j (omega arith)) (h.ptrs_fit j)
    ]
  ];
})

pub resized-IsInode : (env : Env) (size : ℕ) (n : Inode) → IsInode n → IsInode (resized env size n)
resized-IsInode env size n h = record {
  uid_fits = h.uid_fits;
  gid_fits = h.gid_fits;
  mode_fits = h.mode_fits;
  ctime_fits = h.ctime_fits;
  mtime_fits = omega arith;
  size_fits = signed32-IsInt32 (max (size_t_of n.size) size % 2 ^ 32) (omega arith);
  ptrs_fit = h.ptrs_fit;
}
