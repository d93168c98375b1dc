-- ===== src/Format/Inodes.antt =====
-- Inodes as bytes of a block, written and read.
use cs5600_project_3_file_sy.Common.{
  ℕ, ◌+◌, ◌*◌, ◌/◌, ◌%◌, ◌^◌, ◌-◌, ◌<◌, ◌≡◌, ap, ◌∙◌, le→ltb, arith,
}
use cs5600_project_3_file_sy.Common.Int.{
  IsInt32, signed32, signed32-bits32, bits32, bits32-lt, signed32-IsInt32,
}
use cs5600_project_3_file_sy.Disk.{Block}
use cs5600_project_3_file_sy.Format.{Inode, u32, decode_inode, encode_inode, byte_of}

-- The fields fit their C types.
pub record IsInode (n : Inode) : Type 0 where
  pub uid_fits : n.uid < 2 ^ 16
  pub gid_fits : n.gid < 2 ^ 16
  pub mode_fits : n.mode < 2 ^ 32
  pub ctime_fits : n.ctime < 2 ^ 32
  pub mtime_fits : n.mtime < 2 ^ 32
  pub size_fits : IsInt32 n.size
  pub ptrs_fit : (i : ℕ) → n.ptrs i < 2 ^ 32

-- What `read_inode` gives always fits.
pub decode_inode-IsInode : (b : Block) → IsInode (decode_inode b)
unfolding decode_inode
decode_inode-IsInode b = record {
  uid_fits = omega arith;
  gid_fits = omega arith;
  mode_fits = omega arith;
  ctime_fits = omega arith;
  mtime_fits = omega arith;
  size_fits = signed32-IsInt32 (u32 b 16) (omega arith);
  ptrs_fit = λ i. omega arith;
}

ptr_byte : (n : Inode) (i k : ℕ) → k < 4 → encode_inode n (20 + 4 * i + k) ≡ byte_of (n.ptrs i) k
unfolding encode_inode
ptr_byte n i k h =
    let e : (20 + 4 * i + k - 20) / 4 ≡ i = omega arith in
    let f : (20 + 4 * i + k - 20) % 4 ≡ k = omega arith in
    rw (
      le→ltb (20 + 4 * i + k) 2 (omega arith),
      le→ltb (20 + 4 * i + k) 4 (omega arith),
      le→ltb (20 + 4 * i + k) 8 (omega arith),
      le→ltb (20 + 4 * i + k) 12 (omega arith),
      le→ltb (20 + 4 * i + k) 16 (omega arith),
      le→ltb (20 + 4 * i + k) 20 (omega arith),
      e,
      f,
    )

-- The four bytes of a 32-bit number make it up again.
word_of_bytes :
    (b : Block) (o v : ℕ)
    → v < 2 ^ 32
    → b o ≡ byte_of v 0
    → b (o + 1) ≡ byte_of v 1
    → b (o + 2) ≡ byte_of v 2
    → b (o + 3) ≡ byte_of v 3
    → u32 b o ≡ v
word_of_bytes b o v h e0 e1 e2 e3 = rw (e0, e1, e2, e3) (omega arith)

ptrs-round_trip : (n : Inode) → IsInode n → (i : ℕ) → u32 (encode_inode n) (20 + 4 * i) ≡ n.ptrs i
ptrs-round_trip n v i =
    word_of_bytes (encode_inode n) (20 + 4 * i) (n.ptrs i) (v.ptrs_fit i)
      (ap (encode_inode n) (omega arith) ∙ ptr_byte n i 0 (omega arith))
      (ptr_byte n i 1 (omega arith)) (ptr_byte n i 2 (omega arith)) (ptr_byte n i 3 (omega arith))

field32 :
    (v : ℕ)
    → v < 2 ^ 32
    → byte_of v 0 % 256
        + 256 * (byte_of v 1 % 256)
        + 65536 * (byte_of v 2 % 256)
        + 16777216 * (byte_of v 3 % 256)
      ≡ v
field32 v h = omega arith

field16 : (v : ℕ) → v < 2 ^ 16 → byte_of v 0 % 256 + 256 * (byte_of v 1 % 256) ≡ v
field16 v h = omega arith

-- An inode whose fields fit their types is read back from its block as it was.
pub decode_inode-encode_inode : (n : Inode) → IsInode n → decode_inode (encode_inode n) ≡ n
unfolding decode_inode encode_inode
decode_inode-encode_inode n v = λ i. record {
  uid = field16 n.uid v.uid_fits i;
  gid = field16 n.gid v.gid_fits i;
  mode = field32 n.mode v.mode_fits i;
  ctime = field32 n.ctime v.ctime_fits i;
  mtime = field32 n.mtime v.mtime_fits i;
  size =
      (ap signed32 (field32 (bits32 n.size) (bits32-lt n.size))
          ∙ signed32-bits32 n.size v.size_fits)
        i;
  ptrs = λ k. ptrs-round_trip n v k i;
}
