-- ===== src/Read.antt =====
-- homework.c: fs_read. Offsets and lengths are those that FUSE passes, none negative.
pub mod Contents
use cs5600_project_3_file_sy.Common.{
  ℕ, zero, suc, ◌+◌, ◌-◌, ◌/◌, ◌%◌, ◌^◌, min, List, [], ◌∷◌, ◌++◌, ltb, if◌then◌else◌, length,
}
use cs5600_project_3_file_sy.Common.Int.{ℤ, pos, negsuc}
use cs5600_project_3_file_sy.Outcome.{Outcome, ok, err, crash, ◌>>=◌, ◌>>◌, require, eisdir}
use cs5600_project_3_file_sy.Disk.{Block, Device, u8, block_size, block_read}
use cs5600_project_3_file_sy.Format.{Inode, is_reg}
use cs5600_project_3_file_sy.Dir.{ptr_at}
use cs5600_project_3_file_sy.Translate.{translate}
use cs5600_project_3_file_sy.State.{State}

-- `memcpy(buf, block + o, n)`
unfoldable pub slice : Block → ℕ → ℕ → List ℕ
slice b o zero = []
slice b o (suc n) = u8 b o ∷ slice b (o + 1) n

-- How much of `remaining` the block at file position `at` serves.
abbrev pub chunk : ℕ → ℕ → ℕ
chunk at remaining = min (block_size - at % block_size) remaining

-- The loop, with `at = offset + bytes_read` and `remaining = len - bytes_read`. Each round reads at
-- least a byte, so fuel of `remaining` is enough; `crash` stands for too little of it.
unfoldable pub read_loop : Device → Inode → ℕ → ℕ → ℕ → Outcome (List ℕ)
read_loop d n at zero fuel = ok []
read_loop d n at (suc r) zero = crash
read_loop d n at (suc r) (suc fuel) =
    let rest = read_loop d n (at + chunk at (suc r)) (suc r - chunk at (suc r)) fuel in
    ptr_at n (at / block_size) >>= λ lba. block_read d lba >>= λ b.
    rest >>= λ bytes. ok (slice b (at % block_size) (chunk at (suc r)) ++ bytes)

-- `if (offset + len > inode.size) len = inode.size - offset;` in `size_t`.
abbrev pub clip : ℕ → ℕ → ℕ → ℕ
clip size offset len = if ltb size ((offset + len) % 2 ^ 64) then size - offset else len

-- `if (offset >= inode.size) return 0;` and then the loop.
unfoldable pub read_at : Device → Inode → ℤ → ℕ → ℕ → Outcome (List ℕ)
read_at d n (negsuc m) offset len = ok []
read_at d n (pos size) offset len =
    if ltb offset size
    then read_loop d n offset (clip size offset len) (clip size offset len)
    else ok []

-- The bytes that `buf` holds where fs_read returns their number.
unfoldable pub fs_read : State → List ℕ → ℕ → ℕ → Outcome (List ℕ)
fs_read s path len offset = translate s.dev path >>= λ r.
    require (is_reg r.1.mode) eisdir >> read_at s.dev r.1 r.1.size offset len
