-- ===== src/Write.antt =====
-- homework.c: fs_write. `buf` holds the `len` bytes; an offset is never negative.
pub mod Loop
pub mod Guards
pub mod Done
pub mod Update
pub mod Runs
pub mod Grow
pub mod Extend
pub mod Saved
pub mod Extended
pub mod Full
pub mod Reread
pub mod ReadBack
pub mod Underflow
use cs5600_project_3_file_sy.Common.{
  ℕ, zero, suc, ◌+◌, ◌-◌, ◌/◌, ◌%◌, ◌^◌, max, Bool, not, ◌&&◌, ◌||◌, List, [], ◌∷◌, ltb, leb, ◌==◌,
  if◌then◌else◌, length, get_or, drop, true, false,
}
use cs5600_project_3_file_sy.Common.Int.{ℤ, pos, negsuc, signed32}
use cs5600_project_3_file_sy.Outcome.{Outcome, ok, err, crash, eisdir, einval, enospc}
use cs5600_project_3_file_sy.Disk.{Block, zero_block, block_size, block_read}
use cs5600_project_3_file_sy.Bitmap.{first_free}
use cs5600_project_3_file_sy.Format.{Inode, encode_inode, is_dir, ptr_count}
use cs5600_project_3_file_sy.Dir.{ptr_at}
use cs5600_project_3_file_sy.Translate.{translate}
use cs5600_project_3_file_sy.Read.{chunk}
use cs5600_project_3_file_sy.State.{
  State, Env, M, ◌>>=◌, ◌>>◌, reads, lift, require, write_block, set_bit, save_bitmap,
}

-- An `int32_t` as a `size_t`.
abbrev pub size_t_of : ℤ → ℕ
size_t_of (pos n) = n
size_t_of (negsuc n) = 2 ^ 64 - 1 - n

-- `offset > inode.size`, in `off_t`.
abbrev pub past_end : ℕ → ℤ → Bool
past_end offset (pos n) = ltb n offset
past_end offset (negsuc n) = true

-- `(uint32_t)ceil((double)size / FS_BLOCK_SIZE)`, exact below 2^53.
abbrev pub blocks_of : ℕ → ℕ
blocks_of size = (size + 4095) / block_size % 2 ^ 32

-- `new_blocks - current_blocks` in `uint32_t`; the test `< 0` that follows never holds.
unfoldable pub blocks_needed : ℕ → ℕ → ℕ
blocks_needed new_blocks current_blocks = (new_blocks + 2 ^ 32 - current_blocks) % 2 ^ 32

-- `inode.ptrs[i] = p`
unfoldable pub set_ptr : Inode → ℕ → ℕ → Outcome Inode
set_ptr n i p =
    if ltb i ptr_count then ok (record n { ptrs = λ j. if j == i then p else n.ptrs j }) else crash

-- The loop that allocates, one block a round, for `ptrs[i]` on. Only memory changes.
unfoldable pub grow : Inode → ℕ → ℕ → M Inode
grow n i zero = lift (ok n)
grow n i (suc rounds) =
    let next = λ (m : Inode). grow m (i + 1) rounds in
    reads (λ s. first_free s.bitmap s.super.disk_size) >>= λ new_block.
    require (not (new_block == 0)) enospc
    >> (set_bit new_block >> (lift (set_ptr n i new_block) >>= next))

-- `memcpy(block_data + o, buf, n)`
abbrev pub patch : Block → ℕ → List ℕ → ℕ → Block
patch b o buf n j = if leb o j && ltb j (o + n) then get_or buf (j - o) 0 else b j

-- The block is read first unless all of it is written.
abbrev pub old_block : ℕ → ℕ → ℕ → M Block
old_block at n lba =
    if ltb 0 (at % block_size) || ltb n block_size
    then reads (λ s. block_read s.dev lba)
    else lift (ok zero_block)

-- The loop, with `at = offset + bytes_written` and `remaining = len - bytes_written` bytes of `buf`
-- left. Fuel of `remaining` is enough; `crash` stands for too little of it.
unfoldable pub write_loop : Inode → ℕ → List ℕ → ℕ → ℕ → M (Unit {0})
write_loop n at buf zero fuel = lift (ok tt)
write_loop n at buf (suc r) zero = lift crash
write_loop n at buf (suc r) (suc fuel) =
    let k : ℕ = chunk at (suc r) in
    let rest = write_loop n (at + k) (drop k buf) (suc r - k) fuel in
    lift (ptr_at n (at / block_size)) >>= λ lba.
    old_block at k lba >>= λ b. write_block lba (patch b (at % block_size) buf k) >> rest

-- `inode.size = MAX(inode.size, new_size); inode.mtime = time(NULL);`
abbrev pub resized : Env → ℕ → Inode → Inode
resized env new_size n = record n {
  size = signed32 (max (size_t_of n.size) new_size % 2 ^ 32);
  mtime = env.now % 2 ^ 32;
}

abbrev pub save_if : Bool → M (Unit {0})
save_if true = save_bitmap
save_if false = lift (ok tt)

-- What follows the guards: the result is the number of bytes written.
unfoldable pub write_at : Env → ℕ → Inode → List ℕ → ℕ → M ℕ
write_at env inum inode buf offset = do
  let new_size = (offset + length buf) % 2 ^ 64
  let new_blocks = blocks_of new_size
  let current_blocks = blocks_of (size_t_of inode.size)
  grown ← grow inode current_blocks (blocks_needed new_blocks current_blocks)
  write_loop grown offset buf (length buf) (length buf)
  write_block inum (encode_inode (resized env new_size grown))
  save_if (ltb current_blocks new_blocks)
  lift (ok (length buf))

unfoldable pub fs_write : Env → List ℕ → List ℕ → ℕ → M ℕ
fs_write env path buf offset = do
  (inum, inode) ← reads (λ s. translate s.dev path)
  require (not (is_dir inode.mode)) eisdir
  require (not (past_end offset inode.size)) einval
  write_at env inum inode buf offset
