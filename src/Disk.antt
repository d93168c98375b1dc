-- ===== src/Disk.antt =====
-- misc.c: the disk image as an array of 4096-byte blocks, and the two functions that reach it.
pub mod Access
pub mod Open
use cs5600_project_3_file_sy.Common.{
  ℕ, ◌+◌, ◌-◌, ◌^◌, ◌%◌, max, Bool, ◌||◌, ltb, leb, ◌==◌, if◌then◌else◌,
}
use cs5600_project_3_file_sy.Outcome.{Outcome, ok, err, crash, eio}

abbrev pub block_size : ℕ
block_size = 4096

-- A buffer of FS_BLOCK_SIZE bytes by offset. It is read through `u8`, so each function is one; the
-- offsets from 4096 on are never reached.
abbrev pub Block : Type 0
Block = ℕ → ℕ

abbrev pub u8 : Block → ℕ → ℕ
u8 b k = b k % 256

-- `memset(buf, 0, FS_BLOCK_SIZE)`
abbrev pub zero_block : Block
zero_block _ = 0

-- The image file behind `disk_fd`: its length in blocks and its contents. The last two fields say
-- which blocks the medium fails to read or write; such a failure lasts.
pub record Device : Type 0 where
  pub blocks : ℕ
  pub store : ℕ → Block
  pub bad_read : ℕ → Bool
  pub bad_write : ℕ → Bool

-- The contents after `write` at block `k`: a block between the old end and `k` reads as zeros.
abbrev pub stored : Device → ℕ → Block → ℕ → Block
stored d k b j = if j == k then b else if ltb j d.blocks then d.store j else zero_block

-- `block_read(buf, lba, 1)`. The parameter `int lba` is the caller's `uint32_t`: from 2^31 on it is
-- negative. `lba * FS_BLOCK_SIZE` overflows `int` from 2^19 on and below -2^19 (undefined); a
-- negative offset is refused by `lseek`, and past the end of the file `read` comes short.
unfoldable pub block_read : Device → ℕ → Outcome Block
block_read d lba =
    if ltb lba (2 ^ 19)
    then if leb d.blocks lba || d.bad_read lba then err eio else ok (d.store lba)
    else if ltb lba (2 ^ 32 - 2 ^ 19)
    then crash
    else err eio

-- `block_write(buf, lba, 1)`: `assert(lba > 0)`, and `start + len` must not overflow. Seeking past
-- the end of the file is no error, so a write there makes the file longer.
unfoldable pub block_write : Device → ℕ → Block → Outcome Device
block_write d lba b =
    if lba == 0
    then crash
    else if ltb lba (2 ^ 19 - 1)
    then if d.bad_write lba
      then err eio
      else ok (record d { blocks = max d.blocks (lba + 1); store = stored d lba b })
    else crash
