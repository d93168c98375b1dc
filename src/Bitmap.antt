-- ===== src/Bitmap.antt =====
-- homework.c: the block bitmap, one bit for each block, in memory behind the global `bitmap`.
pub mod Bits
pub mod Free
pub mod Count
use cs5600_project_3_file_sy.Common.{
  ℕ, zero, suc, ◌+◌, ◌-◌, ◌/◌, ◌%◌, ◌^◌, bit_and, bit_or, Bool, true, false, not, Option, none,
  some, ltb, ◌==◌, if◌then◌else◌,
}
use cs5600_project_3_file_sy.Outcome.{Outcome, ok, err, crash, ◌>>=◌}
use cs5600_project_3_file_sy.Disk.{Block, u8}

-- `map[i] = v`, an unsigned char.
abbrev pub set_byte : Block → ℕ → ℕ → Block
set_byte map i v j = if i == j then v % 256 else map j

-- The three bit operations on a bitmap that is there, inside its 4096 bytes.
unfoldable pub has_bit : Block → ℕ → Bool
has_bit map i = not (bit_and (u8 map (i / 8)) (2 ^ (i % 8)) == 0)

unfoldable pub with_bit : Block → ℕ → Block
with_bit map i = set_byte map (i / 8) (bit_or (u8 map (i / 8)) (2 ^ (i % 8)))

unfoldable pub without_bit : Block → ℕ → Block
without_bit map i = set_byte map (i / 8) (bit_and (u8 map (i / 8)) (255 - 2 ^ (i % 8)))

-- `malloc(FS_BLOCK_SIZE)` has room for this many bits.
abbrev pub bitmap_bits : ℕ
bitmap_bits = 32768

-- The operations through the pointer: it may be null, and `i` past the end.
unfoldable pub bit_test : Option Block → ℕ → Outcome Bool
bit_test none i = crash
bit_test (some map) i = if ltb i bitmap_bits then ok (has_bit map i) else crash

unfoldable pub bit_set : Option Block → ℕ → Outcome (Option Block)
bit_set none i = crash
bit_set (some map) i = if ltb i bitmap_bits then ok (some (with_bit map i)) else crash

unfoldable pub bit_clear : Option Block → ℕ → Outcome (Option Block)
bit_clear none i = crash
bit_clear (some map) i = if ltb i bitmap_bits then ok (some (without_bit map i)) else crash

-- `for (; n > 0; i++, n--) if (!bit_test(bitmap, i)) return i;` and 0 where no bit is clear.
unfoldable pub scan : Option Block → ℕ → ℕ → Outcome ℕ
scan map i zero = ok 0
scan map i (suc n) =
    let rest = scan map (i + 1) n in bit_test map i >>= λ used. if used then rest else ok i

-- The loop of fs_create and fs_write over `2 <= i < superblock.disk_size`.
unfoldable pub first_free : Option Block → ℕ → Outcome ℕ
first_free map disk_size = scan map 2 (disk_size - 2)

-- The loop of fs_mkdir: the first clear bit goes to `dir_inum`, the next to `data_block`.
unfoldable pub scan_two : Option Block → ℕ → ℕ → ℕ → Outcome (ℕ × ℕ)
scan_two map dir_inum i zero = ok (dir_inum, 0)
scan_two map dir_inum i (suc n) =
    let next = λ (d : ℕ). scan_two map d (i + 1) n in
    bit_test map i >>= λ used.
    if used then next dir_inum else if dir_inum == 0 then next i else ok (dir_inum, i)

unfoldable pub two_free : Option Block → ℕ → Outcome (ℕ × ℕ)
two_free map disk_size = scan_two map 0 2 (disk_size - 2)

-- The loop of fs_statfs: how many of the `n` bits from `i` on are set.
unfoldable pub count_used : Option Block → ℕ → ℕ → Outcome ℕ
count_used map i zero = ok 0
count_used map i (suc n) =
    let rest = count_used map (i + 1) n in
    bit_test map i >>= λ used. rest >>= λ k. ok (if used then k + 1 else k)
