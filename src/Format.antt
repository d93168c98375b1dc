-- ===== src/Format.antt =====
-- fs5600.h: the structures of the file system as they lie in a block, little-endian. `memcpy`
-- between a block and a struct is `decode` and `encode`, of an inode and of the superblock.
pub mod Inodes
pub mod Strings
pub mod Entries
pub mod Marks
pub mod Ends
use cs5600_project_3_file_sy.Common.{
  ℕ, zero, suc, ◌+◌, ◌-◌, ◌*◌, ◌/◌, ◌%◌, ◌^◌, bit_and, Bool, List, [], ◌∷◌, ltb, leb, ◌==◌, ◌&&◌,
  if◌then◌else◌, get_or, length,
}
use cs5600_project_3_file_sy.Common.Int.{ℤ, signed32, bits32}
use cs5600_project_3_file_sy.Disk.{Block, u8, block_size}

-- `uint16_t` and `uint32_t` at an offset, and the bytes of a number.
abbrev pub u16 : Block → ℕ → ℕ
u16 b o = u8 b o + 256 * u8 b (o + 1)

abbrev pub u32 : Block → ℕ → ℕ
u32 b o = u8 b o + 256 * u8 b (o + 1) + 65536 * u8 b (o + 2) + 16777216 * u8 b (o + 3)

abbrev pub byte_of : ℕ → ℕ → ℕ
byte_of v k = v / 256 ^ k % 256

-- `struct fs_super`, without its padding.
pub record Super : Type 0 where
  pub magic : ℕ
  pub disk_size : ℕ

unfoldable pub decode_super : Block → Super
decode_super b = record { magic = u32 b 0; disk_size = u32 b 4 }

-- `struct fs_inode`. `ptrs` has `ptr_count` items; the code that reaches past them is guarded.
pub record Inode : Type 0 where
  pub uid : ℕ
  pub gid : ℕ
  pub mode : ℕ
  pub ctime : ℕ
  pub mtime : ℕ
  pub size : ℤ
  pub ptrs : ℕ → ℕ

abbrev pub ptr_count : ℕ
ptr_count = 1019

unfoldable pub decode_inode : Block → Inode
decode_inode b = record {
  uid = u16 b 0;
  gid = u16 b 2;
  mode = u32 b 4;
  ctime = u32 b 8;
  mtime = u32 b 12;
  size = signed32 (u32 b 16);
  ptrs = λ i. u32 b (20 + 4 * i);
}

unfoldable pub encode_inode : Inode → Block
encode_inode n o =
    if ltb o 2
    then byte_of n.uid o
    else if ltb o 4
    then byte_of n.gid (o - 2)
    else if ltb o 8
    then byte_of n.mode (o - 4)
    else if ltb o 12
    then byte_of n.ctime (o - 8)
    else if ltb o 16
    then byte_of n.mtime (o - 12)
    else if ltb o 20
    then byte_of (bits32 n.size) (o - 16)
    else byte_of (n.ptrs ((o - 20) / 4)) ((o - 20) % 4)

-- `S_IFMT`, `S_IFDIR`, `S_IFREG`, and the tests `S_ISDIR` and `S_ISREG`.
abbrev pub s_ifmt : ℕ
s_ifmt = 0o170000

abbrev pub s_ifdir : ℕ
s_ifdir = 0o040000

abbrev pub s_ifreg : ℕ
s_ifreg = 0o100000

unfoldable pub is_dir : ℕ → Bool
is_dir mode = bit_and mode s_ifmt == s_ifdir

unfoldable pub is_reg : ℕ → Bool
is_reg mode = bit_and mode s_ifmt == s_ifreg

-- The bytes from offset `o` up to the first NUL, at most `n` of them.
unfoldable pub c_string : Block → ℕ → ℕ → List ℕ
c_string b o zero = []
c_string b o (suc n) = let rest = c_string b (o + 1) n in if u8 b o == 0 then [] else u8 b o ∷ rest

-- `struct fs_dirent` number `k` of a block: a word whose lowest bit is `valid` and whose other bits
-- are `inode`, then `char name[28]`. A name with no NUL runs on into what follows in the block; `name_ends` says that
-- there is a NUL before the end of the block, so that the string can be read to its end.
abbrev pub entry_count : ℕ
entry_count = 128

unfoldable pub entry_valid : Block → ℕ → Bool
entry_valid b k = u32 b (32 * k) % 2 == 1

unfoldable pub entry_inode : Block → ℕ → ℕ
entry_inode b k = u32 b (32 * k) / 2

unfoldable pub entry_name : Block → ℕ → List ℕ
entry_name b k = c_string b (32 * k + 4) (block_size - (32 * k + 4))

-- The bytes of the block from the name of entry `k` on.
abbrev pub name_room : ℕ → ℕ
name_room k = block_size - (32 * k + 4)

abbrev pub name_ends : Block → ℕ → Bool
name_ends b k = ltb (length (entry_name b k)) (name_room k)

abbrev pub max_name_len : ℕ
max_name_len = 27

-- `strncpy(name, s, MAX_NAME_LEN); name[MAX_NAME_LEN - 1] = '\0';` on entry `k`: byte 27 stays.
unfoldable pub set_name : Block → ℕ → List ℕ → Block
set_name b k s o =
    if leb (32 * k + 4) o && ltb o (32 * k + 4 + max_name_len)
    then if ltb (o - (32 * k + 4)) (max_name_len - 1) then get_or s (o - (32 * k + 4)) 0 else 0
    else b o

-- `entries[k].valid = v` and `entries[k].inode = inum`: the word of entry `k`.
unfoldable pub set_word : Block → ℕ → ℕ → Block
set_word b k w o = if leb (32 * k) o && ltb o (32 * k + 4) then byte_of w (o - 32 * k) else b o

-- `entries[k].valid = 1; entries[k].inode = inum;` and the name.
unfoldable pub set_entry : Block → ℕ → ℕ → List ℕ → Block
set_entry b k inum s = set_name (set_word b k (inum % 2 ^ 31 * 2 + 1)) k s

-- `entries[k].valid = 0;`
unfoldable pub clear_entry : Block → ℕ → Block
clear_entry b k = set_word b k (entry_inode b k * 2)
