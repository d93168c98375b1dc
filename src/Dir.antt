-- ===== src/Dir.antt =====
-- homework.c: the search through a directory's blocks and their entries, which translate,
-- fs_create, fs_mkdir, fs_unlink and fs_rmdir share.
pub mod Slots
pub mod Search
pub mod Insert
pub mod Erase
pub mod Hits
use cs5600_project_3_file_sy.Common.{
  ℕ, zero, suc, ◌+◌, ◌/◌, Bool, not, ◌&&◌, Option, none, some, ltb, if◌then◌else◌, str_eq, take,
}
use cs5600_project_3_file_sy.Common.Int.{ℤ, pos, negsuc}
use cs5600_project_3_file_sy.Outcome.{Outcome, ok, err, crash, ◌>>=◌, ◌>>◌, within}
use cs5600_project_3_file_sy.Disk.{Block, Device, block_size, block_read}
use cs5600_project_3_file_sy.Format.{
  Inode, ptr_count, decode_inode, entry_count, entry_valid, entry_inode, entry_name, name_ends,
  name_room,
}
use cs5600_project_3_file_sy.Path.{Name}

-- read_inode, whose -1 each caller but fs_readdir turns into -EIO.
unfoldable pub read_inode : Device → ℕ → Outcome Inode
read_inode d inum = block_read d inum >>= λ b. ok (decode_inode b)

-- The rounds of `for (int i = 0; i < inode.size / FS_BLOCK_SIZE; i++)`.
unfoldable pub dir_blocks : ℤ → ℕ
dir_blocks (pos n) = n / block_size
dir_blocks (negsuc n) = 0

-- `inode.ptrs[i]`
unfoldable pub ptr_at : Inode → ℕ → Outcome ℕ
ptr_at n i = if ltb i ptr_count then ok (n.ptrs i) else crash

-- The first of the `n` slots from `k` on that has the property.
unfoldable pub find_slot : (ℕ → Bool) → ℕ → ℕ → Option ℕ
find_slot p k zero = none
find_slot p k (suc n) = let rest = find_slot p (k + 1) n in if p k then some k else rest

-- Where a search stopped: the block's number, the block as it was read, and the slot in it.
pub record Hit : Type 0 where
  pub lba : ℕ
  pub block : Block
  pub slot : ℕ

-- Entry `k` is valid and its name runs past the end of the block.
abbrev pub over_read : Block → ℕ → Bool
over_read b k = entry_valid b k && not (name_ends b k)

-- `strcmp` with the name of a valid entry that meets no difference in the block reads past the
-- buffer where the name has no NUL there. No name is read of an entry that is not valid.
abbrev pub hit_at : ℕ → Block → ℕ → Outcome (Option Hit)
hit_at lba b k =
    within (not (over_read b k)) >> ok (some (record { lba = lba; block = b; slot = k }))

-- The two nested loops, from block `i` of the directory on.
unfoldable pub find_from : (Block → ℕ → Bool) → Device → Inode → ℕ → ℕ → Outcome (Option Hit)
find_from p d n i zero = ok none
find_from p d n i (suc rounds) =
    let rest = find_from p d n (i + 1) rounds in
    ptr_at n i >>= λ lba. block_read d lba >>= λ b. elim (find_slot (p b) 0 entry_count) [
      | none ↦ rest
      | some k ↦ hit_at lba b k
    ]

unfoldable pub find_in_dir : (Block → ℕ → Bool) → Device → Inode → Outcome (Option Hit)
find_in_dir p d n = find_from p d n 0 (dir_blocks n.size)

-- `entries[k].valid && strcmp(entries[k].name, name) == 0`, where `strcmp` compares no more than the
-- block has; a search that stops at a name with no NUL crashes in `hit_at`.
unfoldable pub is_named : Name → Block → ℕ → Bool
is_named name b k = entry_valid b k && str_eq (entry_name b k) (take (name_room k) name)

-- `!entries[k].valid`
unfoldable pub is_unused : Block → ℕ → Bool
is_unused b k = not (entry_valid b k)

-- The inode number at a hit.
abbrev pub hit_inode : Hit → ℕ
hit_inode h = entry_inode h.block h.slot
