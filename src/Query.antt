-- ===== src/Query.antt =====
-- homework.c: setstat, fs_getattr, fs_readdir and fs_statfs, which change nothing.
pub mod Statfs
pub mod Slots
pub mod Listed
use cs5600_project_3_file_sy.Common.{
  ℕ, zero, suc, ◌+◌, ◌-◌, ◌/◌, ◌%◌, ◌^◌, Bool, true, false, List, [], ◌∷◌, ◌++◌, ◌==◌,
  if◌then◌else◌,
}
use cs5600_project_3_file_sy.Common.Int.{ℤ, pos, negsuc}
use cs5600_project_3_file_sy.Outcome.{
  Outcome, ok, err, crash, ◌>>=◌, ◌>>◌, require, within, enotdir,
}
use cs5600_project_3_file_sy.Disk.{Block, Device, block_size, block_read}
use cs5600_project_3_file_sy.Bitmap.{count_used}
use cs5600_project_3_file_sy.Format.{
  Inode, is_dir, entry_count, entry_valid, entry_inode, entry_name, name_ends, max_name_len,
}
use cs5600_project_3_file_sy.Path.{Name}
use cs5600_project_3_file_sy.Dir.{read_inode, ptr_at, dir_blocks}
use cs5600_project_3_file_sy.Translate.{translate}
use cs5600_project_3_file_sy.State.{State}

-- The fields of `struct stat` that setstat assigns.
pub record Stat : Type 0 where
  pub st_uid : ℕ
  pub st_gid : ℕ
  pub st_mode : ℕ
  pub st_size : ℤ
  pub st_nlink : ℕ
  pub st_atime : ℕ
  pub st_mtime : ℕ
  pub st_ctime : ℕ
  pub st_blocks : ℤ

-- `ceil((double)size / FS_BLOCK_SIZE)`, exact on 32-bit sizes; it rounds a negative size up to 0.
unfoldable pub ceil_div : ℤ → ℤ
ceil_div (pos n) = pos ((n + 4095) / block_size)
ceil_div (negsuc n) = if (n + 1) / block_size == 0 then pos 0 else negsuc ((n + 1) / block_size - 1)

unfoldable pub setstat : Inode → Stat
setstat n = record {
  st_uid = n.uid;
  st_gid = n.gid;
  st_mode = n.mode;
  st_size = n.size;
  st_nlink = 1;
  st_atime = n.mtime;
  st_mtime = n.mtime;
  st_ctime = n.ctime;
  st_blocks = ceil_div n.size;
}

unfoldable pub fs_getattr : State → List ℕ → Outcome Stat
fs_getattr s path = translate s.dev path >>= λ r. ok (setstat r.1)

-- What fs_readdir has handed to `filler` when it returns, and what it returns.
abbrev pub Listing : Type 0
Listing = List (Name × Stat) × Outcome (Unit {0})

-- Calls of `filler` before the others.
abbrev pub emit : List (Name × Stat) → Listing → Listing
emit es (fs, r) = (es ++ fs, r)

-- `filler(ptr, name, &st, 0)`, or `continue` where the inode cannot be read.
unfoldable pub fill : Outcome Inode → Name → Listing → Listing
fill (ok n) name rest = emit ((name, setstat n) ∷ []) rest
fill (err e) name rest = rest
fill crash name rest = ([], crash)

-- The inode of entry `k`, where `filler` can read the name of the entry to its end.
unfoldable pub named_inode : Device → Block → ℕ → Outcome Inode
named_inode d b k = read_inode d (entry_inode b k) >>= λ n. within (name_ends b k) >> ok n

-- The `n` entries of a block from `k` on, and then `rest`.
unfoldable pub list_slots : Device → Block → ℕ → ℕ → Listing → Listing
list_slots d b k zero rest = rest
list_slots d b k (suc n) rest =
    let more = list_slots d b (k + 1) n rest in
    if entry_valid b k then fill (named_inode d b k) (entry_name b k) more else more

-- The `rounds` blocks of a directory from `i` on.
unfoldable pub list_blocks : Device → Inode → ℕ → ℕ → Listing
list_blocks d n i zero = ([], ok tt)
list_blocks d n i (suc rounds) =
    let more = list_blocks d n (i + 1) rounds in
    elim (ptr_at n i >>= block_read d) [
      | ok b ↦ list_slots d b 0 entry_count more
      | err e ↦ ([], err e)
      | crash ↦ ([], crash)
    ]

-- The listing of what `translate` found, or its error.
unfoldable pub list_dir : Device → Outcome (ℕ × Inode) → Listing
list_dir d (ok (inum, n)) =
    if is_dir n.mode then list_blocks d n 0 (dir_blocks n.size) else ([], err enotdir)
list_dir d (err e) = ([], err e)
list_dir d crash = ([], crash)

unfoldable pub fs_readdir : State → List ℕ → Listing
fs_readdir s path = list_dir s.dev (translate s.dev path)

-- The fields of `struct statvfs` that are not zero.
pub record Statvfs : Type 0 where
  pub f_bsize : ℕ
  pub f_blocks : ℕ
  pub f_bfree : ℕ
  pub f_bavail : ℕ
  pub f_namemax : ℕ

-- Subtraction of `unsigned long`.
abbrev pub sub64 : ℕ → ℕ → ℕ
sub64 a b = (a + 2 ^ 64 - b) % 2 ^ 64

-- `int total_blocks` holds `disk_size`, below 2^31.
unfoldable pub fs_statfs : State → Outcome Statvfs
fs_statfs s = count_used s.bitmap 0 s.super.disk_size >>= λ used. ok (record {
  f_bsize = block_size;
  f_blocks = sub64 s.super.disk_size 2;
  f_bfree = sub64 (sub64 s.super.disk_size 2) used;
  f_bavail = sub64 (sub64 s.super.disk_size 2) used;
  f_namemax = max_name_len;
})
