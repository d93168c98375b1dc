-- ===== src/Query/Statfs.antt =====
-- fs_statfs against the bitmap: the free blocks that it reports.
use cs5600_project_3_file_sy.Common.{
  ℕ, ◌+◌, ◌^◌, ◌≤◌, ◌<◌, ◌≡◌, refl, some, arith, ◌⊎◌, inl, inr, dec_lt,
}
use cs5600_project_3_file_sy.Outcome.{ok}
use cs5600_project_3_file_sy.Disk.{Block, block_size}
use cs5600_project_3_file_sy.Format.{max_name_len}
use cs5600_project_3_file_sy.Bitmap.Count.{used_in, used_in-le, count_used_lem}
use cs5600_project_3_file_sy.State.{State}
use cs5600_project_3_file_sy.Query.{Statvfs, fs_statfs, sub64}

-- What it returns when `used` bits are set.
abbrev report : ℕ → ℕ → Statvfs
report disk_size used = record {
  f_bsize = block_size;
  f_blocks = sub64 disk_size 2;
  f_bfree = sub64 (sub64 disk_size 2) used;
  f_bavail = sub64 (sub64 disk_size 2) used;
  f_namemax = max_name_len;
}

-- On a disk of at least two blocks that the bitmap covers, fs_statfs returns two blocks less than
-- the disk has. Its free blocks are those less the number of set bits, the bits of blocks 0 and 1
-- among them; where more bits than that are set, the number wraps around below 2^64. Both free
-- counts agree.
pub fs_statfs_lem :
    (s : State) (map : Block)
    → s.bitmap ≡ some map
    → 2 ≤ s.super.disk_size
    → s.super.disk_size ≤ 32768
    → (v : Statvfs) × (fs_statfs s ≡ ok v)
      × (v.f_blocks + 2 ≡ s.super.disk_size)
      × (v.f_bavail ≡ v.f_bfree)
      × (((used_in map 0 s.super.disk_size + 2 ≤ s.super.disk_size)
            × (v.f_bfree + used_in map 0 s.super.disk_size + 2 ≡ s.super.disk_size))
          ⊎ ((s.super.disk_size < used_in map 0 s.super.disk_size + 2)
              × (v.f_bfree + used_in map 0 s.super.disk_size + 2 ≡ 2 ^ 64 + s.super.disk_size)))
unfolding fs_statfs
fs_statfs_lem s map b two small =
    let used = used_in map 0 s.super.disk_size in
    let most : used ≤ s.super.disk_size = used_in-le map 0 s.super.disk_size in
    (
      report s.super.disk_size used,
      rw (b, count_used_lem map 0 s.super.disk_size (omega arith)),
      omega arith,
      refl,
      elim (dec_lt s.super.disk_size (used + 2)) [
        | yes l ↦ inr (l, omega arith)
        | no l ↦ inl (omega arith, omega arith)
      ],
    )
