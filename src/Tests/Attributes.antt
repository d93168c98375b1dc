-- ===== src/Tests/Attributes.antt =====
-- fs_chmod and fs_utime of a file of the test image, and the attributes that it then has.
use cs5600_project_3_file_sy.Common.{◌+◌, ◌*◌, ◌/◌, ◌%◌, ◌^◌, ◌≡◌, refl, arith}
use cs5600_project_3_file_sy.Outcome.{ok}
use cs5600_project_3_file_sy.Path.{skip_slashes, cut, strtok, tokens, pathparse}
use cs5600_project_3_file_sy.Translate.{start}
use cs5600_project_3_file_sy.Translate.Frame.{Trail}
use cs5600_project_3_file_sy.Query.{setstat, fs_getattr}
use cs5600_project_3_file_sy.State.{State}
use cs5600_project_3_file_sy.Attr.{fs_chmod, fs_utime}
use cs5600_project_3_file_sy.Attr.Rewritten.{Rewritten}
use cs5600_project_3_file_sy.Attr.Shown.{IsOther, fs_chmod-fs_getattr, fs_utime-fs_getattr}
use cs5600_project_3_file_sy.Tests.Files.{stored_inode, f_found}
use cs5600_project_3_file_sy.Tests.Growth.{IsKept-at, root_read, root_one, root_ptr}
use cs5600_project_3_file_sy.Tests.Refusals.{root_inode}
use cs5600_project_3_file_sy.Tests.Image.{codes, device, state}

way : Trail (IsOther state 6) device (pathparse (codes "f")) start
unfolding pathparse tokens strtok cut skip_slashes
way = (
  IsKept-at (IsOther state 6) 2 3 root_inode root_read root_one root_ptr
      (omega arith, (λ e. omega arith)) (omega arith, (λ e. omega arith)),
  λ c e. tt,
)

fs_chmod-fs_getattr_example :
    (t : State) × (fs_chmod (codes "f") 0o107640 state ≡ (ok tt, t))
    × (fs_getattr t (codes "f")
        ≡ ok (record (setstat stored_inode) {
          st_mode = 4096 * (stored_inode.mode / 4096 % 16) + 0o107640 % 512;
        }))
    × Rewritten 6
        (record stored_inode { mode = 4096 * (stored_inode.mode / 4096 % 16) + 0o107640 % 512 })
        state
        t
fs_chmod-fs_getattr_example =
    fs_chmod-fs_getattr (codes "f") 0o107640 6 stored_inode state f_found
      (record { positive = omega arith; addressable = omega arith; good = refl }) way

-- A time above 32 bits.
fs_utime-fs_getattr_example :
    (t : State) × (fs_utime (codes "f") 0x1_0000_0007 state ≡ (ok tt, t))
    × (fs_getattr t (codes "f")
        ≡ ok (record (setstat stored_inode) {
          st_atime = 0x1_0000_0007 % 2 ^ 32;
          st_mtime = 0x1_0000_0007 % 2 ^ 32;
        }))
    × Rewritten 6 (record stored_inode { mtime = 0x1_0000_0007 % 2 ^ 32 }) state t
fs_utime-fs_getattr_example =
    fs_utime-fs_getattr (codes "f") 0x1_0000_0007 6 stored_inode state f_found
      (record { positive = omega arith; addressable = omega arith; good = refl }) way
