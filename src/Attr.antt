-- ===== src/Attr.antt =====
-- homework.c: fs_chmod, fs_utime and fs_truncate, which rewrite one inode.
pub mod Rewritten
pub mod Shown
pub mod Truncated
use cs5600_project_3_file_sy.Common.{ℕ, ◌%◌, ◌^◌, bit_and, bit_or, not, List, ◌==◌}
use cs5600_project_3_file_sy.Common.Int.{pos}
use cs5600_project_3_file_sy.Outcome.{einval, eisdir}
use cs5600_project_3_file_sy.Format.{Inode, encode_inode, is_dir, s_ifmt}
use cs5600_project_3_file_sy.Translate.{translate}
use cs5600_project_3_file_sy.Remove.{file_blocks, release_blocks}
use cs5600_project_3_file_sy.State.{
  State, Env, M, ◌>>=◌, ◌>>◌, reads, require, write_block, save_bitmap,
}

-- `(inode.mode & S_IFMT) | (mode & 0777)`
unfoldable pub chmod_mode : ℕ → ℕ → ℕ
chmod_mode old mode = bit_or (bit_and old s_ifmt) (bit_and mode 0o777)

-- The block is filled before `inode.mtime = time(NULL)`, so the new time is not written.
unfoldable pub fs_chmod : List ℕ → ℕ → M (Unit {0})
fs_chmod path mode = do
  (inum, inode) ← reads (λ s. translate s.dev path)
  write_block inum (encode_inode (record inode { mode = chmod_mode inode.mode mode }))

-- `modtime` is cut to 32 bits.
unfoldable pub fs_utime : List ℕ → ℕ → M (Unit {0})
fs_utime path modtime = do
  (inum, inode) ← reads (λ s. translate s.dev path)
  write_block inum (encode_inode (record inode { mtime = modtime % 2 ^ 32 }))

-- The inode of a file with no contents.
abbrev pub emptied : Env → Inode → Inode
emptied env n = record n { ptrs = λ _. 0; size = pos 0; mtime = env.now % 2 ^ 32 }

-- `len` is taken without a sign: the code tests it against 0 only.
unfoldable pub fs_truncate : Env → List ℕ → ℕ → M (Unit {0})
fs_truncate env path len = do
  require (len == 0) einval
  (inum, inode) ← reads (λ s. translate s.dev path)
  require (not (is_dir inode.mode)) eisdir
  release_blocks inode 0 (file_blocks inode.size)
  write_block inum (encode_inode (emptied env inode))
  save_bitmap
