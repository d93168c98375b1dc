-- ===== src/Calls.antt =====
-- homework.c: the operations vector `fs_ops`, as the calls that FUSE makes on a mounted file system.
pub mod Super
pub mod Restart
use cs5600_project_3_file_sy.Common.{ℕ, List, [], ◌∷◌}
use cs5600_project_3_file_sy.Outcome.{Outcome}
use cs5600_project_3_file_sy.State.{State, Env, M}
use cs5600_project_3_file_sy.Create.{fs_create, fs_mkdir}
use cs5600_project_3_file_sy.Remove.{fs_unlink, fs_rmdir}
use cs5600_project_3_file_sy.Rename.{fs_rename}
use cs5600_project_3_file_sy.Attr.{fs_chmod, fs_utime, fs_truncate}
use cs5600_project_3_file_sy.Write.{fs_write}

-- The calls that can change the image or the globals, with their arguments.
pub data Call : Type 0 where
  create mkdir chmod utime truncate : List ℕ → ℕ → Call
  unlink rmdir : List ℕ → Call
  rename : List ℕ → List ℕ → Call
  write : List ℕ → List ℕ → ℕ → Call

-- The state that a call leaves, however it ends.
unfoldable pub call : Env → Call → State → State
call env (create path mode) s = (fs_create env path mode s).1
call env (mkdir path mode) s = (fs_mkdir env path mode s).1
call env (chmod path mode) s = (fs_chmod path mode s).1
call env (utime path modtime) s = (fs_utime path modtime s).1
call env (truncate path len) s = (fs_truncate env path len s).1
call env (unlink path) s = (fs_unlink path s).1
call env (rmdir path) s = (fs_rmdir path s).1
call env (rename src_path dst_path) s = (fs_rename src_path dst_path s).1
call env (write path buf offset) s = (fs_write env path buf offset s).1

-- A session: calls in turn, each at its own time and for its own user.
unfoldable pub session : List (Env × Call) → State → State
session [] s = s
session ((env, c) ∷ cs) s = session cs (call env c s)
