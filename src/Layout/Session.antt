-- ===== src/Layout/Session.antt =====
-- Calls in turn on a consistent image, each under the conditions that it needs.
use cs5600_project_3_file_sy.Common.{ℕ, ◌^◌, ◌<◌, ◌≡◌, ◌≢◌, refl, false}
use cs5600_project_3_file_sy.Outcome.{Outcome, ok, err, crash}
use cs5600_project_3_file_sy.Format.{Inode, is_dir}
use cs5600_project_3_file_sy.Translate.{translate}
use cs5600_project_3_file_sy.Create.{fs_create, fs_mkdir}
use cs5600_project_3_file_sy.Remove.{fs_unlink, fs_rmdir}
use cs5600_project_3_file_sy.Rename.{fs_rename}
use cs5600_project_3_file_sy.Attr.{fs_chmod, fs_utime, fs_truncate}
use cs5600_project_3_file_sy.Write.{fs_write}
use cs5600_project_3_file_sy.State.{State, Env}
use cs5600_project_3_file_sy.State.After.{After}
use cs5600_project_3_file_sy.Calls.{
  Call, create, mkdir, chmod, utime, truncate, unlink, rmdir, rename, write, call,
}
use cs5600_project_3_file_sy.Layout.{Consistent}
use cs5600_project_3_file_sy.Layout.Created.{fs_create-Consistent}
use cs5600_project_3_file_sy.Layout.Made.{fs_mkdir-Consistent}
use cs5600_project_3_file_sy.Layout.Touched.{IsShort, fs_chmod-Consistent, fs_utime-Consistent}
use cs5600_project_3_file_sy.Layout.Emptied.{fs_truncate-Consistent}
use cs5600_project_3_file_sy.Layout.Erased.{IsPlainPath}
use cs5600_project_3_file_sy.Layout.Unlinked.{fs_unlink-Consistent, fs_rmdir-Consistent}
use cs5600_project_3_file_sy.Layout.Renamed.{fs_rename-Consistent}
use cs5600_project_3_file_sy.Layout.Written.{IsWritten, fs_write-Consistent}
use cs5600_project_3_file_sy.Layout.Parent.{IsEntryPath}

abbrev pub discard : {A : Type 0} → Outcome A → Outcome (Unit {0})
discard (ok a) = ok tt
discard (err e) = err e
discard crash = crash

-- How a call ends.
unfoldable pub outcome : Env → Call → State → Outcome (Unit {0})
outcome env (create path mode) s = (fs_create env path mode s).0
outcome env (mkdir path mode) s = (fs_mkdir env path mode s).0
outcome env (chmod path mode) s = (fs_chmod path mode s).0
outcome env (utime path modtime) s = (fs_utime path modtime s).0
outcome env (truncate path len) s = (fs_truncate env path len s).0
outcome env (unlink path) s = (fs_unlink path s).0
outcome env (rmdir path) s = (fs_rmdir path s).0
outcome env (rename src_path dst_path) s = (fs_rename src_path dst_path s).0
outcome env (write path buf offset) s = discard (fs_write env path buf offset s).0

-- What a call needs so that it is safe.
abbrev pub IsAllowed : State → Call → Type 0
IsAllowed s (create path mode) = IsEntryPath path × (mode < 2 ^ 32) × (is_dir mode ≡ false)
IsAllowed s (mkdir path mode) = IsEntryPath path × (mode < 4096)
IsAllowed s (chmod path mode) = IsShort path
IsAllowed s (utime path modtime) = IsShort path
IsAllowed s (truncate path len) =
    IsShort path
    × ((x : ℕ) (n : Inode) → translate s.dev path ≡ ok (x, n) → s.dev.bad_write x ≡ false)
IsAllowed s (unlink path) = IsPlainPath path
IsAllowed s (rmdir path) = IsPlainPath path
IsAllowed s (rename src_path dst_path) =
    IsShort src_path × IsEntryPath src_path × IsEntryPath dst_path
IsAllowed s (write path buf offset) = IsWritten s path buf offset

pub data Step : State → State → Type 0 where
  calls : (env : Env) (c : Call) (s : State) → IsAllowed s c → Step s (call env c s)

pub data Reach (s : State) : State → Type 0 where
  start : Reach s s
  next : {t u : State} → Reach s t → Step t u → Reach s u

ended :
    {A : Type 0} (p : Outcome A × State)
    → After (λ _ t. Consistent t) Consistent p
    → Consistent p.1 × (discard p.0 ≢ crash)
ended (ok a, t) h = (h, λ e. cc)
ended (err e, t) h = (h, λ e. cc)
ended (crash, t) h = elim h [ ]

undiscard : (r : Outcome (Unit {0})) → discard r ≢ crash → r ≢ crash
undiscard (ok a) h e = cc
undiscard (err x) h e = cc
undiscard crash h e = h refl

ended_unit :
    (p : Outcome (Unit {0}) × State)
    → After (λ _ t. Consistent t) Consistent p
    → Consistent p.1 × (p.0 ≢ crash)
ended_unit p h = ((ended p h).0, undiscard p.0 (ended p h).1)

call-Consistent :
    (env : Env) (c : Call) (s : State)
    → IsAllowed s c
    → Consistent s
    → Consistent (call env c s) × (outcome env c s ≢ crash)
unfolding call outcome
call-Consistent env (create path mode) s (named, fits, type) h =
    ended_unit _ (fs_create-Consistent env path mode s named fits type h)
call-Consistent env (mkdir path mode) s (named, small) h =
    ended_unit _ (fs_mkdir-Consistent env path mode s named small h)
call-Consistent env (chmod path mode) s short h =
    ended_unit _ (fs_chmod-Consistent path mode s short h)
call-Consistent env (utime path modtime) s short h =
    ended_unit _ (fs_utime-Consistent path modtime s short h)
call-Consistent env (truncate path len) s (short, good) h =
    ended_unit _ (fs_truncate-Consistent env path len s short good h)
call-Consistent env (unlink path) s plain h = ended_unit _ (fs_unlink-Consistent path s plain h)
call-Consistent env (rmdir path) s plain h = ended_unit _ (fs_rmdir-Consistent path s plain h)
call-Consistent env (rename src_path dst_path) s (short, src, dst) h =
    ended_unit _ (fs_rename-Consistent src_path dst_path s short src dst h)
call-Consistent env (write path buf offset) s written h =
    ended _ (fs_write-Consistent env path buf offset s written h)

Reach-Consistent : (s t : State) → Consistent s → Reach s t → Consistent t
Reach-Consistent s t h start = h
Reach-Consistent s t h (next r (calls env c u a)) =
    (call-Consistent env c u a (Reach-Consistent s u h r)).0

-- From a consistent image, whatever calls that IsAllowed admits have been made, and however they
-- ended, the next such call does not crash and leaves a consistent image. IsAllowed asks for paths of
-- at most nine components, or with a parent where a call uses one, and without dots for fs_unlink and
-- fs_rmdir; for modes that fit; for fs_truncate, that the block of the inode can be written; and for
-- fs_write, a range inside 1019 blocks that does not end before the last block of the file.
pub Reach-call :
    (s t : State) (env : Env) (c : Call)
    → Consistent s
    → Reach s t
    → IsAllowed t c
    → Consistent (call env c t) × (outcome env c t ≢ crash)
Reach-call s t env c h r a = call-Consistent env c t a (Reach-Consistent s t h r)
