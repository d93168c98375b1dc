-- ===== src/Calls/Super.antt =====
-- The superblock under the calls of a session.
use cs5600_project_3_file_sy.Common.{
  ℕ, zero, suc, ◌+◌, ◌-◌, ◌<◌, List, [], ◌∷◌, drop, ◌/◌, ◌%◌, Bool, true, false, not, Option, none,
  some, if◌then◌else◌, ◌==◌, ltb, ◌||◌,
}
use cs5600_project_3_file_sy.Outcome.{ok, within, Errno}
use cs5600_project_3_file_sy.Disk.{Block, zero_block, block_read}
use cs5600_project_3_file_sy.Format.{Inode}
use cs5600_project_3_file_sy.Path.{Name}
use cs5600_project_3_file_sy.Dir.{Hit, ptr_at}
use cs5600_project_3_file_sy.State.{
  State, Env, M, ◌>>=◌, ◌>>◌, lift, reads, require, write_block, set_bit, clear_bit,
}
use cs5600_project_3_file_sy.State.Keeps.{
  SameSuper, Keeps, SameSuper-refl, SameSuper-trans, bind-Keeps, then-Keeps, lift-Keeps,
  reads-Keeps, require-Keeps, on_error-Keeps, ignore-Keeps, write_block-Keeps, set_bit-Keeps,
  clear_bit-Keeps, save_bitmap-Keeps,
}
use cs5600_project_3_file_sy.Create.{
  parent_dir, require_absent, write_entry, add_entry, take_block, take_two, write_or_undo,
  fs_create, fs_mkdir,
}
use cs5600_project_3_file_sy.Dir.{find_slot, is_named}
use cs5600_project_3_file_sy.Bitmap.{first_free}
use cs5600_project_3_file_sy.Outcome.{enospc}
use cs5600_project_3_file_sy.Format.{entry_count}
use cs5600_project_3_file_sy.Read.{chunk}
use cs5600_project_3_file_sy.Remove.{
  erase_entry, remove_entry, release, release_blocks, fs_unlink, fs_rmdir,
}
use cs5600_project_3_file_sy.Rename.{
  seen_in, stays_inside, is_other, last_slot, rename_in, rename_from, fs_rename,
}
use cs5600_project_3_file_sy.Attr.{fs_chmod, fs_utime, fs_truncate}
use cs5600_project_3_file_sy.Write.{
  set_ptr, patch, old_block, grow, write_loop, save_if, write_at, fs_write,
}
use cs5600_project_3_file_sy.Calls.{Call, call, session}

ruleset keeps = (
  bind-Keeps, then-Keeps, lift-Keeps, reads-Keeps, require-Keeps, on_error-Keeps, ignore-Keeps,
  write_block-Keeps, set_bit-Keeps, clear_bit-Keeps, save_bitmap-Keeps,
)

parent_dir-Keeps : (path : List ℕ) → Keeps (parent_dir path)
unfolding parent_dir
parent_dir-Keeps path = search keeps depth 9

write_entry-Keeps :
    (inum : ℕ) (name : Name) (full : Errno) (o : Option Hit) → Keeps (write_entry inum name full o)
write_entry-Keeps inum name full none s l = SameSuper-refl s l
write_entry-Keeps inum name full (some h) s l = search keeps

add_entry-Keeps :
    (parent : Inode) (name : Name) (inum : ℕ) (full : Errno)
    → Keeps (add_entry parent name inum full)
unfolding add_entry
add_entry-Keeps parent name inum full = search (keeps, write_entry-Keeps)

require_absent-Keeps : (parent : Inode) (name : Name) → Keeps (require_absent parent name)
unfolding require_absent
require_absent-Keeps parent name = search keeps

take_block-Keeps : Keeps take_block
unfolding take_block
take_block-Keeps = search keeps depth 9

take_two-Keeps : Keeps take_two
unfolding take_two
take_two-Keeps = search keeps depth 9

write_or_undo-Keeps :
    (lba : ℕ) (b : Block) (undo : M (Unit {0})) → Keeps undo → Keeps (write_or_undo lba b undo)
unfolding write_or_undo
write_or_undo-Keeps lba b undo k = search keeps depth 7

fs_create-Keeps : (env : Env) (path : List ℕ) (mode : ℕ) → Keeps (fs_create env path mode)
unfolding fs_create
fs_create-Keeps env path mode =
    search
      (
        keeps, parent_dir-Keeps, require_absent-Keeps, take_block-Keeps, write_or_undo-Keeps,
        add_entry-Keeps,
      )
      depth 9

fs_mkdir-Keeps : (env : Env) (path : List ℕ) (mode : ℕ) → Keeps (fs_mkdir env path mode)
unfolding fs_mkdir
fs_mkdir-Keeps env path mode =
    search
      (
        keeps, parent_dir-Keeps, require_absent-Keeps, take_two-Keeps, write_or_undo-Keeps,
        add_entry-Keeps,
      )
      depth 11

erase_entry-Keeps : (o : Option Hit) → Keeps (erase_entry o)
erase_entry-Keeps none s l = SameSuper-refl s l
erase_entry-Keeps (some h) s l = search keeps

remove_entry-Keeps : (parent : Inode) (name : Name) → Keeps (remove_entry parent name)
unfolding remove_entry
remove_entry-Keeps parent name = search (keeps, erase_entry-Keeps)

if-Keeps : {A : Type 0} (b : Bool) (m k : M A) → Keeps m → Keeps k → Keeps (if b then m else k)
if-Keeps true m k h g = h
if-Keeps false m k h g = g

release_blocks-Keeps : (n : Inode) (i rounds : ℕ) → Keeps (release_blocks n i rounds)
unfolding release_blocks
release_blocks-Keeps n i zero = search keeps
release_blocks-Keeps n i (suc rounds) =
    bind-Keeps (lift (ptr_at n i)) (λ p. release p >> release_blocks n (i + 1) rounds)
      (lift-Keeps (ptr_at n i))
      (λ p.
        then-Keeps (release p) (release_blocks n (i + 1) rounds)
          (if-Keeps (p == 0) (lift (ok tt)) (clear_bit p) (lift-Keeps (ok tt)) (clear_bit-Keeps p))
          (release_blocks-Keeps n (i + 1) rounds))

fs_unlink-Keeps : (path : List ℕ) → Keeps (fs_unlink path)
unfolding fs_unlink
fs_unlink-Keeps path =
    search (keeps, parent_dir-Keeps, remove_entry-Keeps, release_blocks-Keeps) depth 11

fs_rmdir-Keeps : (path : List ℕ) → Keeps (fs_rmdir path)
unfolding fs_rmdir
fs_rmdir-Keeps path = search (keeps, parent_dir-Keeps, remove_entry-Keeps) depth 12

fs_chmod-Keeps : (path : List ℕ) (mode : ℕ) → Keeps (fs_chmod path mode)
unfolding fs_chmod
fs_chmod-Keeps path mode = search keeps

fs_utime-Keeps : (path : List ℕ) (modtime : ℕ) → Keeps (fs_utime path modtime)
unfolding fs_utime
fs_utime-Keeps path modtime = search keeps

fs_truncate-Keeps : (env : Env) (path : List ℕ) (len : ℕ) → Keeps (fs_truncate env path len)
unfolding fs_truncate
fs_truncate-Keeps env path len = search (keeps, release_blocks-Keeps) depth 9

rename_in-Keeps :
    (dst : Name) (lba : ℕ) (b : Block) (seen : Bool) (o : Option ℕ) (k : M (Unit {0}))
    → Keeps k
    → Keeps (rename_in dst lba b seen o k)
unfolding rename_in
rename_in-Keeps dst lba b seen none k h = h
rename_in-Keeps dst lba b true (some x) k h = search keeps
rename_in-Keeps dst lba b false (some x) k h = search keeps

rename_from-Keeps :
    (src dst : Name) (parent : Inode) (seen : Bool) (i rounds : ℕ)
    → Keeps (rename_from src dst parent seen i rounds)
unfolding rename_from
rename_from-Keeps src dst parent seen i zero = search keeps
rename_from-Keeps src dst parent seen i (suc rounds) =
    let next = λ (b : Block). seen_in seen (find_slot (is_other src dst b) 0 entry_count) in
    let renames = λ (lba : ℕ) (b : Block).
      rename_in dst lba b (next b) (last_slot (is_named src b) 0 entry_count)
        (rename_from src dst parent (next b) (i + 1) rounds) in
    let inside = λ (b : Block). within (stays_inside src dst b) in
    bind-Keeps (lift (ptr_at parent i))
      (λ lba. reads (λ s. block_read s.dev lba) >>= λ b. lift (inside b) >> renames lba b)
      (lift-Keeps (ptr_at parent i))
      (λ lba.
        bind-Keeps (reads (λ s. block_read s.dev lba)) (λ b. lift (inside b) >> renames lba b)
          (reads-Keeps (λ s. block_read s.dev lba))
          (λ b. then-Keeps (lift (inside b)) (renames lba b) (lift-Keeps (inside b)) (
            rename_in-Keeps dst lba b (next b) (last_slot (is_named src b) 0 entry_count)
              (rename_from src dst parent (next b) (i + 1) rounds)
              (rename_from-Keeps src dst parent (next b) (i + 1) rounds))))

fs_rename-Keeps : (src_path dst_path : List ℕ) → Keeps (fs_rename src_path dst_path)
unfolding fs_rename
fs_rename-Keeps src_path dst_path = search (keeps, rename_from-Keeps) depth 12

grow-Keeps : (n : Inode) (i rounds : ℕ) → Keeps (grow n i rounds)
unfolding grow
grow-Keeps n i zero = search keeps
grow-Keeps n i (suc rounds) =
    let next = λ (m : Inode). grow m (i + 1) rounds in
    let put = λ (p : ℕ). lift (set_ptr n i p) >>= next in
    let mark = λ (p : ℕ). set_bit p >> put p in
    bind-Keeps (reads (λ s. first_free s.bitmap s.super.disk_size))
      (λ p. require (not (p == 0)) enospc >> mark p)
      (reads-Keeps (λ s. first_free s.bitmap s.super.disk_size))
      (λ p.
        then-Keeps (require (not (p == 0)) enospc) (mark p) (require-Keeps (not (p == 0)) enospc) (
          then-Keeps (set_bit p) (put p) (set_bit-Keeps p) (
            bind-Keeps (lift (set_ptr n i p)) next (lift-Keeps (set_ptr n i p))
              (λ m. grow-Keeps m (i + 1) rounds))))

write_loop-Keeps :
    (n : Inode) (at : ℕ) (buf : List ℕ) (r fuel : ℕ) → Keeps (write_loop n at buf r fuel)
unfolding write_loop
write_loop-Keeps n at buf zero fuel = search keeps
write_loop-Keeps n at buf (suc r) zero = search keeps
write_loop-Keeps n at buf (suc r) (suc fuel) =
    let k = chunk at (suc r) in
    let rest = write_loop n (at + k) (drop k buf) (suc r - k) fuel in
    let put = λ (lba : ℕ) (b : Block). write_block lba (patch b (at % 4096) buf k) >> rest in
    bind-Keeps (lift (ptr_at n (at / 4096))) (λ lba. old_block at k lba >>= put lba)
      (lift-Keeps (ptr_at n (at / 4096)))
      (λ lba.
        bind-Keeps (old_block at k lba) (put lba)
          (if-Keeps (ltb 0 (at % 4096) || ltb k 4096) (reads (λ s. block_read s.dev lba))
            (lift (ok zero_block)) (reads-Keeps (λ s. block_read s.dev lba))
            (lift-Keeps (ok zero_block)))
          (λ b.
            then-Keeps (write_block lba (patch b (at % 4096) buf k)) rest
              (write_block-Keeps lba (patch b (at % 4096) buf k))
              (write_loop-Keeps n (at + k) (drop k buf) (suc r - k) fuel)))

save_if-Keeps : (b : Bool) → Keeps (save_if b)
save_if-Keeps true = save_bitmap-Keeps
save_if-Keeps false = search keeps

write_at-Keeps :
    (env : Env) (inum : ℕ) (n : Inode) (buf : List ℕ) (offset : ℕ)
    → Keeps (write_at env inum n buf offset)
unfolding write_at
write_at-Keeps env inum n buf offset =
    search (keeps, grow-Keeps, write_loop-Keeps, save_if-Keeps) depth 11

fs_write-Keeps : (env : Env) (path buf : List ℕ) (offset : ℕ) → Keeps (fs_write env path buf offset)
unfolding fs_write
fs_write-Keeps env path buf offset = search (keeps, write_at-Keeps) depth 9

call-SameSuper : (env : Env) (c : Call) (s : State) → 0 < s.dev.blocks → SameSuper s (call env c s)
unfolding call
call-SameSuper env (Call.create path mode) = fs_create-Keeps env path mode
call-SameSuper env (Call.mkdir path mode) = fs_mkdir-Keeps env path mode
call-SameSuper env (Call.chmod path mode) = fs_chmod-Keeps path mode
call-SameSuper env (Call.utime path modtime) = fs_utime-Keeps path modtime
call-SameSuper env (Call.truncate path len) = fs_truncate-Keeps env path len
call-SameSuper env (Call.unlink path) = fs_unlink-Keeps path
call-SameSuper env (Call.rmdir path) = fs_rmdir-Keeps path
call-SameSuper env (Call.rename src_path dst_path) = fs_rename-Keeps src_path dst_path
call-SameSuper env (Call.write path buf offset) = fs_write-Keeps env path buf offset

-- No session, whatever its calls and however they end, changes block 0 of the image, where the
-- superblock is, or the superblock in memory; the image does not become empty.
pub session-SameSuper :
    (cs : List (Env × Call)) (s : State) → 0 < s.dev.blocks → SameSuper s (session cs s)
unfolding session
session-SameSuper [] s h = SameSuper-refl s h
session-SameSuper ((env, c) ∷ cs) s h =
    let first = call-SameSuper env c s h in
    SameSuper-trans s (call env c s) (session cs (call env c s)) first
      (session-SameSuper cs (call env c s) first.there)
