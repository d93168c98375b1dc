-- ===== src/Attr/Shown.antt =====
-- fs_chmod and fs_utime run forward, and what fs_getattr then gives.
use cs5600_project_3_file_sy.Common.{
  ℕ, ◌+◌, ◌*◌, ◌/◌, ◌%◌, ◌^◌, ◌<◌, ◌≡◌, ◌≢◌, refl, ap, ◌∙◌, List, arith,
}
use cs5600_project_3_file_sy.Outcome.{ok, ◌>>=◌}
use cs5600_project_3_file_sy.Format.{Inode, encode_inode}
use cs5600_project_3_file_sy.Format.Inodes.{
  IsInode, decode_inode-IsInode, decode_inode-encode_inode,
}
use cs5600_project_3_file_sy.Path.{pathparse}
use cs5600_project_3_file_sy.Dir.{read_inode}
use cs5600_project_3_file_sy.Translate.{start, translate}
use cs5600_project_3_file_sy.Translate.Frame.{SameOn, Trail, translate-frame}
use cs5600_project_3_file_sy.State.{State, write_block}
use cs5600_project_3_file_sy.State.Runs.{reads-to, put, IsWritable, write_block-to}
use cs5600_project_3_file_sy.Query.{setstat, fs_getattr}
use cs5600_project_3_file_sy.Write.Loop.{stored_ne, stored_self}
use cs5600_project_3_file_sy.Write.Reread.{block_read-same, read_again, translate-inode}
use cs5600_project_3_file_sy.Layout.Modes.{chmod_mode_lem}
use cs5600_project_3_file_sy.Attr.{chmod_mode, fs_chmod, fs_utime}
use cs5600_project_3_file_sy.Attr.Rewritten.{Rewritten, write_block-Rewritten}

-- Another block of the image than the inode's.
abbrev pub IsOther : State → ℕ → ℕ → Type 0
IsOther s inum k = (k < s.dev.blocks) × (k ≢ inum)

-- What translate has read is an inode whose fields fit.
found-IsInode :
    (path : List ℕ) (inum : ℕ) (n : Inode) (s : State)
    → translate s.dev path ≡ ok (inum, n)
    → IsInode n
found-IsInode path inum n s e =
    let (b, read, is) = translate-inode s.dev path inum n e in rw is (decode_inode-IsInode b)

-- The inode of the path is written again.
module _ (path : List ℕ) (inum : ℕ) (n n' : Inode) (s : State)
    (led : translate s.dev path ≡ ok (inum, n)) (fits : IsInode n') (can : IsWritable s.dev inum)
    (trail : Trail (IsOther s inum) s.dev (pathparse path) start) where
  abbrev rewritten : State
  rewritten = record s { dev = put s.dev inum (encode_inode n') }

  wrote : write_block inum (encode_inode n') s ≡ (ok tt, rewritten)
  wrote = write_block-to inum (encode_inode n') s can

  others_same : SameOn (IsOther s inum) s.dev rewritten.dev
  others_same k (inside, ne) =
      block_read-same s.dev rewritten.dev k inside (omega arith)
        (stored_ne s.dev inum k (encode_inode n') ne inside) refl

  inode_again : read_inode rewritten.dev inum ≡ ok n'
  unfolding read_inode
  inode_again =
      let (b, read, is) = translate-inode s.dev path inum n led in
      let here = read_again s.dev rewritten.dev inum b read (omega arith) refl in
      rw (here, stored_self s.dev inum (encode_inode n'))
        (ap ok (decode_inode-encode_inode n' fits))

  shown : fs_getattr rewritten path ≡ ok (setstat n')
  unfolding fs_getattr
  shown =
      ap (λ r. r >>= λ (p : ℕ × Inode). ok (setstat p.1))
        (translate-frame (IsOther s inum) s.dev rewritten.dev path inum n n' others_same trail led
          inode_again)

-- Where the block of the inode that the path leads to can be written, and the way to it runs over
-- other blocks of the image, fs_chmod succeeds. fs_getattr then gives the attributes of before but for
-- the mode, which has the four type bits of the old mode and the nine permission bits of the argument;
-- the times stay. No other block of the image and nothing in memory changes.
pub fs_chmod-fs_getattr :
    (path : List ℕ) (mode inum : ℕ) (n : Inode) (s : State)
    → translate s.dev path ≡ ok (inum, n)
    → IsWritable s.dev inum
    → Trail (IsOther s inum) s.dev (pathparse path) start
    → (t : State) × (fs_chmod path mode s ≡ (ok tt, t))
      × (fs_getattr t path
          ≡ ok (record (setstat n) { st_mode = 4096 * (n.mode / 4096 % 16) + mode % 512 }))
      × Rewritten inum (record n { mode = 4096 * (n.mode / 4096 % 16) + mode % 512 }) s t
unfolding fs_chmod setstat
fs_chmod-fs_getattr path mode inum n s e can trail =
    let old = found-IsInode path inum n s e in
    let new : Inode = record n { mode = 4096 * (n.mode / 4096 % 16) + mode % 512 } in
    let fits : IsInode new = record {
      uid_fits = old.uid_fits;
      gid_fits = old.gid_fits;
      mode_fits = omega arith;
      ctime_fits = old.ctime_fits;
      mtime_fits = old.mtime_fits;
      size_fits = old.size_fits;
      ptrs_fit = old.ptrs_fit;
    } in
    let chmod = λ (r : ℕ × Inode).
      write_block r.0 (encode_inode (record (r.1) { mode = chmod_mode r.1.mode mode })) in
    let w = wrote path inum n new s e fits can trail in
    let t : State = record s { dev = put s.dev inum (encode_inode new) } in
    let goes : chmod (inum, n) s ≡ write_block inum (encode_inode new) s =
      ap (λ m. write_block inum (encode_inode (record n { mode = m })) s)
        (chmod_mode_lem n.mode mode) in
    (
      t,
      reads-to (λ s. translate s.dev path) chmod s (inum, n) e ∙ goes ∙ w,
      shown path inum n new s e fits can trail,
      write_block-Rewritten inum new s t w,
    )

-- Where the block of the inode that the path leads to can be written, and the way to it runs over
-- other blocks of the image, fs_utime succeeds. fs_getattr then gives the attributes of before but for
-- the times of access and modification, which are the low 32 bits of the time that it is given. No
-- other block of the image and nothing in memory changes.
pub fs_utime-fs_getattr :
    (path : List ℕ) (modtime inum : ℕ) (n : Inode) (s : State)
    → translate s.dev path ≡ ok (inum, n)
    → IsWritable s.dev inum
    → Trail (IsOther s inum) s.dev (pathparse path) start
    → (t : State) × (fs_utime path modtime s ≡ (ok tt, t))
      × (fs_getattr t path
          ≡ ok (record (setstat n) { st_atime = modtime % 2 ^ 32; st_mtime = modtime % 2 ^ 32 }))
      × Rewritten inum (record n { mtime = modtime % 2 ^ 32 }) s t
unfolding fs_utime setstat
fs_utime-fs_getattr path modtime inum n s e can trail =
    let old = found-IsInode path inum n s e in
    let new : Inode = record n { mtime = modtime % 2 ^ 32 } in
    let fits : IsInode new = record {
      uid_fits = old.uid_fits;
      gid_fits = old.gid_fits;
      mode_fits = old.mode_fits;
      ctime_fits = old.ctime_fits;
      mtime_fits = omega arith;
      size_fits = old.size_fits;
      ptrs_fit = old.ptrs_fit;
    } in
    let utime = λ (r : ℕ × Inode).
      write_block r.0 (encode_inode (record (r.1) { mtime = modtime % 2 ^ 32 })) in
    let w = wrote path inum n new s e fits can trail in
    let t : State = record s { dev = put s.dev inum (encode_inode new) } in
    (
      t,
      reads-to (λ s. translate s.dev path) utime s (inum, n) e ∙ w,
      shown path inum n new s e fits can trail,
      write_block-Rewritten inum new s t w,
    )
