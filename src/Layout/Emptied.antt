-- ===== src/Layout/Emptied.antt =====
-- fs_truncate on a consistent image.
use cs5600_project_3_file_sy.Common.{
  ℕ, ◌+◌, ◌/◌, ◌<◌, ◌≡◌, ◌≢◌, refl, sym, ap, ◌∙◌, false, not, arith, List, inl, ◌==◌,
}
use cs5600_project_3_file_sy.Outcome.{ok, einval, eisdir}
use cs5600_project_3_file_sy.Disk.{Block}
use cs5600_project_3_file_sy.Format.{Inode, is_dir, encode_inode}
use cs5600_project_3_file_sy.Format.Inodes.{IsInode}
use cs5600_project_3_file_sy.Translate.{translate}
use cs5600_project_3_file_sy.Remove.{file_blocks, release_blocks}
use cs5600_project_3_file_sy.Attr.{emptied, fs_truncate}
use cs5600_project_3_file_sy.State.{
  State, Env, ◌>>=◌, ◌>>◌, reads, require, write_block, clear_bit, save_bitmap,
}
use cs5600_project_3_file_sy.State.After.{
  After, After-bind, After-same, After-require, After-clear_bit,
}
use cs5600_project_3_file_sy.State.Runs.{put, write_block-to}
use cs5600_project_3_file_sy.Layout.{
  Kind, unowned, file_inode, dir_inode, IsInodeKind, inode_at, IsFileInode, IsConsistent,
  Consistent,
}
use cs5600_project_3_file_sy.Layout.Frame.{meta_owned, frame-without_bit}
use cs5600_project_3_file_sy.Layout.Disowned.{shed, shed-IsConsistent}
use cs5600_project_3_file_sy.Layout.Released.{file_blocks_is, shed-AreFree, After-release_blocks}
use cs5600_project_3_file_sy.Layout.Resaved.{encode_inode-IsConsistent, inode_at-put}
use cs5600_project_3_file_sy.Layout.Touched.{IsShort, inode_at-IsInode}
use cs5600_project_3_file_sy.Layout.Walk.{LedTo, Sound-translate, inode-IsFileInode}
use cs5600_project_3_file_sy.Layout.Steps.{
  Stays, Same, kept-Stays, Consistent_intro, After-Sound, After-kept, After-save,
}

module _ (env : Env) (kind : ℕ → Kind) (home : ℕ → ℕ × ℕ) (s : State) (c : IsConsistent kind home s)
    (x : ℕ) (is : kind x ≡ file_inode) (good : s.dev.bad_write x ≡ false) where
  abbrev n : Inode
  n = inode_at s.dev x

  abbrev new : Block
  new = encode_inode (emptied env n)

  emptied-IsInode : IsInode (emptied env n)
  emptied-IsInode =
      let old = inode_at-IsInode s.dev x in
      record {
        uid_fits = old.uid_fits;
        gid_fits = old.gid_fits;
        mode_fits = old.mode_fits;
        ctime_fits = old.ctime_fits;
        mtime_fits = omega arith;
        size_fits = omega arith;
        ptrs_fit = λ i. omega arith;
      }

  emptied-IsFileInode : (kind' : ℕ → Kind) → IsFileInode kind' (emptied env n) x
  emptied-IsFileInode kind' = record {
    no_directory = (c.files x is).no_directory;
    size = 0;
    size_is = refl;
    small = omega arith;
    owns = λ j l. absurd (omega arith);
  }

  abbrev less : ℕ → Kind
  less = shed kind x file_inode

  -- With the new inode the image is consistent, whatever bits of the old blocks are cleared.
  abbrev ToWrite : State → Type 0
  ToWrite t = IsConsistent less home (record t { dev = put t.dev x new }) × (t.dev ≡ s.dev)

  before_write : ToWrite s
  before_write =
      let inode : IsInodeKind (kind x) = rw is tt in
      let u : State = record s { dev = put s.dev x new } in
      let d : IsConsistent kind home u =
        encode_inode-IsConsistent kind home s c x (emptied env n) emptied-IsInode inode
          (λ e q. let clash : file_inode ≡ dir_inode e = sym is ∙ q in cc)
          (λ q. emptied-IsFileInode kind) in
      let ne : x ≢ 2 =
        λ z. let clash : file_inode ≡ dir_inode c.root.0 = sym is ∙ ap kind z ∙ c.root.1 in cc in
      (
        shed-IsConsistent kind home u d x file_inode inode ne (λ o. (refl, is))
            (λ q.
              rw (inode_at-put s.dev x (emptied env n) emptied-IsInode) (emptied-IsFileInode less))
            (inl tt),
        refl,
      )

  frees :
      (t : State) (p : ℕ)
      → ToWrite t
      → less p ≡ unowned
      → p < 32768
      → After (λ (_ : Unit {0}) u. ToWrite u) Consistent (clear_bit p t)
  frees t p (d, same) free small =
      let u : State = record t { dev = put t.dev x new } in
      After-clear_bit p d.map (λ (_ : Unit {0}) u. ToWrite u) Consistent t d.loaded small
        (frame-without_bit less home u p d.map d d.loaded free, same)

  -- The write of the inode, which does not fail, and what follows.
  After-rewrite : (t : State) → ToWrite t → Stays (write_block x new >> save_bitmap) t
  After-rewrite t (d, same) =
      let u : State = record t { dev = put t.dev x new } in
      let owned = c.in_range x (meta_owned (kind x) (rw is tt)) in
      let ran = write_block-to x new t (record {
        positive = omega (arith, owned.0);
        addressable = omega (arith, owned.1, c.covered);
        good = rw same good;
      }) in
      After-kept less home (Same less home) (λ _. save_bitmap) (write_block x new) t
        (After-same (Same less home) (IsConsistent less home) (write_block x new t) (ok tt, u) ran
          d)
        (λ _ v e. kept-Stays less home save_bitmap v (After-save less home v e))

  After-emptied :
      Stays (release_blocks n 0 (file_blocks n.size) >> (write_block x new >> save_bitmap)) s
  After-emptied =
      let h = c.files x is in
      let free = shed-AreFree kind home s x file_inode n c (rw is tt) h in
      let P = λ (_ : Unit {0}) (u : State). ToWrite u in
      let rest = write_block x new >> save_bitmap in
      let released =
        After-release_blocks less ToWrite Consistent frees n 0 ((h.size + 4095) / 4096) s
          (omega (arith, h.small)) (λ j l. free j (omega (arith, l))) before_write in
      After-bind P Consistent (λ (_ : Unit {0}) t. Consistent t) (λ _. rest)
        (release_blocks n 0 (file_blocks n.size)) s (rw (file_blocks_is kind n x h) released)
        (λ _ t e. After-rewrite t e)

-- On a consistent image, fs_truncate of a path of at most nine components, where the block of the
-- inode can be written, does not crash and leaves a consistent image, whether it succeeds or fails.
pub fs_truncate-Consistent :
    (env : Env) (path : List ℕ) (len : ℕ) (s : State)
    → IsShort path
    → ((x : ℕ) (n : Inode) → translate s.dev path ≡ ok (x, n) → s.dev.bad_write x ≡ false)
    → Consistent s
    → Stays (fs_truncate env path len) s
unfolding fs_truncate
fs_truncate-Consistent env path len s short good (kind, home, c) =
    let R = λ (_ : Unit {0}) (t : State). Consistent t in
    let kept = Consistent_intro kind home s c in
    let emptied_at = λ (p : ℕ × Inode).
      release_blocks p.1 0 (file_blocks p.1.size)
      >> (write_block p.0 (encode_inode (emptied env p.1)) >> save_bitmap) in
    let checked = λ (p : ℕ × Inode). require (not (is_dir p.1.mode)) eisdir >> emptied_at p in
    let found = reads (λ (s : State). translate s.dev path) >>= checked in
    After-require Consistent R (len == 0) einval found s kept (λ z.
      After-Sound Consistent R (LedTo kind home s c) (λ s. translate s.dev path) checked s
        (Sound-translate kind home s c path short) kept
        (λ (x, n) (inode, same) e.
          After-require Consistent R (not (is_dir n.mode)) eisdir (emptied_at (x, n)) s kept
            (λ file.
              let is_file : is_dir (inode_at s.dev x).mode ≡ false = rw (← same) (ground arith) in
              let (is, h) = inode-IsFileInode kind home s c x inode is_file in
              rw same (After-emptied env kind home s c x is (good x n e)))))
