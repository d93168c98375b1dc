-- ===== src/Layout/Touched.antt =====
-- fs_utime and fs_chmod on a consistent image.
use cs5600_project_3_file_sy.Common.{ℕ, ◌%◌, ◌^◌, ◌≤◌, ◌≡◌, refl, arith, List, length}
use cs5600_project_3_file_sy.Disk.{Block, Device}
use cs5600_project_3_file_sy.Format.{Inode, is_dir, encode_inode}
use cs5600_project_3_file_sy.Format.Inodes.{IsInode, decode_inode-IsInode}
use cs5600_project_3_file_sy.Path.{pathparse}
use cs5600_project_3_file_sy.Translate.{translate}
use cs5600_project_3_file_sy.Attr.{fs_utime, fs_chmod, chmod_mode}
use cs5600_project_3_file_sy.State.{State, write_block}
use cs5600_project_3_file_sy.State.After.{After-write_block}
use cs5600_project_3_file_sy.State.Runs.{put}
use cs5600_project_3_file_sy.Layout.{Kind, IsInodeKind, inode_at, IsConsistent, Consistent}
use cs5600_project_3_file_sy.Layout.Frame.{meta_owned}
use cs5600_project_3_file_sy.Layout.Walk.{LedTo, Sound-translate, inode-IsMeta, meta_small}
use cs5600_project_3_file_sy.Layout.Resaved.{same_extent-IsConsistent}
use cs5600_project_3_file_sy.Layout.Modes.{is_dir-chmod_mode, chmod_mode_fits}
use cs5600_project_3_file_sy.Layout.Steps.{Stays, Consistent_intro, After-Sound}

-- A path of at most nine components.
abbrev pub IsShort : List ℕ → Type 0
IsShort path = length (pathparse path) ≤ 9

pub inode_at-IsInode : (d : Device) (x : ℕ) → IsInode (inode_at d x)
inode_at-IsInode d x = decode_inode-IsInode (d.store x)

module _ (kind : ℕ → Kind) (home : ℕ → ℕ × ℕ) (s : State) (c : IsConsistent kind home s) where
  -- The write of a whole inode, after which the owners may be others.
  pub After-write_inode :
      (x : ℕ) (b : Block)
      → IsInodeKind (kind x)
      → Consistent (record s { dev = put s.dev x b })
      → Stays (write_block x b) s
  After-write_inode x b inode goes =
      let meta = inode-IsMeta (kind x) inode in
      After-write_block x b (λ _ t. Consistent t) Consistent s
        (omega (arith, (c.in_range x (meta_owned (kind x) meta)).0))
        (omega (arith, meta_small kind home s c x meta)) (Consistent_intro kind home s c)
        (λ good. goes)

  After-touch :
      (x : ℕ) (n : Inode)
      → IsInodeKind (kind x)
      → IsInode n
      → is_dir n.mode ≡ is_dir (inode_at s.dev x).mode
      → n.size ≡ (inode_at s.dev x).size
      → n.ptrs ≡ (inode_at s.dev x).ptrs
      → Stays (write_block x (encode_inode n)) s
  After-touch x n inode fits type size ptrs = After-write_inode x (encode_inode n) inode (
      Consistent_intro kind home (record s { dev = put s.dev x (encode_inode n) })
        (same_extent-IsConsistent kind home s c x n fits inode type size ptrs))

-- On a consistent image, fs_utime and fs_chmod with a path of at most nine components do not crash
-- and leave a consistent image, whether they succeed or fail.
pub fs_utime-Consistent :
    (path : List ℕ) (modtime : ℕ) (s : State)
    → IsShort path
    → Consistent s
    → Stays (fs_utime path modtime) s
unfolding fs_utime
fs_utime-Consistent path modtime s short (kind, home, c) =
    let touched =
      λ (p : ℕ × Inode). write_block p.0 (encode_inode (record p.1 { mtime = modtime % 2 ^ 32 })) in
    After-Sound Consistent (λ (_ : Unit {0}) t. Consistent t) (LedTo kind home s c)
      (λ s. translate s.dev path) touched s (Sound-translate kind home s c path short)
      (Consistent_intro kind home s c)
      (λ (x, n) (inode, same) e.
        let old = inode_at-IsInode s.dev x in
        rw same (
          After-touch kind home s c x (record (inode_at s.dev x) { mtime = modtime % 2 ^ 32 }) inode
            (record {
              uid_fits = old.uid_fits;
              gid_fits = old.gid_fits;
              mode_fits = old.mode_fits;
              ctime_fits = old.ctime_fits;
              mtime_fits = omega arith;
              size_fits = old.size_fits;
              ptrs_fit = old.ptrs_fit;
            })
            refl refl refl))

pub fs_chmod-Consistent :
    (path : List ℕ) (mode : ℕ) (s : State)
    → IsShort path
    → Consistent s
    → Stays (fs_chmod path mode) s
unfolding fs_chmod
fs_chmod-Consistent path mode s short (kind, home, c) =
    let touched = λ (p : ℕ × Inode).
      write_block p.0 (encode_inode (record p.1 { mode = chmod_mode p.1.mode mode })) in
    After-Sound Consistent (λ (_ : Unit {0}) t. Consistent t) (LedTo kind home s c)
      (λ s. translate s.dev path) touched s (Sound-translate kind home s c path short)
      (Consistent_intro kind home s c)
      (λ (x, n) (inode, same) e.
        let old = inode_at-IsInode s.dev x in
        let m = (inode_at s.dev x).mode in
        rw same (
          After-touch kind home s c x (record (inode_at s.dev x) { mode = chmod_mode m mode }) inode
            (record {
              uid_fits = old.uid_fits;
              gid_fits = old.gid_fits;
              mode_fits = chmod_mode_fits m mode;
              ctime_fits = old.ctime_fits;
              mtime_fits = old.mtime_fits;
              size_fits = old.size_fits;
              ptrs_fit = old.ptrs_fit;
            })
            (is_dir-chmod_mode m mode) refl refl))
