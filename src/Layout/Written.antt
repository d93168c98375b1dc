-- ===== src/Layout/Written.antt =====
-- fs_write on a consistent image.
use cs5600_project_3_file_sy.Common.{
  ℕ, ◌+◌, ◌-◌, ◌*◌, ◌/◌, ◌%◌, ◌^◌, ◌≤◌, ◌≡◌, refl, sym, ap, ◌∙◌, Bool, true, false, not, arith,
  List, length, lt→ltb, ltb, max,
}
use cs5600_project_3_file_sy.Common.Int.{pos}
use cs5600_project_3_file_sy.Outcome.{ok, eisdir, einval}
use cs5600_project_3_file_sy.Format.{Inode, is_dir, encode_inode}
use cs5600_project_3_file_sy.Format.Inodes.{IsInode}
use cs5600_project_3_file_sy.Translate.{translate}
use cs5600_project_3_file_sy.State.{State, Env, ◌>>◌, lift, require, write_block, save_bitmap}
use cs5600_project_3_file_sy.State.After.{After-bind, After-require, After-write_block}
use cs5600_project_3_file_sy.State.Runs.{put}
use cs5600_project_3_file_sy.Write.{
  grow, write_loop, write_at, blocks_of, blocks_needed, size_t_of, past_end, resized, save_if,
  fs_write,
}
use cs5600_project_3_file_sy.Layout.{
  file_inode, dir_inode, IsInodeKind, inode_at, IsFileInode, IsConsistent, Consistent,
}
use cs5600_project_3_file_sy.Layout.Frame.{meta_owned}
use cs5600_project_3_file_sy.Layout.Filled.{After-write_loop}
use cs5600_project_3_file_sy.Layout.Grown.{IsGrown, After-grow}
use cs5600_project_3_file_sy.Layout.Resaved.{encode_inode-IsConsistent}
use cs5600_project_3_file_sy.Layout.Touched.{IsShort, inode_at-IsInode}
use cs5600_project_3_file_sy.Layout.Walk.{LedTo, Sound-translate, inode-IsFileInode}
use cs5600_project_3_file_sy.Layout.Steps.{
  Stays, Same, Consistent_intro, After-Sound, After-kept, After-save,
}

-- The file at which a write is aimed has room for it, and the write ends in its last block or
-- behind it.
pub record IsWritten (s : State) (path buf : List ℕ) (offset : ℕ) : Type 0 where
  pub short : IsShort path
  pub room : offset + length buf ≤ 1019 * 4096
  pub last :
      (x : ℕ) (n : Inode) (size : ℕ)
      → translate s.dev path ≡ ok (x, n)
      → n.size ≡ pos size
      → (size + 4095) / 4096 ≤ (offset + length buf + 4095) / 4096

-- The numbers of blocks that fs_write compares.
blocks_are :
    (size total : ℕ)
    → total ≤ 1019 * 4096
    → (size + 4095) / 4096 ≤ (total + 4095) / 4096
    → (blocks_of size ≡ (size + 4095) / 4096)
      × (blocks_of (total % 2 ^ 64) ≡ (total + 4095) / 4096)
      × (blocks_needed ((total + 4095) / 4096) ((size + 4095) / 4096)
          ≡ (total + 4095) / 4096 - (size + 4095) / 4096)
unfolding blocks_needed
blocks_are size total room last = (omega arith, omega arith, omega arith)

module _ (env : Env) (home : ℕ → ℕ × ℕ) (x : ℕ) (m : Inode) (type : is_dir m.mode ≡ false)
    (fits : IsInode m) (size : ℕ) (size_is : m.size ≡ pos size) (offset : ℕ) (buf : List ℕ)
    (room : offset + length buf ≤ 1019 * 4096)
    (last : (size + 4095) / 4096 ≤ (offset + length buf + 4095) / 4096) where
  abbrev total : ℕ
  total = offset + length buf

  abbrev new_blocks : ℕ
  new_blocks = (total + 4095) / 4096

  new_size :
      (g : Inode) → g.size ≡ pos size → (resized env (total % 2 ^ 64) g).size ≡ pos (max size total)
  new_size g e =
      let w : max size (total % 2 ^ 64) % 2 ^ 32 ≡ max size total = omega arith in
      rw (e, w, lt→ltb (max size total) (2 ^ 31) (omega arith)) refl

  module _ (g : Inode) (t : State) (h : IsGrown home x m g new_blocks t) where
    same_size : g.size ≡ pos size
    same_size = ap (λ (n : Inode). n.size) h.rest_same ∙ size_is

    resized-IsInode : IsInode (resized env (total % 2 ^ 64) g)
    resized-IsInode = record {
      uid_fits = rw h.rest_same fits.uid_fits;
      gid_fits = rw h.rest_same fits.gid_fits;
      mode_fits = rw h.rest_same fits.mode_fits;
      ctime_fits = rw h.rest_same fits.ctime_fits;
      mtime_fits = omega arith;
      size_fits = rw (new_size g same_size) (omega arith);
      ptrs_fit = h.ptrs_fit;
    }

    resized-IsFileInode : IsFileInode h.kind (resized env (total % 2 ^ 64) g) x
    resized-IsFileInode = record {
      no_directory = rw h.rest_same type;
      size = max size total;
      size_is = new_size g same_size;
      small = omega arith;
      owns = λ j l. h.owns j (omega arith);
    }

    After-save_if :
        (b : Bool) (u : State)
        → IsConsistent h.kind home u
        → Stays (save_if b >> lift (ok (length buf))) u
    After-save_if true u c =
        After-kept h.kind home (Same h.kind home) (λ _. lift (ok (length buf))) save_bitmap u
          (After-save h.kind home u c) (λ _ v d. Consistent_intro h.kind home v d)
    After-save_if false u c = Consistent_intro h.kind home u c

    After-filled :
        (b : Bool)
        → Stays
            (write_loop g offset buf (length buf) (length buf)
              >> (write_block x (encode_inode (resized env (total % 2 ^ 64) g))
                  >> (save_if b >> lift (ok (length buf)))))
            t
    After-filled b =
        let new = encode_inode (resized env (total % 2 ^ 64) g) in
        let saved = save_if b >> lift (ok (length buf)) in
        let inode : IsInodeKind (h.kind x) = rw h.is_file tt in
        After-kept h.kind home (Same h.kind home) (λ _. write_block x new >> saved)
          (write_loop g offset buf (length buf) (length buf)) t
          (After-write_loop h.kind home x new_blocks g (omega arith) h.owns offset (length buf)
            (length buf) buf t (omega arith) (omega arith) h.consistent)
          (λ _ u c.
            let v : State = record u { dev = put u.dev x new } in
            let owned = c.in_range x (meta_owned (h.kind x) (rw h.is_file tt)) in
            After-bind (λ _ w. IsConsistent h.kind home w) Consistent (λ (_ : ℕ) w. Consistent w)
              (λ (_ : Unit {0}). saved) (write_block x new) u
              (After-write_block x new (λ _ w. IsConsistent h.kind home w) Consistent u
                (omega (arith, owned.0)) (omega (arith, owned.1, c.covered))
                (Consistent_intro h.kind home u c)
                (λ good.
                  encode_inode-IsConsistent h.kind home u c x (resized env (total % 2 ^ 64) g)
                    resized-IsInode inode
                    (λ d e. let clash : file_inode ≡ dir_inode d = sym h.is_file ∙ e in cc)
                    (λ _. resized-IsFileInode)))
              (λ _ w d. After-save_if b w d))

  After-write_at :
      (s : State)
      → IsGrown home x m m ((size + 4095) / 4096) s
      → Stays (write_at env x m buf offset) s
  unfolding write_at
  After-write_at s h =
      let (current, wanted, needed) = blocks_are size total room last in
      let current_is : blocks_of (size_t_of m.size) ≡ (size + 4095) / 4096 =
        ap (λ z. blocks_of (size_t_of z)) size_is ∙ current in
      let rounds : blocks_needed (blocks_of (total % 2 ^ 64)) (blocks_of (size_t_of m.size))
          ≡ new_blocks - (size + 4095) / 4096 =
        rw (wanted, current_is) needed in
      let b : Bool = ltb (blocks_of (size_t_of m.size)) (blocks_of (total % 2 ^ 64)) in
      let filled = λ (g : Inode).
        write_loop g offset buf (length buf) (length buf)
        >> (write_block x (encode_inode (resized env (total % 2 ^ 64) g))
            >> (save_if b >> lift (ok (length buf)))) in
      let sum : (size + 4095) / 4096 + (new_blocks - (size + 4095) / 4096) ≡ new_blocks =
        omega arith in
      let Q = λ (g : Inode) (t : State). IsGrown home x m g new_blocks t in
      let grown =
        After-grow home x m m ((size + 4095) / 4096) (new_blocks - (size + 4095) / 4096) s
          (omega arith) h in
      After-bind Q Consistent (λ (_ : ℕ) t. Consistent t) filled
        (grow m (blocks_of (size_t_of m.size))
          (blocks_needed (blocks_of (total % 2 ^ 64)) (blocks_of (size_t_of m.size))))
        s (rw (rounds, current_is) (rw sum at grown)) (λ g t d. After-filled g t d b)

-- On a consistent image, a write at a path of at most nine components that fits the 1019 blocks of a
-- file and ends in the last block of the file or behind it does not crash and leaves a consistent
-- image, whether it succeeds or fails.
pub fs_write-Consistent :
    (env : Env) (path buf : List ℕ) (offset : ℕ) (s : State)
    → IsWritten s path buf offset
    → Consistent s
    → Stays (fs_write env path buf offset) s
unfolding fs_write
fs_write-Consistent env path buf offset s h (kind, home, c) =
    let R = λ (_ : ℕ) (t : State). Consistent t in
    let kept = Consistent_intro kind home s c in
    let written = λ (p : ℕ × Inode). write_at env p.0 p.1 buf offset in
    let within = λ (p : ℕ × Inode). require (not (past_end offset p.1.size)) einval >> written p in
    let checked = λ (p : ℕ × Inode). require (not (is_dir p.1.mode)) eisdir >> within p in
    After-Sound Consistent R (LedTo kind home s c) (λ s. translate s.dev path) checked s
      (Sound-translate kind home s c path h.short) kept
      (λ (x, n) (inode, same) e.
        After-require Consistent R (not (is_dir n.mode)) eisdir (within (x, n)) s kept (λ file.
          After-require Consistent R (not (past_end offset n.size)) einval (written (x, n)) s kept
            (λ _.
              let is_file : is_dir (inode_at s.dev x).mode ≡ false = rw (← same) (ground arith) in
              let (is, f) = inode-IsFileInode kind home s c x inode is_file in
              let size_is : n.size ≡ pos f.size = ap (λ (m : Inode). m.size) same ∙ f.size_is in
              rw same (
                After-write_at env home x (inode_at s.dev x) is_file (inode_at-IsInode s.dev x)
                  f.size f.size_is offset buf h.room (h.last x n f.size e size_is) s
                  (record {
                    kind = kind;
                    consistent = c;
                    is_file = is;
                    owns = f.owns;
                    ptrs_fit = (inode_at-IsInode s.dev x).ptrs_fit;
                    rest_same = refl;
                  })))))
