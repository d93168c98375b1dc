-- ===== src/Layout/Resaved.antt =====
-- An inode is written again in its block.
use cs5600_project_3_file_sy.Common.{ℕ, ◌≡◌, ◌≢◌, sym, ap, ◌∙◌, arith, ℕ_discrete}
use cs5600_project_3_file_sy.Disk.{Device}
use cs5600_project_3_file_sy.Format.{Inode, encode_inode, decode_inode, is_dir}
use cs5600_project_3_file_sy.Format.Inodes.{IsInode, decode_inode-encode_inode}
use cs5600_project_3_file_sy.State.{State}
use cs5600_project_3_file_sy.State.Runs.{put}
use cs5600_project_3_file_sy.Write.Loop.{stored_ne, stored_self}
use cs5600_project_3_file_sy.Layout.{
  Kind, file_inode, dir_inode, dir_data, IsInodeKind, IsMeta, inode_at, IsDirInode, IsFileInode,
  IsConsistent,
}
use cs5600_project_3_file_sy.Layout.Frame.{IsMeta-dir, IsMeta-file, IsMeta-data}

pub inode_at-put :
    (d : Device) (x : ℕ) (n : Inode) → IsInode n → inode_at (put d x (encode_inode n)) x ≡ n
inode_at-put d x n fits =
    ap decode_inode (stored_self d x (encode_inode n)) ∙ decode_inode-encode_inode n fits

module _ (kind : ℕ → Kind) (home : ℕ → ℕ × ℕ) (s : State) (c : IsConsistent kind home s) (x : ℕ)
    (n : Inode) (fits : IsInode n) (inode : IsInodeKind (kind x)) where
  abbrev rewritten : State
  rewritten = record s { dev = put s.dev x (encode_inode n) }

  off_block : (k : ℕ) → IsMeta (kind k) → k ≢ x → rewritten.dev.store k ≡ s.dev.store k
  off_block k m ne = stored_ne s.dev x k (encode_inode n) ne (c.there k m)

  here : (i : ℕ) → i ≡ x → inode_at rewritten.dev i ≡ n
  here i q = ap (inode_at rewritten.dev) q ∙ inode_at-put s.dev x n fits

  -- The new inode owns what its kind says.
  pub encode_inode-IsConsistent :
      ((d : ℕ) → kind x ≡ dir_inode d → IsDirInode kind n x d)
      → (kind x ≡ file_inode → IsFileInode kind n x)
      → IsConsistent kind home rewritten
  encode_inode-IsConsistent dirs files = record {
    map = c.map;
    loaded = c.loaded;
    covered = c.covered;
    in_range = c.in_range;
    marked = c.marked;
    there = λ k m. omega (arith, c.there k m);
    root = c.root;
    dirs = λ i d e. elim (ℕ_discrete i x) [
      | yes q ↦ let new = dirs d (ap kind (sym q) ∙ e) in rw (here i q, q) new
      | no ne ↦
          let same = ap decode_inode (off_block i (IsMeta-dir (kind i) d e) ne) in
          rw same (c.dirs i d e)
    ];
    files = λ i e. elim (ℕ_discrete i x) [
      | yes q ↦ let new = files (ap kind (sym q) ∙ e) in rw (here i q, q) new
      | no ne ↦
          let same = ap decode_inode (off_block i (IsMeta-file (kind i) e) ne) in
          rw same (c.files i e)
    ];
    entries = λ i b k e l v.
        let ne : b ≢ x =
          λ q. let clash : IsInodeKind (dir_data i) = rw (← q, e) at inode in elim clash [ ] in
        let same = off_block b (IsMeta-data (kind b) i e) ne in
        rw same (c.entries i b k e l (rw same at v));
    ends = λ i b k e l v.
        let ne : b ≢ x =
          λ q. let clash : IsInodeKind (dir_data i) = rw (← q, e) at inode in elim clash [ ] in
        let same = off_block b (IsMeta-data (kind b) i e) ne in
        rw same (c.ends i b k e l (rw same at v));
  }

  -- A directory's inode that keeps its mode's type, its size and its block.
  module _ (is_same : is_dir n.mode ≡ is_dir (inode_at s.dev x).mode)
      (size_same : n.size ≡ (inode_at s.dev x).size)
      (ptrs_same : n.ptrs ≡ (inode_at s.dev x).ptrs) where
    pub same_extent-IsConsistent : IsConsistent kind home rewritten
    same_extent-IsConsistent =
        encode_inode-IsConsistent
          (λ d e.
            let old = c.dirs x d e in
            record {
              is_directory = is_same ∙ old.is_directory;
              one_block = size_same ∙ old.one_block;
              block_is = ap (λ p. p 0) ptrs_same ∙ old.block_is;
              owns = old.owns;
            })
          (λ e.
            let old = c.files x e in
            record {
              no_directory = is_same ∙ old.no_directory;
              size = old.size;
              size_is = size_same ∙ old.size_is;
              small = old.small;
              owns = λ j l. ap (λ p. kind (p j)) ptrs_same ∙ old.owns j l;
            })
