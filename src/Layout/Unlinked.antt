-- ===== src/Layout/Unlinked.antt =====
-- fs_unlink and fs_rmdir on a consistent image.
use cs5600_project_3_file_sy.Common.{ℕ, ◌+◌, ◌/◌, ◌≡◌, ◌≢◌, ap, ◌∙◌, true, false, not, arith, List}
use cs5600_project_3_file_sy.Outcome.{ok, eisdir, enotdir, enotempty}
use cs5600_project_3_file_sy.Disk.{Block, block_read}
use cs5600_project_3_file_sy.Format.{Inode, is_dir}
use cs5600_project_3_file_sy.Translate.{translate}
use cs5600_project_3_file_sy.Create.{parent_dir}
use cs5600_project_3_file_sy.Remove.{
  file_blocks, release_blocks, remove_entry, has_entry, fs_unlink, fs_rmdir,
}
use cs5600_project_3_file_sy.State.{State, ◌>>=◌, ◌>>◌, reads, require, clear_bit, save_bitmap}
use cs5600_project_3_file_sy.State.After.{After-require}
use cs5600_project_3_file_sy.Layout.{
  Kind, unowned, file_inode, dir_inode, dir_data, IsInodeKind, inode_at, IsConsistent, Consistent,
}
use cs5600_project_3_file_sy.Layout.Erased.{
  IsPlainPath, After-parent_entry, After-free_inode, disowned,
}
use cs5600_project_3_file_sy.Layout.Disowned.{shed, gone_dir_data}
use cs5600_project_3_file_sy.Layout.Frame.{IsMeta-data}
use cs5600_project_3_file_sy.Layout.Linked.{After-free}
use cs5600_project_3_file_sy.Layout.Owners.{gone, given_self, given_ne, inode_ne}
use cs5600_project_3_file_sy.Layout.Released.{file_blocks_is, shed-AreFree, After-release_blocks}
use cs5600_project_3_file_sy.Layout.Walk.{
  LedTo, Sound-translate, Sound-meta, inode-IsFileInode, inode-IsDirInode, meta_small, inode-IsMeta,
}
use cs5600_project_3_file_sy.Outcome.Sound.{Sound}
use cs5600_project_3_file_sy.Layout.Steps.{Stays, Same, Consistent_intro, After-Sound, After-kept}

module _ (kind : ℕ → Kind) (home : ℕ → ℕ × ℕ) (s : State) (c : IsConsistent kind home s)
    (x : ℕ) where
  abbrev lost : ℕ → Kind
  lost = shed kind x unowned

  After-unlink :
      (path : List ℕ)
      → kind x ≡ file_inode
      → IsPlainPath path
      → translate s.dev path ≡ ok (x, inode_at s.dev x)
      → (let n = inode_at s.dev x in
          Stays
            (parent_dir path >>= λ p.
              remove_entry p.0 p.1
              >> (release_blocks n 0 (file_blocks n.size) >> (clear_bit x >> save_bitmap)))
            s)
  After-unlink path is plain there =
      let n = inode_at s.dev x in
      let rest = release_blocks n 0 (file_blocks n.size) >> (clear_bit x >> save_bitmap) in
      let inode : IsInodeKind (kind x) = rw is tt in
      let h = c.files x is in
      let free = shed-AreFree kind home s x unowned n c inode h in
      After-parent_entry kind home s c x path n rest plain there (λ t c' fresh ne.
        let released =
          After-release_blocks lost (IsConsistent lost home) (IsConsistent lost home)
            (λ u p d un small. After-free lost home u p d un small) n 0 ((h.size + 4095) / 4096) t
            (omega (arith, h.small)) (λ j l. free j (omega (arith, l)))
            (disowned kind home s c x t inode c' fresh ne) in
        After-kept lost home (Same lost home) (λ _. clear_bit x >> save_bitmap)
          (release_blocks n 0 (file_blocks n.size)) t (rw (file_blocks_is kind n x h) released)
          (λ _ u c''.
            After-free_inode kind home s c x lost u (given_self (λ k. gone x (kind k)) x unowned)
              (meta_small kind home s c x (inode-IsMeta (kind x) inode)) c''))

  After-rmdir :
      (path : List ℕ) (d : ℕ)
      → kind x ≡ dir_inode d
      → IsPlainPath path
      → translate s.dev path ≡ ok (x, inode_at s.dev x)
      → (let n = inode_at s.dev x in
          Stays
            (parent_dir path >>= λ p.
              remove_entry p.0 p.1 >> (clear_bit (n.ptrs 0) >> (clear_bit x >> save_bitmap)))
            s)
  After-rmdir path d is plain there =
      let n = inode_at s.dev x in
      let rest = clear_bit (n.ptrs 0) >> (clear_bit x >> save_bitmap) in
      let inode : IsInodeKind (kind x) = rw is tt in
      let h = c.dirs x d is in
      let ne' : d ≢ x = inode_ne kind d x (dir_data x) h.owns (λ z. z) inode in
      let free : lost d ≡ unowned =
        given_ne (λ k. gone x (kind k)) x d unowned ne' ∙ ap (gone x) h.owns ∙ gone_dir_data x in
      After-parent_entry kind home s c x path n rest plain there (λ t c' fresh ne.
        After-kept lost home (Same lost home) (λ _. clear_bit x >> save_bitmap)
          (clear_bit (n.ptrs 0)) t
          (rw h.block_is (
            After-free lost home t d (disowned kind home s c x t inode c' fresh ne) free
              (meta_small kind home s c d (IsMeta-data (kind d) x h.owns))))
          (λ _ u c''.
            After-free_inode kind home s c x lost u (given_self (λ k. gone x (kind k)) x unowned)
              (meta_small kind home s c x (inode-IsMeta (kind x) inode)) c''))

-- On a consistent image, fs_unlink with a path without dots does not crash and leaves a consistent
-- image, whether it succeeds or fails.
pub fs_unlink-Consistent :
    (path : List ℕ) (s : State) → IsPlainPath path → Consistent s → Stays (fs_unlink path) s
unfolding fs_unlink
fs_unlink-Consistent path s plain (kind, home, c) =
    let R = λ (_ : Unit {0}) (t : State). Consistent t in
    let kept = Consistent_intro kind home s c in
    let removed = λ (p : ℕ × Inode). parent_dir path >>= λ q.
    remove_entry q.0 q.1
    >> (release_blocks p.1 0 (file_blocks p.1.size) >> (clear_bit p.0 >> save_bitmap)) in
    let checked = λ (p : ℕ × Inode). require (not (is_dir p.1.mode)) eisdir >> removed p in
    After-Sound Consistent R (LedTo kind home s c) (λ s. translate s.dev path) checked s
      (Sound-translate kind home s c path plain.short) kept
      (λ (x, n) (inode, same) e.
        After-require Consistent R (not (is_dir n.mode)) eisdir (removed (x, n)) s kept (λ file.
          let is_file : is_dir (inode_at s.dev x).mode ≡ false = rw (← same) (ground arith) in
          let (is, h) = inode-IsFileInode kind home s c x inode is_file in
          rw same (After-unlink kind home s c x path is plain (e ∙ ap (λ m. ok (x, m)) same))))

-- On a consistent image, fs_rmdir with a path without dots does not crash and leaves a consistent
-- image, whether it succeeds or fails.
pub fs_rmdir-Consistent :
    (path : List ℕ) (s : State) → IsPlainPath path → Consistent s → Stays (fs_rmdir path) s
unfolding fs_rmdir
fs_rmdir-Consistent path s plain (kind, home, c) =
    let R = λ (_ : Unit {0}) (t : State). Consistent t in
    let kept = Consistent_intro kind home s c in
    let removed = λ (p : ℕ × Inode). parent_dir path >>= λ q.
    remove_entry q.0 q.1 >> (clear_bit (p.1.ptrs 0) >> (clear_bit p.0 >> save_bitmap)) in
    let empty = λ (p : ℕ × Inode) (b : Block). require (not (has_entry b)) enotempty >> removed p in
    let loaded =
      λ (p : ℕ × Inode). reads (λ (s : State). block_read s.dev (p.1.ptrs 0)) >>= empty p in
    let checked = λ (p : ℕ × Inode). require (is_dir p.1.mode) enotdir >> loaded p in
    After-Sound Consistent R (LedTo kind home s c) (λ s. translate s.dev path) checked s
      (Sound-translate kind home s c path plain.short) kept
      (λ (x, n) (inode, same) e.
        After-require Consistent R (is_dir n.mode) enotdir (loaded (x, n)) s kept (λ dir.
          let is_directory : is_dir (inode_at s.dev x).mode ≡ true = rw (← same) dir in
          let (d, is, h) = inode-IsDirInode kind home s c x inode is_directory in
          let at : n.ptrs 0 ≡ d = ap (λ (m : Inode). m.ptrs 0) same ∙ h.block_is in
          let read : Sound (λ b. b ≡ s.dev.store d) (block_read s.dev (n.ptrs 0)) =
            rw at (Sound-meta kind home s c d (IsMeta-data (kind d) x h.owns)) in
          After-Sound Consistent R (λ b. b ≡ s.dev.store d) (λ s. block_read s.dev (n.ptrs 0))
            (empty (x, n)) s read kept
            (λ b _ f.
              After-require Consistent R (not (has_entry b)) enotempty (removed (x, n)) s kept
                (λ none.
                  rw same
                    (After-rmdir kind home s c x path d is plain (e ∙ ap (λ m. ok (x, m)) same))))))
