-- ===== src/Layout/Created.antt =====
-- fs_create on a consistent image.
use cs5600_project_3_file_sy.Common.{ℕ, ◌^◌, ◌<◌, ◌≡◌, ◌≢◌, refl, sym, ap, ◌∙◌, false, arith, List}
use cs5600_project_3_file_sy.Outcome.{enospc}
use cs5600_project_3_file_sy.Format.{Inode, is_dir, encode_inode}
use cs5600_project_3_file_sy.Path.{Name}
use cs5600_project_3_file_sy.Create.{
  parent_dir, require_absent, take_block, write_or_undo, add_entry, new_file, fs_create,
}
use cs5600_project_3_file_sy.Create.Findable.{new_file-IsInode}
use cs5600_project_3_file_sy.State.{State, Env, ◌>>=◌, ◌>>◌, clear_bit}
use cs5600_project_3_file_sy.State.Runs.{put}
use cs5600_project_3_file_sy.Layout.{
  Kind, unowned, file_inode, dir_inode, inode_at, IsDirInode, IsFileInode, IsConsistent, Consistent,
}
use cs5600_project_3_file_sy.Layout.Owners.{
  given, given_self, given-Extends, Extends-IsDirInode, adopt,
}
use cs5600_project_3_file_sy.Layout.Resaved.{inode_at-put}
use cs5600_project_3_file_sy.Layout.Parent.{
  IsEntryPath, IsParent, After-parent_dir, After-require_absent,
}
use cs5600_project_3_file_sy.Layout.Taken.{IsTaken, After-take_block}
use cs5600_project_3_file_sy.Layout.Steps.{Same, After-kept, Stays}
use cs5600_project_3_file_sy.Layout.Linked.{
  unowned-NoEntry, given-NoEntry, After-add_entry, After-free, put-IsTaken, After-write_or_undo,
}

module _ (kind : ℕ → Kind) (home : ℕ → ℕ × ℕ) (env : Env) (mode : ℕ) (fits : mode < 2 ^ 32)
    (type : is_dir mode ≡ false) (n : Inode) (name : Name) (i d : ℕ)
    (dir : IsDirInode kind n i d) where
  -- The block that was written becomes a file.
  new_file-IsFileInode : (x : ℕ) → IsFileInode (given kind x file_inode) (new_file env mode) x
  unfolding new_file
  new_file-IsFileInode x = record {
    no_directory = type;
    size = 0;
    size_is = refl;
    small = omega arith;
    owns = λ j l. absurd (omega arith);
  }

  After-linked :
      (s : State) (x : ℕ)
      → IsTaken kind home s x
      → Stays
          (add_entry n name x enospc)
          (record s { dev = put s.dev x (encode_inode (new_file env mode)) })
  After-linked s x h =
      let t : State = record s { dev = put s.dev x (encode_inode (new_file env mode)) } in
      let there : IsTaken kind home t x =
        put-IsTaken kind home s x x (encode_inode (new_file env mode)) h h.free in
      let kind' = given kind x file_inode in
      let inode : inode_at t.dev x ≡ new_file env mode =
        inode_at-put s.dev x (new_file env mode) (new_file-IsInode env mode fits) in
      let c : IsConsistent kind' home t =
        adopt kind home t x file_inode there.consistent h.free h.from h.to
          (there.bit there.consistent.map there.consistent.loaded) (λ _. omega arith) (λ e q. cc)
          (λ q. rw inode (new_file-IsFileInode x)) (λ j k q. cc) in
      let dir' = Extends-IsDirInode kind kind' (given-Extends kind x file_inode h.free) n i d dir in
      let ne : x ≢ 2 = λ q.
        let (e, at) = there.consistent.root in
        let clash : unowned ≡ dir_inode e = sym h.free ∙ ap kind q ∙ at in cc in
      After-add_entry kind' home n x i d name enospc t c dir' (rw (given_self kind x file_inode) tt)
        ne
        (given-NoEntry kind home t x x file_inode (λ j q. cc)
          (unowned-NoEntry kind home t x there.consistent h.free))
        (omega (arith, h.to, h.consistent.covered))

  After-new_file :
      (s : State)
      → IsConsistent kind home s
      → Stays
          (take_block >>= λ x.
            write_or_undo x (encode_inode (new_file env mode)) (clear_bit x)
            >> add_entry n name x enospc)
          s
  After-new_file s c =
      let linked = add_entry n name in
      let rest = λ (x : ℕ).
        write_or_undo x (encode_inode (new_file env mode)) (clear_bit x) >> linked x enospc in
      After-kept kind home (λ (x : ℕ) t. IsTaken kind home t x) rest take_block s
        (After-take_block kind home s c)
        (λ x t h.
          After-kept kind home (λ (_ : Unit {0}) u. Stays (linked x enospc) u)
            (λ _. linked x enospc)
            (write_or_undo x (encode_inode (new_file env mode)) (clear_bit x)) t
            (After-write_or_undo kind home (λ (_ : Unit {0}) u. Stays (linked x enospc) u) t x
              (encode_inode (new_file env mode)) (clear_bit x) h
              (After-free kind home t x h.consistent h.free
                (omega (arith, h.to, h.consistent.covered)))
              (After-linked t x h))
            (λ _ u k. k))

-- On a consistent image, fs_create with a path that has a parent and the mode of a file does not crash
-- and leaves a consistent image, whether it succeeds or fails.
pub fs_create-Consistent :
    (env : Env) (path : List ℕ) (mode : ℕ) (s : State)
    → IsEntryPath path
    → mode < 2 ^ 32
    → is_dir mode ≡ false
    → Consistent s
    → Stays (fs_create env path mode) s
unfolding fs_create
fs_create-Consistent env path mode s named fits type (kind, home, c) =
    let created = λ (p : Inode × Name). take_block >>= λ x.
    write_or_undo x (encode_inode (new_file env mode)) (clear_bit x)
    >> add_entry p.0 p.1 x enospc in
    let checked = λ (p : Inode × Name). require_absent p.0 p.1 >> created p in
    After-kept kind home (IsParent kind home) checked (parent_dir path) s
      (After-parent_dir kind home path s named c)
      (λ (n, name) t (c', i, d, dir).
        After-kept kind home (Same kind home) (λ _. created (n, name)) (require_absent n name) t
          (After-require_absent kind home n name i d t dir c')
          (λ _ u c''. After-new_file kind home env mode fits type n name i d dir u c''))
