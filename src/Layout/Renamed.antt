-- ===== src/Layout/Renamed.antt =====
-- fs_rename on a consistent image.
use cs5600_project_3_file_sy.Common.{
  ℕ, ◌≡◌, sym, ap, ◌∙◌, Bool, true, false, arith, List, Option, none, some, ◌==◌,
}
use cs5600_project_3_file_sy.Outcome.{Outcome, ok, err, crash, within, einval, enotdir}
use cs5600_project_3_file_sy.Outcome.Sound.{Sound}
use cs5600_project_3_file_sy.Disk.{Block, block_read}
use cs5600_project_3_file_sy.Format.{Inode, is_dir, set_name}
use cs5600_project_3_file_sy.Path.{Name, parent_of}
use cs5600_project_3_file_sy.Path.Parent.{parent_of-Parted}
use cs5600_project_3_file_sy.Dir.{ptr_at, dir_blocks, find_slot, is_named}
use cs5600_project_3_file_sy.Translate.{translate}
use cs5600_project_3_file_sy.Rename.{
  or_enoent, last_slot, is_other, stays_inside, seen_in, rename_in, rename_from, fs_rename,
}
use cs5600_project_3_file_sy.Rename.Inside.{stays_inside-ends}
use cs5600_project_3_file_sy.State.{State, M, ◌>>=◌, ◌>>◌, reads, lift, require}
use cs5600_project_3_file_sy.State.After.{After-lift, After-require, After-write_block}
use cs5600_project_3_file_sy.State.Runs.{put}
use cs5600_project_3_file_sy.Layout.{Kind, dir_data, inode_at, IsDirInode, IsConsistent, Consistent}
use cs5600_project_3_file_sy.Layout.Entry.{set_name-IsConsistent}
use cs5600_project_3_file_sy.Layout.Frame.{meta_owned, IsMeta-data}
use cs5600_project_3_file_sy.Layout.Touched.{IsShort}
use cs5600_project_3_file_sy.Layout.Walk.{
  LedTo, Sound-translate, Sound-meta, inode-IsDirInode, meta_small,
}
use cs5600_project_3_file_sy.Layout.Parent.{IsEntryPath}
use cs5600_project_3_file_sy.Layout.Steps.{Stays, Consistent_intro, After-Sound}

Sound-or_enoent : {A : Type 0} (Q : A → Type 0) (r : Outcome A) → Sound Q r → Sound Q (or_enoent r)
Sound-or_enoent Q (ok a) h = h
Sound-or_enoent Q (err e) h = tt
Sound-or_enoent Q crash h = h

module _ (kind : ℕ → Kind) (home : ℕ → ℕ × ℕ) (s : State) (c : IsConsistent kind home s) (i d : ℕ)
    (owns : kind d ≡ dir_data i) where
  After-rename_in :
      (dst : Name) (lba : ℕ) (b : Block) (seen : Bool) (slot : Option ℕ) (next : M (Unit {0}))
      → lba ≡ d
      → b ≡ s.dev.store d
      → Stays next s
      → Stays (rename_in dst lba b seen slot next) s
  unfolding rename_in
  After-rename_in dst lba b seen none next at same goes = goes
  After-rename_in dst lba b true (some k) next at same goes = Consistent_intro kind home s c
  After-rename_in dst lba b false (some k) next at same goes =
      let meta = IsMeta-data (kind d) i owns in
      let renamed =
        After-write_block d (set_name (s.dev.store d) k dst) (λ _ t. Consistent t) Consistent s
          (omega (arith, (c.in_range d (meta_owned (kind d) meta)).0))
          (omega (arith, meta_small kind home s c d meta)) (Consistent_intro kind home s c)
          (λ good.
            Consistent_intro kind home
              (record s { dev = put s.dev d (set_name (s.dev.store d) k dst) })
              (set_name-IsConsistent kind home s c i d owns k dst)) in
      rw (at, same) renamed

  After-rename_from :
      (src dst : Name) (n : Inode)
      → IsDirInode kind n i d
      → Stays (rename_from src dst n false 0 (dir_blocks n.size)) s
  unfolding rename_from ptr_at dir_blocks
  After-rename_from src dst n h =
      let R = λ (_ : Unit {0}) (t : State). Consistent t in
      let next = λ (seen : Bool). rename_from src dst n seen 1 0 in
      let here = λ (lba : ℕ) (b : Block).
        let seen : Bool = seen_in false (find_slot (is_other src dst b) 0 128) in
        rename_in dst lba b seen (last_slot (is_named src b) 0 128) (next seen) in
      let guarded = λ (lba : ℕ) (b : Block). lift (within (stays_inside src dst b)) >> here lba b in
      let read : Sound (λ b. b ≡ s.dev.store d) (block_read s.dev (n.ptrs 0)) =
        rw h.block_is (Sound-meta kind home s c d (IsMeta-data (kind d) i h.owns)) in
      rw h.one_block (
        After-Sound Consistent R (λ b. b ≡ s.dev.store d) (λ s. block_read s.dev (n.ptrs 0))
          (guarded (n.ptrs 0)) s read (Consistent_intro kind home s c)
          (λ b same e.
            let inside : stays_inside src dst b ≡ true =
              stays_inside-ends src dst b (λ m l v. rw same (c.ends i d m owns l (rw same at v))) in
            rw inside (
              After-rename_in dst (n.ptrs 0) b
                (seen_in false (find_slot (is_other src dst b) 0 128))
                (last_slot (is_named src b) 0 128)
                (next (seen_in false (find_slot (is_other src dst b) 0 128))) h.block_is same
                (Consistent_intro kind home s c))))

-- On a consistent image, fs_rename of a path of at most nine components, where both paths have
-- parents, does not crash and leaves a consistent image, whether it succeeds or fails.
pub fs_rename-Consistent :
    (src_path dst_path : List ℕ) (s : State)
    → IsShort src_path
    → IsEntryPath src_path
    → IsEntryPath dst_path
    → Consistent s
    → Stays (fs_rename src_path dst_path) s
unfolding fs_rename
fs_rename-Consistent src_path dst_path s short src dst (kind, home, c) =
    let R = λ (_ : Unit {0}) (t : State). Consistent t in
    let kept = Consistent_intro kind home s c in
    let Led = LedTo kind home s c in
    let led = λ (path : List ℕ) (l : IsShort path).
      Sound-or_enoent Led (translate s.dev path) (Sound-translate kind home s c path l) in
    let found = λ (path : List ℕ) (s : State). or_enoent (translate s.dev path) in
    let renamed = λ (src_name dst_name : Name) (p : ℕ × Inode).
      rename_from src_name dst_name p.1 false 0 (dir_blocks p.1.size) in
    let is_parent = λ (src_name dst_name : Name) (p : ℕ × Inode).
      require (is_dir p.1.mode) enotdir >> renamed src_name dst_name p in
    let compared = λ (src_name dst_name : Name) (p q : ℕ × Inode).
      require (p.0 == q.0) einval >> is_parent src_name dst_name q in
    let second = λ (src_name dst_name : Name) (pp : List ℕ) (p : ℕ × Inode).
      reads (found pp) >>= compared src_name dst_name p in
    let parents = λ (p q : List ℕ × Name). reads (found p.0) >>= second p.1 q.1 q.0 in
    let dst_parsed = λ (p : List ℕ × Name). lift (parent_of dst_path) >>= parents p in
    let src_parsed = λ (_ : ℕ × Inode). lift (parent_of src_path) >>= dst_parsed in
    After-Sound Consistent R Led (found src_path) src_parsed s (led src_path short) kept (λ _ _ _.
      After-lift Consistent R dst_parsed s (parent_of src_path) (λ e. cc (e, src.parts)) kept
        (λ (pp, src_name) e.
          After-lift Consistent R (parents (pp, src_name)) s (parent_of dst_path)
            (λ f. cc (f, dst.parts)) kept
            (λ (qq, dst_name) f.
              After-Sound Consistent R Led (found pp) (second src_name dst_name qq) s
                (led pp (parent_of-Parted src_path pp src_name src.bytes e).front_short) kept
                (λ p _ _.
                  After-Sound Consistent R Led (found qq) (compared src_name dst_name p) s
                    (led qq (parent_of-Parted dst_path qq dst_name dst.bytes f).front_short) kept
                    (λ (y, m) (inode, same) _.
                      After-require Consistent R (p.0 == y) einval
                        (is_parent src_name dst_name (y, m)) s kept
                        (λ _.
                          After-require Consistent R (is_dir m.mode) enotdir
                            (renamed src_name dst_name (y, m)) s kept
                            (λ dir.
                              let (d, g, h) =
                                inode-IsDirInode kind home s c y inode
                                  (ap (λ (m : Inode). is_dir m.mode) (sym same) ∙ dir) in
                              rw same (
                                After-rename_from kind home s c y d h.owns src_name dst_name
                                  (inode_at s.dev y) h))))))))
