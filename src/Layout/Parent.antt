-- ===== src/Layout/Parent.antt =====
-- The search for the parent directory of a path, and for a name in it, on a consistent image.
use cs5600_project_3_file_sy.Common.{ℕ, ◌≡◌, refl, sym, ap, ◌∙◌, true, Option, none, some, List}
use cs5600_project_3_file_sy.Outcome.{ok, enotdir, eexist}
use cs5600_project_3_file_sy.Format.{Inode, is_dir}
use cs5600_project_3_file_sy.Path.{Name, parent_of}
use cs5600_project_3_file_sy.Path.Parent.{IsPath, parent_of-Parted}
use cs5600_project_3_file_sy.Dir.{Hit, find_in_dir, is_named}
use cs5600_project_3_file_sy.Translate.{translate}
use cs5600_project_3_file_sy.Create.{parent_dir, is_none, require_absent}
use cs5600_project_3_file_sy.State.{State, ◌>>=◌, ◌>>◌, reads, lift, require}
use cs5600_project_3_file_sy.State.After.{After, After-weaken, After-lift, After-require}
use cs5600_project_3_file_sy.Layout.{Kind, IsDirInode, IsConsistent}
use cs5600_project_3_file_sy.Layout.Walk.{
  AllHit, LedTo, Sound-translate, Sound-find_in_dir, inode-IsDirInode,
}
use cs5600_project_3_file_sy.Layout.Steps.{E, Same, After-Sound}

-- A path with a last component, whose parent path fits its buffer.
pub record IsEntryPath (path : List ℕ) : Type 0 where
  pub bytes : IsPath path
  pub parent : List ℕ
  pub name : Name
  pub parts : parent_of path ≡ ok (parent, name)

module _ (kind : ℕ → Kind) (home : ℕ → ℕ × ℕ) where
  -- What parent_dir finds.
  abbrev pub IsParent : Inode × Name → State → Type 0
  IsParent (n, name) t = IsConsistent kind home t × (i : ℕ) × (d : ℕ) × IsDirInode kind n i d

  -- What parent_dir finds of a path, in the state where it looks.
  pub record IsParentAt (s : State) (path : List ℕ) (n : Inode) (name : Name) : Type 0 where
    pub consistent : (E kind home) s
    pub parent : List ℕ
    pub inum : ℕ
    pub block : ℕ
    pub parts : parent_of path ≡ ok (parent, name)
    pub leads : translate s.dev parent ≡ ok (inum, n)
    pub is_directory : is_dir n.mode ≡ true
    pub inode : IsDirInode kind n inum block

  pub After-IsParentAt :
      (path : List ℕ) (s : State)
      → IsEntryPath path
      → (E kind home) s
      → After
          (λ (p : Inode × Name) t. (t ≡ s) × IsParentAt s path p.0 p.1)
          (E kind home)
          (parent_dir path s)
  unfolding parent_dir
  After-IsParentAt path s h c =
      let Q = λ (p : Inode × Name) (t : State). (t ≡ s) × IsParentAt s path p.0 p.1 in
      let checked = λ (name : Name) (p : ℕ × Inode).
        require (is_dir p.1.mode) enotdir >> lift (ok (p.1, name)) in
      let found =
        λ (p : List ℕ × Name). reads (λ (s : State). translate s.dev p.0) >>= checked p.1 in
      After-lift (E kind home) Q found s (parent_of path) (λ e. cc (e, h.parts)) c
        (λ (pp, name) e.
          let short = (parent_of-Parted path pp name h.bytes e).front_short in
          After-Sound (E kind home) Q (LedTo kind home s c) (λ s. translate s.dev pp) (checked name)
            s (Sound-translate kind home s c pp short) c
            (λ (i, n) led f.
              After-require (E kind home) Q (is_dir n.mode) enotdir (lift (ok (n, name))) s c
                (λ dir.
                  let (d, g, r) =
                    inode-IsDirInode kind home s c i led.0
                      (ap (λ (m : Inode). is_dir m.mode) (sym led.1) ∙ dir) in
                  (
                    refl,
                    record {
                      consistent = c;
                      parent = pp;
                      inum = i;
                      block = d;
                      parts = e;
                      leads = f;
                      is_directory = dir;
                      inode = rw led.1 r;
                    },
                  ))))

  pub After-parent_dir :
      (path : List ℕ) (s : State)
      → IsEntryPath path
      → (E kind home) s
      → After IsParent (E kind home) (parent_dir path s)
  After-parent_dir path s h c =
      After-weaken (λ (p : Inode × Name) t. (t ≡ s) × IsParentAt s path p.0 p.1) IsParent
        (E kind home) (E kind home) (parent_dir path s) (After-IsParentAt path s h c)
        (λ (n, name) t (same, at). (rw same at.consistent, at.inum, at.block, at.inode)) (λ t e. e)

  After-absent :
      (hit : Option Hit) (s : State)
      → (E kind home) s
      → After (Same kind home) (E kind home) (require (is_none hit) eexist s)
  After-absent none s c = c
  After-absent (some x) s c = c

  pub After-require_absent :
      (n : Inode) (name : Name) (i d : ℕ) (s : State)
      → IsDirInode kind n i d
      → (E kind home) s
      → After (Same kind home) (E kind home) (require_absent n name s)
  unfolding require_absent
  After-require_absent n name i d s dir c =
      After-Sound (E kind home) (Same kind home) (AllHit (is_named name) s d)
        (λ s. find_in_dir (is_named name) s.dev n) (λ hit. require (is_none hit) eexist) s
        (Sound-find_in_dir kind home s c (is_named name) n i d dir) c
        (λ hit all e. After-absent hit s c)
