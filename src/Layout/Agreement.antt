-- ===== src/Layout/Agreement.antt =====
-- The file that a path leads to is the one that its entry names, if the path has no dots.
use cs5600_project_3_file_sy.Common.{
  ℕ, ◌≤◌, ◌≡◌, refl, sym, ap, ◌∙◌, true, Option, none, some, List, [], ◌∷◌, ◌++◌, All, length,
}
use cs5600_project_3_file_sy.Outcome.{Outcome, ok, err, crash, ◌>>=◌}
use cs5600_project_3_file_sy.Disk.{Device}
use cs5600_project_3_file_sy.Format.{Inode, is_dir}
use cs5600_project_3_file_sy.Path.{Name, pathparse, parent_of}
use cs5600_project_3_file_sy.Path.Parent.{IsPath, parent_of-Parted}
use cs5600_project_3_file_sy.Path.Resolve.{IsReal, resolve_path-real}
use cs5600_project_3_file_sy.Dir.{Hit, read_inode, find_in_dir, is_named, hit_inode}
use cs5600_project_3_file_sy.Translate.{root_inum, translate}
use cs5600_project_3_file_sy.Translate.Lookup.{child, lookup, hit_or_enoent}
use cs5600_project_3_file_sy.Create.Findable.{lookup-append, lookup-translate}

pub hit_from :
    (r : Outcome (Option Hit)) (x : ℕ)
    → (r >>= hit_or_enoent) ≡ ok x
    → (h : Hit) × (r ≡ ok (some h)) × (hit_inode h ≡ x)
hit_from (ok none) x e = cc
hit_from (ok (some h)) x e = (h, refl, cc)
hit_from (err z) x e = cc
hit_from crash x e = cc

child-Hit :
    (d : Device) (i x : ℕ) (n : Inode) (name : Name)
    → child d i name ≡ ok x
    → read_inode d i ≡ ok n
    → is_dir n.mode ≡ true
    → (h : Hit) × (find_in_dir (is_named name) d n ≡ ok (some h)) × (hit_inode h ≡ x)
unfolding child
child-Hit d i x n name e r dir = hit_from (find_in_dir (is_named name) d n) x (rw (r, dir) at e)

-- The search in the parent directory hits the entry of the file.
pub entry_of_path :
    (d : Device) (path pp : List ℕ) (name : Name) (x i : ℕ) (n parent : Inode)
    → IsPath path
    → All IsReal (pathparse path)
    → length (pathparse path) ≤ 9
    → parent_of path ≡ ok (pp, name)
    → translate d path ≡ ok (x, n)
    → translate d pp ≡ ok (i, parent)
    → is_dir parent.mode ≡ true
    → (h : Hit) × (find_in_dir (is_named name) d parent ≡ ok (some h)) × (hit_inode h ≡ x)
entry_of_path d path pp name x i n parent bytes real short parts there above dir =
    let parted = parent_of-Parted path pp name bytes parts in
    let whole : pathparse pp ++ (name ∷ []) ≡ pathparse path =
      parted.together ∙ resolve_path-real (pathparse path) real in
    let (at, _) = lookup-translate d path x n real short there in
    let (way, read) = lookup-translate d pp i parent parted.front_real parted.front_short above in
    let last : child d i name ≡ ok x =
      sym (ap (λ (r : Outcome ℕ). r >>= λ k. child d k name) way)
      ∙ sym (lookup-append d root_inum (pathparse pp) name)
      ∙ ap (lookup d root_inum) whole
      ∙ at in
    child-Hit d i x parent name last read dir
