-- ===== src/Layout/Erased.antt =====
-- The entry of a path is erased on a consistent image, and its inode loses its owner.
use cs5600_project_3_file_sy.Common.{
  ℕ, ◌<◌, ◌≡◌, ◌≢◌, refl, sym, ap, ◌∙◌, true, arith, List, inr, some, All,
}
use cs5600_project_3_file_sy.Outcome.{Outcome, ok}
use cs5600_project_3_file_sy.Format.{Inode, entry_valid, entry_inode, clear_entry}
use cs5600_project_3_file_sy.Path.{Name, pathparse}
use cs5600_project_3_file_sy.Path.Resolve.{IsReal}
use cs5600_project_3_file_sy.Dir.{Hit, find_in_dir, is_named, hit_inode}
use cs5600_project_3_file_sy.Translate.{translate}
use cs5600_project_3_file_sy.Create.{parent_dir}
use cs5600_project_3_file_sy.Remove.{erase_entry, remove_entry}
use cs5600_project_3_file_sy.State.{State, M, ◌>>=◌, ◌>>◌, write_block, clear_bit, save_bitmap}
use cs5600_project_3_file_sy.State.After.{After, After-bind, After-same, After-write_block}
use cs5600_project_3_file_sy.State.Runs.{reads-to}
use cs5600_project_3_file_sy.Layout.{Kind, unowned, dir_data, IsInodeKind, IsConsistent, Consistent}
use cs5600_project_3_file_sy.Layout.Agreement.{entry_of_path}
use cs5600_project_3_file_sy.Layout.Disowned.{shed, shed-IsConsistent}
use cs5600_project_3_file_sy.Layout.Entry.{NoEntry, clear_entry-IsConsistent, clear_entry-NoEntry}
use cs5600_project_3_file_sy.Layout.Frame.{meta_owned, IsMeta-data}
use cs5600_project_3_file_sy.Layout.Linked.{After-free}
use cs5600_project_3_file_sy.Layout.Touched.{IsShort}
use cs5600_project_3_file_sy.Layout.Walk.{IsHit, AllHit, Sound-find_in_dir, meta_small}
use cs5600_project_3_file_sy.Outcome.Sound.{Sound-ok}
use cs5600_project_3_file_sy.Layout.Parent.{IsEntryPath, IsParentAt, After-IsParentAt}
use cs5600_project_3_file_sy.Layout.Steps.{
  Stays, Same, Consistent_intro, kept-Stays, After-kept, After-save,
}

-- A path of an entry, of at most nine components and without "." and "..".
pub record IsPlainPath (path : List ℕ) : Type 0 where
  pub entry : IsEntryPath path
  pub real : All IsReal (pathparse path)
  pub short : IsShort path

module _ (kind : ℕ → Kind) (home : ℕ → ℕ × ℕ) (s : State) (c : IsConsistent kind home s)
    (x : ℕ) where
  -- The entry of `x` is erased.
  abbrev pub Erased : Unit {0} → State → Type 0
  Erased u t = IsConsistent kind home t × NoEntry kind t x × (x ≢ 2)

  After-erase :
      (name : Name) (i d : ℕ) (h : Hit)
      → kind d ≡ dir_data i
      → IsHit (is_named name) s d h
      → hit_inode h ≡ x
      → After Erased Consistent (erase_entry (some h) s)
  unfolding is_named
  After-erase name i d h owns hit named =
      let valid : entry_valid (s.dev.store d) h.slot ≡ true = ground (arith, hit.fits) in
      let is : entry_inode (s.dev.store d) h.slot ≡ x =
        ap (λ b. entry_inode b h.slot) (sym hit.as_stored) ∙ named in
      let entry = c.entries i d h.slot owns hit.slot_fits valid in
      let same : ◌≡◌ {A = Outcome (Unit {0}) × State}
          (write_block h.lba (clear_entry h.block h.slot) s)
          (write_block d (clear_entry (s.dev.store d) h.slot) s) =
        rw (hit.in_block, hit.as_stored) in
      let meta = IsMeta-data (kind d) i owns in
      rw same (
        After-write_block d (clear_entry (s.dev.store d) h.slot) Erased Consistent s
          (omega (arith, (c.in_range d (meta_owned (kind d) meta)).0))
          (omega (arith, meta_small kind home s c d meta)) (Consistent_intro kind home s c)
          (λ good. (
            clear_entry-IsConsistent kind home s c i d owns h.slot,
            rw (← is) (clear_entry-NoEntry kind home s c i d owns h.slot hit.slot_fits valid),
            rw (← is) entry.not_root,
          )))

  After-remove_entry :
      (path : List ℕ) (n parent : Inode) (name : Name)
      → IsPlainPath path
      → translate s.dev path ≡ ok (x, n)
      → IsParentAt kind home s path parent name
      → After Erased Consistent (remove_entry parent name s)
  unfolding remove_entry
  After-remove_entry path n parent name plain there at =
      let (h, found, named) =
        entry_of_path s.dev path at.parent name x at.inum n parent plain.entry.bytes plain.real
          plain.short at.parts there at.leads at.is_directory in
      let sound =
        Sound-find_in_dir kind home s c (is_named name) parent at.inum at.block at.inode in
      let hit = Sound-ok (AllHit (is_named name) s at.block) _ (some h) sound found in
      After-same Erased Consistent _ (erase_entry (some h) s)
        (reads-to (λ s. find_in_dir (is_named name) s.dev parent) erase_entry s (some h) found)
        (After-erase name at.inum at.block h at.inode.owns hit named)

  -- From the search of the parent on: the entry of `x` is gone when the rest runs.
  pub After-parent_entry :
      (path : List ℕ) (n : Inode) (rest : M (Unit {0}))
      → IsPlainPath path
      → translate s.dev path ≡ ok (x, n)
      → ((t : State) → IsConsistent kind home t → NoEntry kind t x → x ≢ 2 → Stays rest t)
      → Stays (parent_dir path >>= λ p. remove_entry p.0 p.1 >> rest) s
  After-parent_entry path n rest plain there goes =
      After-kept kind home (λ (p : Inode × Name) t. (t ≡ s) × IsParentAt kind home s path p.0 p.1)
        (λ p. remove_entry p.0 p.1 >> rest) (parent_dir path) s
        (After-IsParentAt kind home path s plain.entry c)
        (λ (parent, name) t (same, at). rw same (
          After-bind Erased Consistent (λ (_ : Unit {0}) t. Consistent t) (λ _. rest)
            (remove_entry parent name) s (After-remove_entry path n parent name plain there at)
            (λ _ u (c', fresh, ne). goes u c' fresh ne)))

  -- What has no owner any more is freed.
  pub After-free_inode :
      (kind' : ℕ → Kind) (t : State)
      → kind' x ≡ unowned
      → x < 32768
      → IsConsistent kind' home t
      → Stays (clear_bit x >> save_bitmap) t
  After-free_inode kind' t free small c' =
      After-kept kind' home (Same kind' home) (λ _. save_bitmap) (clear_bit x) t
        (After-free kind' home t x c' free small)
        (λ _ u c''. kept-Stays kind' home save_bitmap u (After-save kind' home u c''))

  abbrev pub without : ℕ → Kind
  without = shed kind x unowned

  pub disowned :
      (t : State)
      → IsInodeKind (kind x)
      → IsConsistent kind home t
      → NoEntry kind t x
      → x ≢ 2
      → IsConsistent without home t
  disowned t inode c' fresh ne =
      shed-IsConsistent kind home t c' x unowned inode ne (λ o. absurd (o refl)) (λ q. cc)
        (inr fresh)
