-- ===== src/Remove/Gone.antt =====
-- fs_unlink and then fs_getattr of the same path.
use cs5600_project_3_file_sy.Common.{
  ℕ, ◌≤◌, ◌<◌, ◌≡◌, ◌≢◌, sym, ap, ◌∙◌, List, [], ◌∷◌, ◌++◌, All, All-append, Bool, length, arith,
  true, false, none, some,
}
use cs5600_project_3_file_sy.Outcome.{ok, err, enoent, ◌>>=◌}
use cs5600_project_3_file_sy.Disk.{Block, Device}
use cs5600_project_3_file_sy.Format.{Inode, decode_inode, is_dir}
use cs5600_project_3_file_sy.Path.{Name, slash, pathparse, resolve_path, parent_of, join}
use cs5600_project_3_file_sy.Path.Split.{IsPlain, pathparse-join}
use cs5600_project_3_file_sy.Path.Resolve.{IsReal}
use cs5600_project_3_file_sy.Path.Parent.{IsPath, parent_of-Parted}
use cs5600_project_3_file_sy.Dir.{Hit, read_inode, dir_blocks, find_in_dir, is_named}
use cs5600_project_3_file_sy.Dir.Erase.{IsOnly}
use cs5600_project_3_file_sy.Translate.{root_inum, start, translate}
use cs5600_project_3_file_sy.Translate.Lookup.{child, lookup, translate-lookup}
use cs5600_project_3_file_sy.Translate.Frame.{SameOn, Trail, translate-frame}
use cs5600_project_3_file_sy.State.{State}
use cs5600_project_3_file_sy.State.Runs.{IsWritable}
use cs5600_project_3_file_sy.Query.{fs_getattr}
use cs5600_project_3_file_sy.Create.Findable.{parent_dir-to, lookup-append, lookup-translate}
use cs5600_project_3_file_sy.Remove.{file_blocks, fs_unlink}
use cs5600_project_3_file_sy.Remove.Unlinked.{Unlinked, fs_unlink-runs}
use cs5600_project_3_file_sy.Write.Reread.{block_read-same}

child-miss :
    (d : Device) (inum : ℕ) (n : Inode) (name : Name)
    → read_inode d inum ≡ ok n
    → is_dir n.mode ≡ true
    → find_in_dir (is_named name) d n ≡ ok none
    → child d inum name ≡ err enoent
unfolding child
child-miss d inum n name r dir f = rw (r, dir, f)

-- A name that does not stand in its directory, by its path.
translate-missing :
    (d : Device) (front : List Name) (name : Name) (pinum : ℕ) (parent : Inode)
    → All IsPlain (front ++ (name ∷ []))
    → All IsReal (front ++ (name ∷ []))
    → length (front ++ (name ∷ [])) ≤ 9
    → lookup d root_inum front ≡ ok pinum
    → read_inode d pinum ≡ ok parent
    → is_dir parent.mode ≡ true
    → find_in_dir (is_named name) d parent ≡ ok none
    → translate d (slash ∷ join (front ++ (name ∷ []))) ≡ err enoent
translate-missing d front name pinum parent plain real short there r dir f =
    let path = slash ∷ join (front ++ (name ∷ [])) in
    let parsed : pathparse path ≡ front ++ (name ∷ []) =
      pathparse-join (front ++ (name ∷ [])) plain (omega arith) in
    let missing : lookup d root_inum (pathparse path) ≡ err enoent =
      ap (lookup d root_inum) parsed
      ∙ lookup-append d root_inum front name
      ∙ ap (λ r. r >>= λ k. child d k name) there
      ∙ child-miss d pinum parent name r dir f in
    translate-lookup d path (rw parsed real) (rw parsed short)
    ∙ ap (λ r. r >>= λ i. read_inode d i >>= λ n. ok (i, n)) missing

-- A block of the image that fs_unlink does not write.
abbrev pub IsBeside : State → Hit → ℕ → Type 0
IsBeside s h k = (k < s.dev.blocks) × (k ≢ 1) × (k ≢ h.lba)

same-IsBeside :
    (inum : ℕ) (n parent : Inode) (name : Name) (h : Hit) (map : Block) (s t : State)
    → Unlinked inum n parent name h map s t
    → SameOn (IsBeside s h) s.dev t.dev
same-IsBeside inum n parent name h map s t done k (l, not_map, not_entry) =
    block_read-same s.dev t.dev k l done.grows (done.others k not_map not_entry l)
      (ap (λ (f : ℕ → Bool). f k) done.bad_read_same)

-- Of a file that the path leads to, whose block numbers all have a bit, at a path that resolves to at
-- most nine components, whose entry is the only one with its name in a directory that can be read, where
-- the block of the entry and the bitmap block can be written, and where the way to the directory runs
-- over other blocks: fs_unlink succeeds, and fs_getattr of the resolved path then returns -ENOENT.
pub fs_unlink-fs_getattr :
    (path pp : List ℕ) (inum pinum : ℕ) (n parent : Inode) (name : Name) (h : Hit) (map : Block)
    (s : State)
    → IsPath path
    → parent_of path ≡ ok (pp, name)
    → length (resolve_path (pathparse path)) ≤ 9
    → translate s.dev path ≡ ok (inum, n)
    → is_dir n.mode ≡ false
    → translate s.dev pp ≡ ok (pinum, parent)
    → is_dir parent.mode ≡ true
    → find_in_dir (is_named name) s.dev parent ≡ ok (some h)
    → IsOnly s.dev parent name h
    → s.bitmap ≡ some map
    → file_blocks n.size ≤ 1019
    → ((j : ℕ) → j < file_blocks n.size → n.ptrs j < 32768)
    → inum < 32768
    → IsWritable s.dev h.lba
    → IsWritable s.dev 1
    → ((j : ℕ) → j < dir_blocks parent.size → parent.ptrs j ≢ 1)
    → h.lba ≢ 1
    → Trail (IsBeside s h) s.dev (pathparse pp) start
    → IsBeside s h pinum
    → (t : State) × (fs_unlink path s ≡ (ok tt, t))
      × (fs_getattr t (slash ∷ join (resolve_path (pathparse path))) ≡ err enoent)
unfolding fs_getattr
fs_unlink-fs_getattr path pp inum pinum n parent name h map s isp p short e file there dir here only
      b few small inum_small entry_ok map_ok apart entry_apart trail beside =
    let parted = parent_of-Parted path pp name isp p in
    let (t, ran, done) =
      fs_unlink-runs path inum n parent name h map s e file
        (parent_dir-to path pp name pinum parent s p there dir) here only b few small inum_small
        entry_ok map_ok apart entry_apart in
    let same = same-IsBeside inum n parent name h map s t done in
    let (way, old) =
      lookup-translate s.dev pp pinum parent parted.front_real parted.front_short there in
    let again : read_inode t.dev pinum ≡ ok parent =
      unfold read_inode in (ap (λ r. r >>= λ b. ok (decode_inode b)) (same pinum beside) ∙ old) in
    let found =
      translate-frame (IsBeside s h) s.dev t.dev pp pinum parent parent same trail there again in
    let (way', old') =
      lookup-translate t.dev pp pinum parent parted.front_real parted.front_short found in
    let front = pathparse pp in
    let whole : resolve_path (pathparse path) ≡ front ++ (name ∷ []) = sym parted.together in
    let gone =
      translate-missing t.dev front name pinum parent
        (All-append IsPlain front (name ∷ []) parted.front_plain (parted.name_plain, tt))
        (All-append IsReal front (name ∷ []) parted.front_real (parted.name_real, tt))
        (rw (← whole) short) way' old' dir done.name_gone in
    (t, ran, rw (whole, gone))
