-- ===== src/Create/Findable.antt =====
-- fs_create and then fs_getattr of the same file.
use cs5600_project_3_file_sy.Common.{
  ℕ, ◌^◌, ◌≤◌, ◌<◌, ◌≡◌, ◌≢◌, refl, sym, ap, ◌∙◌, List, [], ◌∷◌, ◌++◌, All, All-append, length,
  arith, true, false, some, inl, inr,
}
use cs5600_project_3_file_sy.Outcome.{
  Outcome, Outcome-cases, err, crash, ok, ◌>>=◌, >>=-eq-ok, enotdir,
}
use cs5600_project_3_file_sy.Disk.{Block, Device}
use cs5600_project_3_file_sy.Bitmap.{has_bit}
use cs5600_project_3_file_sy.Format.{Inode, decode_inode, is_dir}
use cs5600_project_3_file_sy.Format.Strings.{IsChar}
use cs5600_project_3_file_sy.Format.Inodes.{IsInode, decode_inode-encode_inode}
use cs5600_project_3_file_sy.Path.{Name, slash, pathparse, resolve_path, parent_of, join}
use cs5600_project_3_file_sy.Path.Split.{IsPlain, pathparse-join}
use cs5600_project_3_file_sy.Path.Resolve.{IsReal}
use cs5600_project_3_file_sy.Path.Parent.{IsPath, parent_of-Parted}
use cs5600_project_3_file_sy.Dir.{Hit, read_inode, dir_blocks, find_in_dir, is_named, hit_inode}
use cs5600_project_3_file_sy.Translate.{root_inum, start, translate}
use cs5600_project_3_file_sy.Translate.Lookup.{child, lookup, translate-lookup}
use cs5600_project_3_file_sy.Translate.Frame.{SameOn, Trail, translate-frame}
use cs5600_project_3_file_sy.State.{State, Env, M, lift, reads}
use cs5600_project_3_file_sy.State
use cs5600_project_3_file_sy.State.Runs.{lift-to, reads-to, require-to}
use cs5600_project_3_file_sy.Query.{setstat, fs_getattr}
use cs5600_project_3_file_sy.Create.{parent_dir, new_file, fs_create}
use cs5600_project_3_file_sy.Create.Entry.{IsSound, used-ne_free}
use cs5600_project_3_file_sy.Create.Created.{Created, fs_create-Created}

plain-IsChar : (name : Name) → All (λ c. (c ≢ slash) × (0 < c) × (c < 256)) name → All IsChar name
plain-IsChar [] h = tt
plain-IsChar (c ∷ cs) h = ((h.0.1, h.0.2), plain-IsChar cs h.1)

pub parent_dir-to :
    (path pp : List ℕ) (name : Name) (pinum : ℕ) (parent : Inode) (s : State)
    → parent_of path ≡ ok (pp, name)
    → translate s.dev pp ≡ ok (pinum, parent)
    → is_dir parent.mode ≡ true
    → parent_dir path s ≡ (ok (parent, name), s)
unfolding parent_dir
parent_dir-to path pp name pinum parent s p e dir =
    let finish = λ (name : Name) (r : ℕ × Inode).
      let last : M (Inode × Name) = lift (ok (r.1, name)) in
      State.◌>>◌ (State.require (is_dir r.1.mode) enotdir) last in
    lift-to (parent_of path) (λ r. State.◌>>=◌ (reads (λ s. translate s.dev r.0)) (finish r.1)) s
      (pp, name) p
    ∙ reads-to (λ s. translate s.dev pp) (finish name) s (pinum, parent) e
    ∙ require-to (is_dir parent.mode) enotdir (lift (ok (parent, name))) s dir

pub lookup-append :
    (d : Device) (i : ℕ) (xs : List Name) (y : Name)
    → lookup d i (xs ++ (y ∷ [])) ≡ (lookup d i xs >>= λ k. child d k y)
unfolding lookup
lookup-append d i [] y = only (child d i y)
  where
    only : (r : Outcome ℕ) → (r >>= λ k. ok k) ≡ r
    only (ok k) = refl
    only (err e) = refl
    only crash = refl
lookup-append d i (x ∷ xs) y = elim (Outcome-cases (child d i x)) [
  | inl (k, e) ↦ rw e (lookup-append d k xs y)
  | inr (inl (z, e)) ↦ rw e
  | inr (inr e) ↦ rw e
]

-- The directory that a path of real components leads to.
pub lookup-translate :
    (d : Device) (path : List ℕ) (inum : ℕ) (n : Inode)
    → All IsReal (pathparse path)
    → length (pathparse path) ≤ 9
    → translate d path ≡ ok (inum, n)
    → (lookup d root_inum (pathparse path) ≡ ok inum) × (read_inode d inum ≡ ok n)
lookup-translate d path inum n real short e =
    let (i, f, g) =
      >>=-eq-ok (lookup d root_inum (pathparse path)) (λ i. read_inode d i >>= λ n. ok (i, n))
        (sym (translate-lookup d path real short) ∙ e) in
    let (n1, f1, g1) = >>=-eq-ok (read_inode d i) (λ n. ok (i, n)) g in
    let same : i ≡ inum = cc in
    let same_n : n1 ≡ n = cc in (f ∙ ap ok same, ap (read_inode d) (sym same) ∙ f1 ∙ ap ok same_n)

child-hit :
    (d : Device) (inum : ℕ) (n : Inode) (name : Name) (hit : Hit)
    → read_inode d inum ≡ ok n
    → is_dir n.mode ≡ true
    → find_in_dir (is_named name) d n ≡ ok (some hit)
    → child d inum name ≡ ok (hit_inode hit)
unfolding child
child-hit d inum n name hit r dir f = rw (r, dir, f)

-- A file that stands in a directory, by its path.
pub translate-child :
    (d : Device) (front : List Name) (name : Name) (pinum inum : ℕ) (parent n : Inode) (hit : Hit)
    → All IsPlain (front ++ (name ∷ []))
    → All IsReal (front ++ (name ∷ []))
    → length (front ++ (name ∷ [])) ≤ 9
    → lookup d root_inum front ≡ ok pinum
    → read_inode d pinum ≡ ok parent
    → is_dir parent.mode ≡ true
    → find_in_dir (is_named name) d parent ≡ ok (some hit)
    → hit_inode hit ≡ inum
    → read_inode d inum ≡ ok n
    → translate d (slash ∷ join (front ++ (name ∷ []))) ≡ ok (inum, n)
translate-child d front name pinum inum parent n hit plain real short there r dir f at rn =
    let path = slash ∷ join (front ++ (name ∷ [])) in
    let parsed : pathparse path ≡ front ++ (name ∷ []) =
      pathparse-join (front ++ (name ∷ [])) plain (omega arith) in
    let found : lookup d root_inum (pathparse path) ≡ ok inum =
      ap (lookup d root_inum) parsed
      ∙ lookup-append d root_inum front name
      ∙ ap (λ r. r >>= λ k. child d k name) there
      ∙ child-hit d pinum parent name hit r dir f
      ∙ ap ok at in
    translate-lookup d path (rw parsed real) (rw parsed short)
    ∙ ap (λ r. r >>= λ i. read_inode d i >>= λ n. ok (i, n)) found
    ∙ ap (λ r. r >>= λ n. ok (inum, n)) rn

-- A block in use that is not the parent directory's.
abbrev pub IsAside : State → Block → Inode → ℕ → Type 0
IsAside s map parent k =
    (has_bit map k ≡ true)
    × (2 ≤ k)
    × (k < s.dev.blocks)
    × ((j : ℕ) → j < dir_blocks parent.size → parent.ptrs j ≢ k)

pub new_file-IsInode : (env : Env) (mode : ℕ) → mode < 2 ^ 32 → IsInode (new_file env mode)
unfolding new_file
new_file-IsInode env mode h = record {
  uid_fits = omega arith;
  gid_fits = omega arith;
  mode_fits = h;
  ctime_fits = omega arith;
  mtime_fits = omega arith;
  size_fits = omega arith;
  ptrs_fit = λ i. omega arith;
}

module _ (env : Env) (mode : ℕ) (parent : Inode) (name : Name) (map : Block) (s t : State)
    (done : Created env mode parent name map s t) where
  pub same-IsAside : SameOn (IsAside s map parent) s.dev t.dev
  same-IsAside k (used, two, inside, ne) =
      done.others k (omega arith) (used-ne_free map k done.inum used done.was_free) ne inside

  pub new_inode :
      mode < 2 ^ 32
      → ((k : ℕ) → has_bit map k ≡ false → s.dev.bad_read k ≡ false)
      → read_inode t.dev done.inum ≡ ok (new_file env mode)
  unfolding read_inode
  new_inode small good =
      rw (done.reads (good done.inum done.was_free))
        (ap ok (decode_inode-encode_inode (new_file env mode) (new_file-IsInode env mode small)))

-- If fs_create with a mode of 32 bits succeeds in a sound directory, at a path that resolves to at
-- most nine components, the last of at most 26 bytes, on a disk that the bitmap covers, with free
-- blocks that can be read, and where the way to the directory runs over blocks in use that are not
-- the directory's own, then fs_getattr of the resolved path gives the attributes of the new file.
pub fs_create-fs_getattr :
    (env : Env) (path pp : List ℕ) (name : Name) (mode pinum : ℕ) (parent : Inode) (map : Block)
    (s t : State)
    → IsPath path
    → parent_of path ≡ ok (pp, name)
    → length (resolve_path (pathparse path)) ≤ 9
    → length name ≤ 26
    → translate s.dev pp ≡ ok (pinum, parent)
    → is_dir parent.mode ≡ true
    → s.bitmap ≡ some map
    → s.super.disk_size ≤ 32768
    → IsSound s map parent
    → Trail (IsAside s map parent) s.dev (pathparse pp) start
    → IsAside s map parent pinum
    → ((k : ℕ) → has_bit map k ≡ false → s.dev.bad_read k ≡ false)
    → mode < 2 ^ 32
    → fs_create env path mode s ≡ (ok tt, t)
    → fs_getattr t (slash ∷ join (resolve_path (pathparse path))) ≡ ok (setstat (new_file env mode))
unfolding fs_getattr
fs_create-fs_getattr env path pp name mode pinum parent map s t isp p short fits e dir b disk sound
      trail aside good small h =
    let parted = parent_of-Parted path pp name isp p in
    let done =
      fs_create-Created env path mode s t map parent name
        (parent_dir-to path pp name pinum parent s p e dir) b disk sound
        (plain-IsChar name parted.name_plain.1) fits h in
    let same = same-IsAside env mode parent name map s t done in
    let (way, old) =
      lookup-translate s.dev pp pinum parent parted.front_real parted.front_short e in
    let again : read_inode t.dev pinum ≡ ok parent =
      unfold read_inode in (ap (λ r. r >>= λ b. ok (decode_inode b)) (same pinum aside) ∙ old) in
    let e' =
      translate-frame (IsAside s map parent) s.dev t.dev pp pinum parent parent same trail e
        again in
    let (way', old') =
      lookup-translate t.dev pp pinum parent parted.front_real parted.front_short e' in
    let front = pathparse pp in
    let whole : resolve_path (pathparse path) ≡ front ++ (name ∷ []) = sym parted.together in
    let found =
      translate-child t.dev front name pinum done.inum parent (new_file env mode) done.hit
        (All-append IsPlain front (name ∷ []) parted.front_plain (parted.name_plain, tt))
        (All-append IsReal front (name ∷ []) parted.front_real (parted.name_real, tt))
        (rw (← whole) short) way' old' dir done.found done.leads_there
        (new_inode env mode parent name map s t done small good) in
    rw (whole, found)
