-- ===== src/Translate/Frame.antt =====
-- Which blocks translate reads.
use cs5600_project_3_file_sy.Common.{
  Bool, none, some, ℕ, ◌<◌, ◌≡◌, inl, inr, refl, ap, ◌∙◌, List, [], ◌∷◌, arith,
}
use cs5600_project_3_file_sy.Outcome.{
  Outcome-cases, >>=-eq-ok, ok, err, ◌>>=◌, ◌>>◌, require, enotdir, enoent,
}
use cs5600_project_3_file_sy.Disk.{Block, Device, block_read}
use cs5600_project_3_file_sy.Format.{Inode, is_dir, decode_inode}
use cs5600_project_3_file_sy.Path.{Name, pathparse}
use cs5600_project_3_file_sy.Dir.{read_inode, dir_blocks, find_in_dir, is_named, hit_inode}
use cs5600_project_3_file_sy.Dir.Insert.{find_from-cong}
use cs5600_project_3_file_sy.Translate.{Cursor, start, descend, enter, step, walk, translate}

-- Blocks that read the same on two images.
abbrev pub SameOn : (ℕ → Type 0) → Device → Device → Type 0
SameOn P d d' = (k : ℕ) → P k → block_read d' k ≡ block_read d k

-- The directory with the inode number `inum` is kept in such blocks.
pub record IsKept (P : ℕ → Type 0) (d : Device) (inum : ℕ) : Type 0 where
  pub inode : P inum
  pub entries :
      (n : Inode) (j : ℕ) → read_inode d inum ≡ ok n → j < dir_blocks n.size → P (n.ptrs j)

-- So is each directory that the walk goes through; a walk that stops asks for no more.
abbrev pub Trail : (ℕ → Type 0) → Device → List Name → Cursor → Type 0
Trail P d [] c = Unit
Trail P d (name ∷ names) c =
    IsKept P d c.inum × ((c' : Cursor) → step d name c ≡ ok c' → Trail P d names c')

find_in_dir-frame :
    (P : ℕ → Type 0) (p : Block → ℕ → Bool) (d d' : Device) (n : Inode)
    → SameOn P d d'
    → ((j : ℕ) → j < dir_blocks n.size → P (n.ptrs j))
    → find_in_dir p d' n ≡ find_in_dir p d n
unfolding find_in_dir
find_in_dir-frame P p d d' n same kept =
    find_from-cong p d d' n 0 (dir_blocks n.size) (λ j l m. same (n.ptrs j) (kept j (omega arith)))

enter-frame :
    (P : ℕ → Type 0) (d d' : Device) (name : Name) (c : Cursor)
    → SameOn P d d'
    → IsKept P d c.inum
    → enter d' name c ≡ enter d name c
unfolding enter
enter-frame P d d' name c same kept =
    let goes = λ (dev : Device) (n : Inode).
      require (is_dir n.mode) enotdir
      >> (find_in_dir (is_named name) dev n >>= λ hit. elim hit [
        | none ↦ err enoent
        | some h ↦ descend c (hit_inode h)
      ]) in
    let inode : read_inode d' c.inum ≡ read_inode d c.inum =
      unfold read_inode in ap (λ r. r >>= λ b. ok (decode_inode b)) (same c.inum kept.inode) in
    ap (λ r. r >>= goes d') inode ∙ elim (Outcome-cases (read_inode d c.inum)) [
      | inl (n, e) ↦
          let found =
            find_in_dir-frame P (is_named name) d d' n same (λ j l. kept.entries n j e l) in
          rw (e, found)
      | inr (inl (x, e)) ↦ rw e
      | inr (inr e) ↦ rw e
    ]

step-frame :
    (P : ℕ → Type 0) (d d' : Device) (name : Name) (c : Cursor)
    → SameOn P d d'
    → IsKept P d c.inum
    → step d' name c ≡ step d name c
unfolding step
step-frame P d d' name c same kept = rw (enter-frame P d d' name c same kept)

pub walk-frame :
    (P : ℕ → Type 0) (d d' : Device) (names : List Name) (c : Cursor)
    → SameOn P d d'
    → Trail P d names c
    → walk d' names c ≡ walk d names c
unfolding walk
walk-frame P d d' [] c same trail = refl
walk-frame P d d' (name ∷ names) c same (kept, on) =
    ap (λ r. r >>= walk d' names) (step-frame P d d' name c same kept)
    ∙ elim (Outcome-cases (step d name c)) [
      | inl (c', e) ↦ rw e (walk-frame P d d' names c' same (on c' e))
      | inr (inl (x, e)) ↦ rw e
      | inr (inr e) ↦ rw e
    ]

-- Where the path leads, on the other image, when the inode there may have changed.
pub translate-frame :
    (P : ℕ → Type 0) (d d' : Device) (path : List ℕ) (inum : ℕ) (n n' : Inode)
    → SameOn P d d'
    → Trail P d (pathparse path) start
    → translate d path ≡ ok (inum, n)
    → read_inode d' inum ≡ ok n'
    → translate d' path ≡ ok (inum, n')
unfolding translate
translate-frame P d d' path inum n n' same trail e r =
    let (c, f, g) =
      >>=-eq-ok (walk d (pathparse path) start) (λ c. read_inode d c.inum >>= λ n. ok (c.inum, n))
        e in
    let (n1, f1, g1) = >>=-eq-ok (read_inode d c.inum) (λ n. ok (c.inum, n)) g in
    let here : c.inum ≡ inum = cc in
    rw (walk-frame P d d' (pathparse path) start same trail, f, here, r)
