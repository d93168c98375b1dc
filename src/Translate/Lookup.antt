-- ===== src/Translate/Lookup.antt =====
-- What translate is meant to do, as a specification of its own: each component is looked up in the
-- directory that the last one led to.
use cs5600_project_3_file_sy.Common.{
  ℕ, ◌+◌, ◌≤◌, ◌<◌, ◌≡◌, inl, inr, refl, ap, ◌∙◌, List, [], ◌∷◌, Option, none, some, length, All,
  arith, ◌==◌, if◌then◌else◌, lt→ltb,
}
use cs5600_project_3_file_sy.Outcome.{
  Outcome, Outcome-cases, ok, err, crash, ◌>>=◌, ◌>>◌, require, enoent, enotdir,
}
use cs5600_project_3_file_sy.Disk.{Device}
use cs5600_project_3_file_sy.Format.{Inode, is_dir}
use cs5600_project_3_file_sy.Path.{Name, pathparse}
use cs5600_project_3_file_sy.Path.Resolve.{IsReal}
use cs5600_project_3_file_sy.Dir.{Hit, read_inode, find_in_dir, is_named, hit_inode}
use cs5600_project_3_file_sy.Translate.{
  Cursor, start, root_inum, descend, enter, step, walk, translate,
}

-- The inode number under a name in a directory.
abbrev pub hit_or_enoent : Option Hit → Outcome ℕ
hit_or_enoent none = err enoent
hit_or_enoent (some h) = ok (hit_inode h)

unfoldable pub child : Device → ℕ → Name → Outcome ℕ
child d inum name = read_inode d inum >>= λ n.
    require (is_dir n.mode) enotdir >> (find_in_dir (is_named name) d n >>= hit_or_enoent)

unfoldable pub lookup : Device → ℕ → List Name → Outcome ℕ
lookup d inum [] = ok inum
lookup d inum (name ∷ names) = child d inum name >>= λ i. lookup d i names

pub enter-child :
    (d : Device) (name : Name) (c : Cursor) → enter d name c ≡ (child d c.inum name >>= descend c)
unfolding enter child
enter-child d name c = ground arith

pub step-real :
    (d : Device) (name : Name) (c : Cursor)
    → IsReal name
    → step d name c ≡ (child d c.inum name >>= descend c)
unfolding step
step-real d name c (p, q) = rw (p, q) (enter-child d name c)

-- Where the array has room, one level down.
abbrev pub below : Cursor → ℕ → Cursor
below c i = record {
  inum = i;
  stack = λ j. if j == c.stack_pos + 1 then c.inum else c.stack j;
  stack_pos = c.stack_pos + 1;
}

pub descend-below : (c : Cursor) (i : ℕ) → c.stack_pos + 1 < 10 → descend c i ≡ ok (below c i)
unfolding descend
descend-below c i h = rw (lt→ltb (c.stack_pos + 1) 10 h)

abbrev pub inum_of : Outcome Cursor → Outcome ℕ
inum_of r = r >>= λ c. ok c.inum

pub walk-lookup :
    (d : Device) (names : List Name) (c : Cursor)
    → All IsReal names
    → c.stack_pos + length names < 10
    → inum_of (walk d names c) ≡ lookup d c.inum names
unfolding walk lookup
walk-lookup d [] c h l = refl
walk-lookup d (name ∷ names) c (p, h) l = elim (Outcome-cases (child d c.inum name)) [
  | inl (i, e) ↦
      rw (step-real d name c p, e, descend-below c i (omega arith))
        (walk-lookup d names (below c i) h (omega arith))
  | inr (inl (x, e)) ↦ rw (step-real d name c p, e)
  | inr (inr e) ↦ rw (step-real d name c p, e)
]

via_inum :
    (r : Outcome Cursor) (f : ℕ → Outcome (ℕ × Inode)) → (r >>= λ c. f c.inum) ≡ (inum_of r >>= f)
via_inum (ok c) f = refl
via_inum (err e) f = refl
via_inum crash f = refl

-- On a path of at most nine components that are no dots, translate is the plain lookup from the root
-- and the inode there, the same errors included, and it never runs over its stack.
pub translate-lookup :
    (d : Device) (path : List ℕ)
    → All IsReal (pathparse path)
    → length (pathparse path) ≤ 9
    → translate d path
      ≡ (lookup d root_inum (pathparse path) >>= λ i. read_inode d i >>= λ n. ok (i, n))
unfolding translate
translate-lookup d path h l =
    via_inum (walk d (pathparse path) start) (λ i. read_inode d i >>= λ n. ok (i, n))
    ∙ ap (λ (r : Outcome ℕ). r >>= λ i. read_inode d i >>= λ n. ok (i, n))
        (walk-lookup d (pathparse path) start h (omega arith))
