-- ===== src/Translate/Dots.antt =====
-- translate on ".." and on paths of ten components, in terms of lookups.
use cs5600_project_3_file_sy.Common.{ℕ, ◌+◌, ◌<◌, ◌≡◌, refl, List, [], ◌∷◌, length, All, arith}
use cs5600_project_3_file_sy.Outcome.{ok, crash, >>=-eq-ok}
use cs5600_project_3_file_sy.Disk.{Device}
use cs5600_project_3_file_sy.Path.{
  Name, dotdot, pathparse, resolve_path, resolve_from, resolve_step,
}
use cs5600_project_3_file_sy.Path.Resolve.{IsReal}
use cs5600_project_3_file_sy.Translate.{
  Cursor, start, root_inum, descend, go_up, step, walk, translate,
}
use cs5600_project_3_file_sy.Translate.Lookup.{
  child, lookup, step-real, below, descend-below, inum_of,
}

-- A real component that is there, with room on the stack.
walk-below :
    (d : Device) (name : Name) (names : List Name) (c : Cursor) (i : ℕ)
    → IsReal name
    → child d c.inum name ≡ ok i
    → c.stack_pos + 1 < 10
    → walk d (name ∷ names) c ≡ walk d names (below c i)
unfolding walk
walk-below d name names c i r e h = rw (step-real d name c r, e, descend-below c i h)

step-dotdot : (d : Device) (c : Cursor) → step d dotdot c ≡ ok (go_up c)
unfolding step
step-dotdot d c = refl

-- From the root, a component that is there and no dot, and then "..", lead back to the root.
pub dotdot_first :
    (d : Device) (x : Name) (i : ℕ)
    → IsReal x
    → child d root_inum x ≡ ok i
    → inum_of (walk d (x ∷ dotdot ∷ []) start) ≡ ok root_inum
unfolding walk step go_up
dotdot_first d x i r e = rw (walk-below d x (dotdot ∷ []) start i r e (omega arith))

-- From a directory that has `x`, which has `y`, with room on the stack, the components `x`, `y` and
-- ".." lead back to that directory, two levels up from `y`, where resolve_path leaves `x`.
pub dotdot_skips :
    (d : Device) (x y : Name) (c : Cursor) (i j : ℕ)
    → IsReal x
    → IsReal y
    → c.stack_pos < 8
    → child d c.inum x ≡ ok i
    → child d i y ≡ ok j
    → (inum_of (walk d (x ∷ y ∷ dotdot ∷ []) c) ≡ ok c.inum)
      × (resolve_path (x ∷ y ∷ dotdot ∷ []) ≡ x ∷ [])
unfolding walk step go_up resolve_path resolve_from resolve_step
dotdot_skips d x y c i j rx ry l ex ey = (
  rw
      (
        walk-below d x (y ∷ dotdot ∷ []) c i rx ex (omega arith),
        walk-below d y (dotdot ∷ []) (below c i) j ry ey (omega arith),
      )
      (ground arith),
  rw (rx.0, rx.1, ry.0, ry.1),
)

descend_full : (c : Cursor) (i : ℕ) → c.stack_pos ≡ 9 → descend c i ≡ crash
unfolding descend
descend_full c i h = ground arith

-- Components that are all there, but one more than the array has room for: `parent_stack[10]` is
-- written.
pub walk_overflow :
    (d : Device) (names : List Name) (c : Cursor) (j : ℕ)
    → All IsReal names
    → 0 < length names
    → c.stack_pos + length names ≡ 10
    → lookup d c.inum names ≡ ok j
    → walk d names c ≡ crash
unfolding walk lookup
walk_overflow d [] c j h p l e = absurd (omega arith)
walk_overflow d (x ∷ []) c j h p l e =
    let (i, f, g) = >>=-eq-ok (child d c.inum x) ok e in
    rw (step-real d x c h.0, f, descend_full c i (omega arith))
walk_overflow d (x ∷ y ∷ names) c j h p l e =
    let (i, f, g) = >>=-eq-ok (child d c.inum x) (λ k. lookup d k (y ∷ names)) e in
    rw (step-real d x c h.0, f, descend-below c i (omega arith))
      (walk_overflow d (y ∷ names) (below c i) j h.1 (omega arith) (omega arith) g)

-- A path of ten components, each of them there and no dot, makes translate write outside its array.
pub translate_overflow :
    (d : Device) (path : List ℕ) (j : ℕ)
    → All IsReal (pathparse path)
    → length (pathparse path) ≡ 10
    → lookup d root_inum (pathparse path) ≡ ok j
    → translate d path ≡ crash
unfolding translate
translate_overflow d path j h l e =
    rw (walk_overflow d (pathparse path) start j h (omega arith) (omega arith) e)
