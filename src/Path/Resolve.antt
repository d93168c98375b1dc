-- ===== src/Path/Resolve.antt =====
-- resolve_path on components, and on the components of a path.
use cs5600_project_3_file_sy.Common.{
  ◌+◌, ◌≤◌, ◌≡◌, refl, sym, List, [], ◌∷◌, ◌++◌, false, length, All, arith, str_eq, All-append,
  length-append,
}
use mathlib.Core.List.{reverse, reverse-cons, reverse-reverse, append-nil, append_assoc}
use cs5600_project_3_file_sy.Path.{
  Name, dot, dotdot, drop_last, resolve_step, resolve_from, resolve_path,
}

-- A component that is neither "." nor "..".
abbrev pub IsReal : Name → Type 0
IsReal t = (str_eq t dot ≡ false) × (str_eq t dotdot ≡ false)

All-drop_last : (P : Name → Type 0) (ts : List Name) → All P ts → All P (drop_last ts)
All-drop_last P [] h = tt
All-drop_last P (t ∷ ts) h = h.1

module _ (P : Name → Type 0) where
  abbrev Kept : List Name → Type 0
  Kept = All (λ t. P t × IsReal t)

  resolve_step-All : (c : Name) (ts : List Name) → P c → Kept ts → Kept (resolve_step c ts)
  unfolding resolve_step
  resolve_step-All c ts p k = ground (arith, All-drop_last (λ t. P t × IsReal t) ts k)

  resolve_from-All : (cs ts : List Name) → All P cs → Kept ts → Kept (resolve_from cs ts)
  unfolding resolve_from
  resolve_from-All [] ts h k = k
  resolve_from-All (c ∷ cs) ts (p, h) k =
      resolve_from-All cs (resolve_step c ts) h (resolve_step-All c ts p k)

  All-reverse : (ts : List Name) → Kept ts → Kept (reverse ts)
  All-reverse [] k = tt
  All-reverse (t ∷ ts) (p, k) =
      rw (reverse-cons t ts)
        (All-append (λ u. P u × IsReal u) (reverse ts) (t ∷ []) (All-reverse ts k) (p, tt))

  -- Each item of the result is one of the components, and real.
  pub resolve_path-All : (cs : List Name) → All P cs → Kept (resolve_path cs)
  unfolding resolve_path
  resolve_path-All cs h = All-reverse (resolve_from cs []) (resolve_from-All cs [] h tt)

length-reverse : (ts : List Name) → length (reverse ts) ≡ length ts
length-reverse [] = refl
length-reverse (t ∷ ts) =
    rw (reverse-cons t ts) (omega (arith, length-append (reverse ts) (t ∷ []), length-reverse ts))

length-resolve_step : (c : Name) (ts : List Name) → length (resolve_step c ts) ≤ length ts + 1
unfolding resolve_step
length-resolve_step c [] = ground arith
length-resolve_step c (t ∷ ts) = ground arith

length-resolve_from : (cs ts : List Name) → length (resolve_from cs ts) ≤ length cs + length ts
unfolding resolve_from
length-resolve_from [] ts = omega arith
length-resolve_from (c ∷ cs) ts =
    omega (arith, length-resolve_from cs (resolve_step c ts), length-resolve_step c ts)

pub length-resolve_path : (cs : List Name) → length (resolve_path cs) ≤ length cs
unfolding resolve_path
length-resolve_path cs =
    omega (arith, length-reverse (resolve_from cs []), length-resolve_from cs [])

resolve_from-real : (cs ts : List Name) → All IsReal cs → resolve_from cs ts ≡ reverse cs ++ ts
unfolding resolve_from resolve_step
resolve_from-real [] ts h = refl
resolve_from-real (c ∷ cs) ts ((p, q), h) =
    rw (p, q, resolve_from-real cs (c ∷ ts) h, reverse-cons c cs)
      (sym (append_assoc (reverse cs) (c ∷ []) ts))

pub resolve_path-real : (cs : List Name) → All IsReal cs → resolve_path cs ≡ cs
unfolding resolve_path
resolve_path-real cs h = rw (resolve_from-real cs [] h, append-nil) (reverse-reverse cs)

pub All-weaken :
    (P Q : Name → Type 0) (ts : List Name) → ((t : Name) → P t → Q t) → All P ts → All Q ts
All-weaken P Q [] f h = tt
All-weaken P Q (t ∷ ts) f h = (f t h.0, All-weaken P Q ts f h.1)

All-unit : (ts : List Name) → All (λ t. Unit {0}) ts
All-unit [] = tt
All-unit (t ∷ ts) = (tt, All-unit ts)

pub resolve_path-IsReal : (cs : List Name) → All IsReal (resolve_path cs)
resolve_path-IsReal cs =
    All-weaken (λ t. Unit {0} × IsReal t) IsReal (resolve_path cs) (λ t h. h.1)
      (resolve_path-All (λ t. Unit {0}) cs (All-unit cs))

-- resolve_path leaves no "." and no "..", no more components than there were, and what it leaves it
-- does not change again.
pub resolve_path_lem :
    (cs : List Name)
    → All IsReal (resolve_path cs)
      × (length (resolve_path cs) ≤ length cs)
      × (resolve_path (resolve_path cs) ≡ resolve_path cs)
resolve_path_lem cs = (
  resolve_path-IsReal cs,
  length-resolve_path cs,
  resolve_path-real (resolve_path cs) (resolve_path-IsReal cs),
)
