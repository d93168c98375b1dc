-- ===== src/Path/Parent.antt =====
-- The parent path and the name that the operations on an entry make of a path.
use cs5600_project_3_file_sy.Common.{
  ℕ, zero, suc, ◌≤◌, ◌<◌, ◌≡◌, ◌≢◌, inl, inr, sym, ap, List, [], ◌∷◌, ◌++◌, some, Option-cases,
  false, length, All, ◌==◌, arith, length-append,
}
use cs5600_project_3_file_sy.Outcome.{ok}
use cs5600_project_3_file_sy.Path.{
  Name, slash, skip_slashes, cut, strtok, tokens, pathparse, resolve_path, join, split_last,
  parent_of,
}
use cs5600_project_3_file_sy.Path.Split.{
  IsPlain, List-cases, tokens-strtok, tokens_end, strtok_end, strtok-skip_slashes,
  skip_slashes-head, pathparse-join,
}
use cs5600_project_3_file_sy.Path.Resolve.{
  IsReal, All-weaken, resolve_path-All, resolve_path-IsReal, length-resolve_path,
}

-- The bytes of a path, before its NUL.
abbrev pub IsPath : List ℕ → Type 0
IsPath = All (λ c. (0 < c) × (c < 256))

skip_slashes-IsPath : (s : List ℕ) → IsPath s → IsPath (skip_slashes s)
unfolding skip_slashes
skip_slashes-IsPath [] h = tt
skip_slashes-IsPath (c ∷ s) h = ground (arith, skip_slashes-IsPath s h.1)

cut-IsPath :
    (s : List ℕ)
    → IsPath s
    → All (λ c. (c ≢ slash) × (0 < c) × (c < 256)) (cut s).0 × IsPath (cut s).1
unfolding cut
cut-IsPath [] h = (tt, tt)
cut-IsPath (c ∷ s) h = ground (arith, cut-IsPath s h.1)

cut_nonempty : (c : ℕ) (s : List ℕ) → (c == slash) ≡ false → (cut (c ∷ s)).0 ≢ []
unfolding cut
cut_nonempty c s h e = ground arith

-- Every component that pathparse finds is plain.
tokens-IsPlain : (n : ℕ) (s : List ℕ) → IsPath s → All IsPlain (tokens n s)
unfolding tokens
tokens-IsPlain zero s h = tt
tokens-IsPlain (suc n) s h = elim (List-cases (skip_slashes s)) [
  | inl e ↦ rw (tokens_end n s (strtok_end s e)) tt
  | inr (c, t, e) ↦
      let path : IsPath (c ∷ t) = rw e at (skip_slashes-IsPath s h) in
      rw (tokens-strtok n s (cut (c ∷ t)).1 (cut (c ∷ t)).0 (strtok-skip_slashes s t c e)) (
        (cut_nonempty c t (skip_slashes-head s t c e), (cut-IsPath (c ∷ t) path).0),
        tokens-IsPlain n (cut (c ∷ t)).1 (cut-IsPath (c ∷ t) path).1,
      )
]

length-tokens : (n : ℕ) (s : List ℕ) → length (tokens n s) ≤ n
unfolding tokens
length-tokens zero s = omega arith
length-tokens (suc n) s = elim (Option-cases (strtok s)) [
  | inl e ↦ rw (tokens_end n s e) (omega arith)
  | inr ((t, rest), e) ↦ rw (tokens-strtok n s rest t e) (omega (arith, length-tokens n rest))
]

pathparse-IsPlain : (path : List ℕ) → IsPath path → All IsPlain (pathparse path)
unfolding pathparse
pathparse-IsPlain path h = tokens-IsPlain 10 path h

pub length-pathparse : (path : List ℕ) → length (pathparse path) ≤ 10
unfolding pathparse
length-pathparse path = length-tokens 10 path

split_last-append :
    (cs front : List Name) (last : Name)
    → split_last cs ≡ some (front, last)
    → cs ≡ front ++ (last ∷ [])
unfolding split_last
split_last-append [] front last h = cc
split_last-append (c ∷ []) front last h = ground arith
split_last-append (c ∷ d ∷ cs) front last h = elim (Option-cases (split_last (d ∷ cs))) [
  | inl e ↦ ground arith
  | inr ((f, l), e) ↦ ground (arith, split_last-append (d ∷ cs) f l)
]

All-front :
    (P : Name → Type 0) (front : List Name) (last : Name)
    → All P (front ++ (last ∷ []))
    → All P front × P last
All-front P [] last h = (tt, h.0)
All-front P (c ∷ cs) last (p, h) = ((p, (All-front P cs last h).0), (All-front P cs last h).1)

-- What `parent_of` finds.
pub record Parted (path pp : List ℕ) (name : Name) : Type 0 where
  pub front_plain : All IsPlain (pathparse pp)
  pub front_real : All IsReal (pathparse pp)
  pub front_short : length (pathparse pp) ≤ 9
  pub name_plain : IsPlain name
  pub name_real : IsReal name
  pub together : pathparse pp ++ (name ∷ []) ≡ resolve_path (pathparse path)

parent_of-split_last :
    (path pp : List ℕ) (name : Name)
    → parent_of path ≡ ok (pp, name)
    → (front : List Name) × (split_last (resolve_path (pathparse path)) ≡ some (front, name))
      × (pp ≡ slash ∷ join front)
unfolding parent_of
parent_of-split_last path pp name h =
    elim (Option-cases (split_last (resolve_path (pathparse path)))) [
      | inl f ↦ ground arith
      | inr ((front, last), f) ↦ (front, ground arith, ground arith)
    ]

module _ (path : List ℕ) (front : List Name) (name : Name) (h : IsPath path)
    (whole : resolve_path (pathparse path) ≡ front ++ (name ∷ [])) where
  items : All IsPlain front × IsPlain name
  items = All-front IsPlain front name (
      rw (← whole) (
        All-weaken (λ t. IsPlain t × IsReal t) IsPlain (resolve_path (pathparse path)) (λ t k. k.0)
          (resolve_path-All IsPlain (pathparse path) (pathparse-IsPlain path h))))

  reals : All IsReal front × IsReal name
  reals = All-front IsReal front name (rw (← whole) (resolve_path-IsReal (pathparse path)))

  short : length front ≤ 9
  short = omega (
    arith,
    length-resolve_path (pathparse path),
    length-pathparse path,
    ap length whole,
    length-append front (name ∷ []),
  )

  front-Parted : Parted path (slash ∷ join front) name
  front-Parted =
      let e : pathparse (slash ∷ join front) ≡ front =
        pathparse-join front items.0 (omega (arith, short)) in
      record {
        front_plain = rw e items.0;
        front_real = rw e reals.0;
        front_short = rw e short;
        name_plain = items.1;
        name_real = reals.1;
        together = rw e (sym whole);
      }

-- For a path of bytes that are no NUL whose parent path can be built: parsing the parent path
-- gives the resolved components but the last, nine at most and none of them a dot, and the name is
-- the last.
pub parent_of-Parted :
    (path pp : List ℕ) (name : Name)
    → IsPath path
    → parent_of path ≡ ok (pp, name)
    → Parted path pp name
parent_of-Parted path pp name h e =
    let (front, split, parent) = parent_of-split_last path pp name e in
    rw parent (
      front-Parted path front name h
        (split_last-append (resolve_path (pathparse path)) front name split))
