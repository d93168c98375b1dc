-- ===== src/Path/Split.antt =====
-- pathparse against a description of it that does not scan: the parts between slashes that are not
-- empty, ten of them at most.
use cs5600_project_3_file_sy.Common.{
  ℕ, zero, suc, ◌≤◌, ◌≡◌, ◌≢◌, ◌⊎◌, inl, inr, refl, sym, ap, ◌∙◌, ◌<◌, List, [], ◌∷◌, ◌++◌, none,
  some, length, take, All, ◌==◌, if◌then◌else◌, arith, false,
}
use cs5600_project_3_file_sy.Path.{Name, slash, skip_slashes, cut, strtok, tokens, pathparse, join}

abbrev push_head : ℕ → List Name → List Name
push_head c [] = (c ∷ []) ∷ []
push_head c (t ∷ ts) = (c ∷ t) ∷ ts

-- The parts between slashes, the empty ones too.
abbrev pub parts : List ℕ → List Name
parts [] = [] ∷ []
parts (c ∷ s) = if c == slash then [] ∷ parts s else push_head c (parts s)

abbrev pub nonempty : List Name → List Name
nonempty [] = []
nonempty ([] ∷ ts) = nonempty ts
nonempty ((c ∷ t) ∷ ts) = (c ∷ t) ∷ nonempty ts

-- `cut` takes the first part, and leaves the others.
parts-cut :
    (s : List ℕ)
    → (parts s ≡ (cut s).0 ∷ parts (cut s).1) ⊎ ((parts s ≡ (cut s).0 ∷ []) × ((cut s).1 ≡ []))
unfolding cut
parts-cut [] = inr (refl, refl)
parts-cut (c ∷ s) = ground (arith, parts-cut s)

nonempty-skip_slashes : (s : List ℕ) → nonempty (parts (skip_slashes s)) ≡ nonempty (parts s)
unfolding skip_slashes
nonempty-skip_slashes [] = refl
nonempty-skip_slashes (c ∷ s) = ground (arith, nonempty-skip_slashes s)

-- What `skip_slashes` leaves does not begin with a slash.
pub skip_slashes-head : (s t : List ℕ) (c : ℕ) → skip_slashes s ≡ c ∷ t → (c == slash) ≡ false
unfolding skip_slashes
skip_slashes-head [] t c h = cc
skip_slashes-head (d ∷ s) t c h = ground (arith, skip_slashes-head s t c)

-- One token is the first part that is not empty.
nonempty-cut :
    (c : ℕ) (s : List ℕ)
    → (c == slash) ≡ false
    → nonempty (parts (c ∷ s)) ≡ (cut (c ∷ s)).0 ∷ nonempty (parts (cut (c ∷ s)).1)
unfolding cut
nonempty-cut c s h = ground (arith, parts-cut s)

pub strtok-skip_slashes :
    (s t : List ℕ) (c : ℕ) → skip_slashes s ≡ c ∷ t → strtok s ≡ some (cut (c ∷ t))
unfolding strtok
strtok-skip_slashes s t c e = rw (e, strtok)

pub strtok_end : (s : List ℕ) → skip_slashes s ≡ [] → strtok s ≡ none
unfolding strtok
strtok_end s e = rw (e, strtok)

pub tokens-strtok :
    (n : ℕ) (s rest : List ℕ) (t : Name)
    → strtok s ≡ some (t, rest)
    → tokens (suc n) s ≡ t ∷ tokens n rest
unfolding tokens
tokens-strtok n s rest t e = rw (e, tokens)

pub tokens_end : (n : ℕ) (s : List ℕ) → strtok s ≡ none → tokens (suc n) s ≡ []
unfolding tokens
tokens_end n s e = rw (e, tokens)

pub List-cases : (s : List ℕ) → (s ≡ []) ⊎ ((c : ℕ) × (t : List ℕ) × (s ≡ c ∷ t))
List-cases [] = inl refl
List-cases (c ∷ t) = inr (c, t, refl)

pub tokens-parts : (n : ℕ) (s : List ℕ) → tokens n s ≡ take n (nonempty (parts s))
unfolding tokens
tokens-parts zero s = refl
tokens-parts (suc n) s = elim (List-cases (skip_slashes s)) [
  | inl e ↦
      tokens_end n s (strtok_end s e)
      ∙ ap (take (suc n)) (ap (λ t. nonempty (parts t)) (sym e) ∙ nonempty-skip_slashes s)
  | inr (c, t, e) ↦
      tokens-strtok n s (cut (c ∷ t)).1 (cut (c ∷ t)).0 (strtok-skip_slashes s t c e)
      ∙ ap (λ ts. (cut (c ∷ t)).0 ∷ ts) (tokens-parts n (cut (c ∷ t)).1)
      ∙ ap (take (suc n)) (
          sym (nonempty-cut c t (skip_slashes-head s t c e))
          ∙ ap (λ u. nonempty (parts u)) (sym e)
          ∙ nonempty-skip_slashes s)
]

-- pathparse gives the first ten of the parts between slashes that are not empty.
pub pathparse-parts : (path : List ℕ) → pathparse path ≡ take 10 (nonempty (parts path))
unfolding pathparse
pathparse-parts path = tokens-parts 10 path

-- A component as a path holds it: not empty, with no slash, of bytes that are no NUL.
abbrev pub IsPlain : Name → Type 0
IsPlain t = (t ≢ []) × All (λ c. (c ≢ slash) × (0 < c) × (c < 256)) t

cut-append :
    (t s : List ℕ)
    → All (λ c. (c ≢ slash) × (0 < c) × (c < 256)) t
    → cut (t ++ (slash ∷ s)) ≡ (t, s)
unfolding cut
cut-append [] s h = refl
cut-append (c ∷ t) s (p, h) = ground (arith, cut-append t s h)

cut_whole : (t : List ℕ) → All (λ c. (c ≢ slash) × (0 < c) × (c < 256)) t → cut t ≡ (t, [])
unfolding cut
cut_whole [] h = refl
cut_whole (c ∷ t) (p, h) = ground (arith, cut_whole t h)

skip_slashes-ne : (c : ℕ) (s : List ℕ) → c ≢ slash → skip_slashes (c ∷ s) ≡ c ∷ s
unfolding skip_slashes
skip_slashes-ne c s h = ground arith

strtok-append : (t s : List ℕ) → IsPlain t → strtok (t ++ (slash ∷ s)) ≡ some (t, s)
strtok-append [] s (ne, h) = absurd (ne refl)
strtok-append (c ∷ t) s (ne, h) =
    strtok-skip_slashes ((c ∷ t) ++ (slash ∷ s)) (t ++ (slash ∷ s)) c
      (skip_slashes-ne c (t ++ (slash ∷ s)) h.0.0)
    ∙ ap some (cut-append (c ∷ t) s h)

strtok_whole : (t : List ℕ) → IsPlain t → strtok t ≡ some (t, [])
strtok_whole [] (ne, h) = absurd (ne refl)
strtok_whole (c ∷ t) (ne, h) =
    strtok-skip_slashes (c ∷ t) t c (skip_slashes-ne c t h.0.0) ∙ ap some (cut_whole (c ∷ t) h)

tokens-nil : (n : ℕ) → tokens n [] ≡ []
unfolding tokens strtok skip_slashes
tokens-nil zero = refl
tokens-nil (suc n) = refl

tokens-join : (n : ℕ) (ts : List Name) → All IsPlain ts → length ts ≤ n → tokens n (join ts) ≡ ts
unfolding join tokens
tokens-join zero [] h l = refl
tokens-join zero (t ∷ ts) h l = absurd (omega arith)
tokens-join (suc n) [] h l = tokens-nil (suc n)
tokens-join (suc n) (t ∷ []) h l =
    tokens-strtok n t [] t (strtok_whole t h.0) ∙ ap (λ r. t ∷ r) (tokens-nil n)
tokens-join (suc n) (t ∷ u ∷ ts) h l =
    tokens-strtok n (t ++ (slash ∷ join (u ∷ ts))) (join (u ∷ ts)) t
      (strtok-append t (join (u ∷ ts)) h.0)
    ∙ ap (λ r. t ∷ r) (tokens-join n (u ∷ ts) h.1 (omega arith))

leading_slash : (n : ℕ) (s : List ℕ) → tokens (suc n) (slash ∷ s) ≡ tokens (suc n) s
unfolding tokens strtok skip_slashes
leading_slash n s = refl

-- Up to ten components, none of them empty, of bytes that are no slash and no NUL, put together
-- with slashes and one in front, are parsed back.
pub pathparse-join :
    (ts : List Name) → All IsPlain ts → length ts ≤ 10 → pathparse (slash ∷ join ts) ≡ ts
unfolding pathparse
pathparse-join ts h l = leading_slash 9 (join ts) ∙ tokens-join 10 ts h l
