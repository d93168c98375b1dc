-- ===== src/Format/Strings.antt =====
-- C strings in a buffer.
use cs5600_project_3_file_sy.Common.{
  ℕ, zero, suc, ◌+◌, ◌<◌, ◌≤◌, ◌≡◌, refl, ap, ◌∙◌, arith, List, [], ◌∷◌, length, take, get_or, All,
}
use cs5600_project_3_file_sy.Disk.{Block}
use cs5600_project_3_file_sy.Format.{c_string}

-- A byte of a C string.
abbrev pub IsChar : ℕ → Type 0
IsChar c = (0 < c) × (c < 256)

-- The string in a buffer that holds `s` and a NUL behind it.
pub c_string-holds :
    (s : List ℕ) (b : Block) (o n : ℕ)
    → All IsChar s
    → ((j : ℕ) → j ≤ length s → b (o + j) ≡ get_or s j 0)
    → length s < n
    → c_string b o n ≡ s
unfolding c_string
c_string-holds s b o zero h g l = absurd (omega arith)
c_string-holds [] b o (suc n) h g l =
    let e : b o ≡ 0 = ap b (omega arith) ∙ g 0 (omega arith) in rw e
c_string-holds (c ∷ s) b o (suc n) (p, h) g l =
    let e : b o ≡ c = ap b (omega arith) ∙ g 0 (omega arith) in
    let rest : c_string b (o + 1) n ≡ s =
      c_string-holds s b (o + 1) n h (λ j lt. ap b (omega arith) ∙ g (suc j) (omega arith))
        (omega arith) in
    rw e (ground arith)

-- A string that ends within `m` bytes is the same for every larger limit.
pub c_string-short :
    (b : Block) (o m n : ℕ) → length (c_string b o m) < m → m ≤ n → c_string b o n ≡ c_string b o m
unfolding c_string
c_string-short b o zero n h l = absurd (omega arith)
c_string-short b o (suc m) zero h l = absurd (omega arith)
c_string-short b o (suc m) (suc n) h l = ground (arith, c_string-short b (o + 1) m n)

pub c_string-cong :
    (b c : Block) (o m : ℕ)
    → ((j : ℕ) → j < m → c (o + j) ≡ b (o + j))
    → c_string c o m ≡ c_string b o m
unfolding c_string
c_string-cong b c o zero h = refl
c_string-cong b c o (suc m) h =
    let e : c o ≡ b o = ap c (omega arith) ∙ h 0 (omega arith) ∙ ap b (omega arith) in
    rw (
      e,
      c_string-cong b c (o + 1) m
          (λ j lt. ap c (omega arith) ∙ h (1 + j) (omega arith) ∙ ap b (omega arith)),
    )

pub get_or-take : (n : ℕ) (s : List ℕ) (j : ℕ) → j < n → get_or (take n s) j 0 ≡ get_or s j 0
get_or-take zero s j h = absurd (omega arith)
get_or-take (suc n) [] j h = refl
get_or-take (suc n) (c ∷ s) zero h = refl
get_or-take (suc n) (c ∷ s) (suc j) h = get_or-take n s j (omega arith)

pub get_or-past : (s : List ℕ) (j : ℕ) → length s ≤ j → get_or s j 0 ≡ 0
get_or-past [] j h = refl
get_or-past (c ∷ s) zero h = absurd (omega arith)
get_or-past (c ∷ s) (suc j) h = get_or-past s j (omega arith)
