-- ===== src/Bitmap/Free.antt =====
-- The searches for clear bits.
use cs5600_project_3_file_sy.Common.{
  ℕ, zero, suc, ◌+◌, ◌-◌, ◌≤◌, ◌<◌, ◌≡◌, ◌≢◌, ◌⊎◌, inl, inr, refl, ap, ◌∙◌, Bool-cases, true, false,
  Option, some, arith, dec_lt, lt→ltb,
}
use cs5600_project_3_file_sy.Outcome.{Outcome, ok, ◌>>=◌}
use cs5600_project_3_file_sy.Disk.{Block}
use cs5600_project_3_file_sy.Bitmap.{has_bit, bit_test, scan, first_free, scan_two, two_free}

-- Every bit from `lo` on and below `hi` is set.
abbrev pub AllUsed : Block → ℕ → ℕ → Type 0
AllUsed map lo hi = (j : ℕ) → lo ≤ j → j < hi → has_bit map j ≡ true

pub bit_test-some : (map : Block) (i : ℕ) → i < 32768 → bit_test (some map) i ≡ ok (has_bit map i)
unfolding bit_test
bit_test-some map i h = rw (lt→ltb i 32768 h)

AllUsed-extend :
    (map : Block) (i hi : ℕ) → has_bit map i ≡ true → AllUsed map (i + 1) hi → AllUsed map i hi
AllUsed-extend map i hi h rest j l m = elim (dec_lt i j) [
  | yes a ↦ rest j (omega arith) m
  | no a ↦ let here : j ≡ i = omega arith in rw here h
]

-- The search returns the first clear bit of the range, or 0 if it has none.
abbrev pub IsFirstFree : Block → ℕ → ℕ → ℕ → Type 0
IsFirstFree map lo hi i =
    ((i ≡ 0) × AllUsed map lo hi)
    ⊎ ((lo ≤ i) × (i < hi) × (has_bit map i ≡ false) × AllUsed map lo i)

scan-used :
    (map : Block) (i n : ℕ)
    → i < 32768
    → has_bit map i ≡ true
    → scan (some map) i (suc n) ≡ scan (some map) (i + 1) n
unfolding scan
scan-used map i n h e = rw (bit_test-some map i h, e)

scan-free :
    (map : Block) (i n : ℕ) → i < 32768 → has_bit map i ≡ false → scan (some map) i (suc n) ≡ ok i
unfolding scan
scan-free map i n h e = rw (bit_test-some map i h, e)

scan_lem :
    (map : Block) (i n : ℕ)
    → i + n ≤ 32768
    → (r : ℕ) × (scan (some map) i n ≡ ok r) × IsFirstFree map i (i + n) r
unfolding scan
scan_lem map i zero h = (0, refl, inl (refl, λ j l m. absurd (omega arith)))
scan_lem map i (suc n) h = elim (Bool-cases (has_bit map i)) [
  | inr e ↦ (
    i,
    scan-free map i n (omega arith) e,
    inr (omega arith, omega arith, e, λ j l m. absurd (omega arith)),
  )
  | inl e ↦
      let (r, f, g) = scan_lem map (i + 1) n (omega arith) in
      let next : i + 1 + n ≡ i + suc n = omega arith in
      (
        r,
        scan-used map i n (omega arith) e ∙ f,
        elim g [
          | inl (z, all) ↦ inl (z, AllUsed-extend map i (i + suc n) e (rw (← next) all))
          | inr (l, m, free, all) ↦
              inr (omega arith, omega arith, free, AllUsed-extend map i r e all)
        ],
      )
]

-- A range that starts past the end of the disk is empty.
IsFirstFree-end :
    (map : Block) (lo hi' hi r : ℕ)
    → hi ≤ hi'
    → (hi' ≤ hi) ⊎ (hi' ≤ lo)
    → IsFirstFree map lo hi' r
    → IsFirstFree map lo hi r
IsFirstFree-end map lo hi' hi r h e (inl (z, all)) = inl (z, λ j l m. all j l (omega arith))
IsFirstFree-end map lo hi' hi r h e (inr (l, m, free, all)) = inr (l, omega arith, free, all)

-- On a disk that the bitmap block covers, the loops of fs_create and fs_write over the bitmap end
-- with the first block from 2 on that is free, or with 0 if every one is used.
pub first_free_lem :
    (map : Block) (disk_size : ℕ)
    → disk_size ≤ 32768
    → (r : ℕ) × (first_free (some map) disk_size ≡ ok r) × IsFirstFree map 2 disk_size r
unfolding first_free
first_free_lem map disk_size h =
    let (r, e, f) = scan_lem map 2 (disk_size - 2) (omega arith) in
    (r, e, IsFirstFree-end map 2 (2 + (disk_size - 2)) disk_size r (omega arith) (omega arith) f)

-- Once it has an inode's number, the loop of fs_mkdir is that of fs_create.
scan_two-scan :
    (map : Option Block) (d i n : ℕ)
    → d ≢ 0
    → scan_two map d i n ≡ (scan map i n >>= λ b. ok (d, b))
unfolding scan scan_two
scan_two-scan map d i zero h = refl
scan_two-scan map d i (suc n) h = ground (arith, scan_two-scan map d (i + 1) n h)

scan_two-used :
    (map : Block) (d i n : ℕ)
    → i < 32768
    → has_bit map i ≡ true
    → scan_two (some map) d i (suc n) ≡ scan_two (some map) d (i + 1) n
unfolding scan_two
scan_two-used map d i n h e = rw (bit_test-some map i h, e)

scan_two-free :
    (map : Block) (i n : ℕ)
    → i < 32768
    → has_bit map i ≡ false
    → scan_two (some map) 0 i (suc n) ≡ scan_two (some map) i (i + 1) n
unfolding scan_two
scan_two-free map i n h e = rw (bit_test-some map i h, e)

-- What the loop of fs_mkdir returns: the first two free blocks, as far as there are any.
pub record AreFirstFree (map : Block) (lo hi a b : ℕ) : Type 0 where
  pub one : IsFirstFree map lo hi a
  pub two : a ≢ 0 → IsFirstFree map (a + 1) hi b
  pub none_left : a ≡ 0 → b ≡ 0

scan_two_lem :
    (map : Block) (i n : ℕ)
    → 0 < i
    → i + n ≤ 32768
    → (a b : ℕ) × (scan_two (some map) 0 i n ≡ ok (a, b)) × AreFirstFree map i (i + n) a b
unfolding scan_two
scan_two_lem map i zero p h = (
  0,
  0,
  refl,
  record {
    one = inl (refl, λ j l m. absurd (omega arith));
    two = λ z. absurd (z refl);
    none_left = λ z. refl;
  },
)
scan_two_lem map i (suc n) p h = elim (Bool-cases (has_bit map i)) [
  | inr e ↦
      let (b, f, g) = scan_lem map (i + 1) n (omega arith) in
      let next : i + 1 + n ≡ i + suc n = omega arith in
      (
        i,
        b,
        scan_two-free map i n (omega arith) e
            ∙ scan_two-scan (some map) i (i + 1) n (omega arith)
            ∙ ap (λ (r : Outcome ℕ). r >>= λ b. ok (i, b)) f,
        record {
          one = inr (omega arith, omega arith, e, λ j l m. absurd (omega arith));
          two = λ z. rw (← next) g;
          none_left = λ z. absurd (omega arith);
        },
      )
  | inl e ↦
      let (a, b, f, g) = scan_two_lem map (i + 1) n (omega arith) (omega arith) in
      let next : i + 1 + n ≡ i + suc n = omega arith in
      (
        a,
        b,
        scan_two-used map 0 i n (omega arith) e ∙ f,
        record {
          one = rw (← next) (elim g.one [
            | inl (z, all) ↦ inl (z, AllUsed-extend map i (i + 1 + n) e all)
            | inr (l, m, free, all) ↦ inr (omega arith, m, free, AllUsed-extend map i a e all)
          ]);
          two = λ z. rw (← next) (g.two z);
          none_left = g.none_left;
        },
      )
]

two_end :
    (map : Block) (a disk_size : ℕ)
    → a ≢ 0
    → IsFirstFree map 2 (2 + (disk_size - 2)) a
    → (2 + (disk_size - 2) ≤ disk_size) ⊎ (2 + (disk_size - 2) ≤ a + 1)
two_end map a disk_size z (inl (y, all)) = absurd (z y)
two_end map a disk_size z (inr (l, m, free, all)) = omega arith

-- The loop of fs_mkdir ends with the first two free blocks from 2 on: the first is 0 if there is
-- none, and the second if there is no other.
pub two_free_lem :
    (map : Block) (disk_size : ℕ)
    → disk_size ≤ 32768
    → (a b : ℕ) × (two_free (some map) disk_size ≡ ok (a, b)) × AreFirstFree map 2 disk_size a b
unfolding two_free
two_free_lem map disk_size h =
    let (a, b, e, f) = scan_two_lem map 2 (disk_size - 2) (omega arith) (omega arith) in
    (
      a,
      b,
      e,
      record {
        one =
            IsFirstFree-end map 2 (2 + (disk_size - 2)) disk_size a (omega arith) (omega arith)
              f.one;
        two = λ z.
            IsFirstFree-end map (a + 1) (2 + (disk_size - 2)) disk_size b (omega arith)
              (two_end map a disk_size z f.one) (f.two z);
        none_left = f.none_left;
      },
    )
