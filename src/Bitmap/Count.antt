-- ===== src/Bitmap/Count.antt =====
-- The number of set bits, as fs_statfs counts them.
use cs5600_project_3_file_sy.Common.{
  ℕ, zero, suc, ◌+◌, ◌≤◌, ◌<◌, ◌≡◌, ◌≢◌, refl, sym, ◌∙◌, true, false, some, arith, dec_lt,
  if◌then◌else◌, ==_ne, ==_refl,
}
use cs5600_project_3_file_sy.Outcome.{ok}
use cs5600_project_3_file_sy.Disk.{Block}
use cs5600_project_3_file_sy.Bitmap.{has_bit, with_bit, without_bit, count_used}
use cs5600_project_3_file_sy.Bitmap.Bits.{has_bit-with_bit, has_bit-without_bit}
use cs5600_project_3_file_sy.Bitmap.Free.{bit_test-some}

-- How many of the `n` bits from `i` on are set.
abbrev pub used_in : Block → ℕ → ℕ → ℕ
used_in map i zero = 0
used_in map i (suc n) = (if has_bit map i then 1 else 0) + used_in map (i + 1) n

pub count_used_lem :
    (map : Block) (i n : ℕ) → i + n ≤ 32768 → count_used (some map) i n ≡ ok (used_in map i n)
unfolding count_used
count_used_lem map i zero h = refl
count_used_lem map i (suc n) h = ground (arith, bit_test-some map i, count_used_lem map (i + 1) n)

pub used_in-le : (map : Block) (i n : ℕ) → used_in map i n ≤ n
used_in-le map i zero = omega arith
used_in-le map i (suc n) = ground (arith, used_in-le map (i + 1) n)

used_in-cong :
    (map map' : Block) (i n : ℕ)
    → ((j : ℕ) → i ≤ j → j < i + n → has_bit map' j ≡ has_bit map j)
    → used_in map' i n ≡ used_in map i n
used_in-cong map map' i zero h = refl
used_in-cong map map' i (suc n) h = rw (
  h i (omega arith) (omega arith),
  used_in-cong map map' (i + 1) n (λ j l m. h j (omega arith) (omega arith)),
)

-- Two bitmaps that differ in bit `k` alone, which the second has set.
used_in-step :
    (map map' : Block) (k i n : ℕ)
    → has_bit map k ≡ false
    → has_bit map' k ≡ true
    → ((j : ℕ) → j ≢ k → has_bit map' j ≡ has_bit map j)
    → i ≤ k
    → k < i + n
    → used_in map' i n ≡ used_in map i n + 1
used_in-step map map' k i zero a b h l m = absurd (omega arith)
used_in-step map map' k i (suc n) a b h l m = elim (dec_lt i k) [
  | yes lt ↦
      rw (h i (omega arith))
        (omega (arith, used_in-step map map' k (i + 1) n a b h (omega arith) (omega arith)))
  | no ge ↦
      let here : i ≡ k = omega arith in
      rw (here, a, b, used_in-cong map map' (k + 1) n (λ j l m. h j (omega arith))) (omega arith)
]

-- Setting a bit of the range that is clear raises the number of set bits by one.
pub used_in-with_bit :
    (map : Block) (k i n : ℕ)
    → has_bit map k ≡ false
    → i ≤ k
    → k < i + n
    → used_in (with_bit map k) i n ≡ used_in map i n + 1
used_in-with_bit map k i n h l m =
    used_in-step map (with_bit map k) k i n h (has_bit-with_bit map k k ∙ rw (==_refl k))
      (λ j ne. has_bit-with_bit map k j ∙ rw (==_ne k j (λ e. ne (sym e)))) l m

-- Clearing a bit of the range that is set lowers the number of set bits by one.
pub used_in-without_bit :
    (map : Block) (k i n : ℕ)
    → has_bit map k ≡ true
    → i ≤ k
    → k < i + n
    → used_in (without_bit map k) i n + 1 ≡ used_in map i n
used_in-without_bit map k i n h l m = sym (
    used_in-step (without_bit map k) map k i n (has_bit-without_bit map k k ∙ rw (==_refl k)) h
      (λ j ne. sym (has_bit-without_bit map k j ∙ rw (==_ne k j (λ e. ne (sym e))))) l m)
