-- ===== src/Layout/Modes.antt =====
-- The modes that fs_mkdir and fs_chmod make.
use Prim.Native.Nat.{
  ℕ, zero, suc, ◌+◌, ◌*◌, ◌/◌, ◌%◌, ◌^◌, ◌≤◌, ◌<◌, min, bit_and, bit_or, digits, bit_and-bitwise,
}
use cs5600_project_3_file_sy.Common.{◌≡◌, refl, ap, true, Bool, ◌&&◌, ltb, ◌==◌, arith}
use cs5600_project_3_file_sy.Common.Byte.{all_below, all_below_sound}
use cs5600_project_3_file_sy.Format.{is_dir, s_ifdir, s_ifmt}
use cs5600_project_3_file_sy.Attr.{chmod_mode}

abbrev dir_mode_fits : ℕ → Bool
dir_mode_fits mode = is_dir (bit_or s_ifdir mode) && ltb (bit_or s_ifdir mode) (2 ^ 32)

dir_modes : all_below 4096 dir_mode_fits ≡ true
unfolding is_dir
dir_modes = refl

pub dir_mode :
    (mode : ℕ)
    → mode < 4096
    → (is_dir (bit_or s_ifdir mode) ≡ true) × (bit_or s_ifdir mode < 2 ^ 32)
dir_mode mode small =
    let h : dir_mode_fits mode ≡ true = all_below_sound 4096 dir_mode_fits mode dir_modes small in
    (ground arith, ground arith)

-- The lowest bit of `bit_and`, and the others; the fuel of its definition plays no part.
bits-fuel :
    (m n a b : ℕ) → a ≤ m → a ≤ n → digits (λ b. zero) min m a b ≡ digits (λ b. zero) min n a b
bits-fuel zero zero a b l k = refl
bits-fuel zero (suc n) zero b l k = refl
bits-fuel zero (suc n) (suc a) b l k = absurd (omega arith)
bits-fuel (suc m) zero zero b l k = refl
bits-fuel (suc m) zero (suc a) b l k = absurd (omega arith)
bits-fuel (suc m) (suc n) zero b l k = refl
bits-fuel (suc m) (suc n) (suc a) b l k =
    omega (arith, bits-fuel m n (suc a / 2) (b / 2) (omega arith) (omega arith))

bit_and-halves : (a b : ℕ) → bit_and a b ≡ 2 * bit_and (a / 2) (b / 2) + min (a % 2) (b % 2)
bit_and-halves zero b = omega (arith, bit_and-bitwise 0 b, bit_and-bitwise 0 (b / 2))
bit_and-halves (suc a) b =
    let fuel = bits-fuel a (suc a / 2) (suc a / 2) (b / 2) (omega arith) (omega arith) in
    omega (arith, bit_and-bitwise (suc a) b, bit_and-bitwise (suc a / 2) (b / 2), fuel)

bit_and-zero : (n a : ℕ) → a ≤ n → bit_and a 0 ≡ 0
bit_and-zero n zero l = bit_and-bitwise 0 0
bit_and-zero zero (suc a) l = absurd (omega arith)
bit_and-zero (suc n) (suc a) l =
    omega (arith, bit_and-halves (suc a) 0, bit_and-zero n (suc a / 2) (omega arith))

-- `bit_and` with a number of `k` bits has `k` bits.
bit_and-below : (k a b : ℕ) → b < 2 ^ k → bit_and a b < 2 ^ k
bit_and-below zero a b l =
    let none : b ≡ 0 = omega arith in rw none (omega (arith, bit_and-zero a a (omega arith)))
bit_and-below (suc k) a b l =
    omega (arith, bit_and-halves a b, bit_and-below k (a / 2) (b / 2) (omega arith))

bit_and-double : (a b : ℕ) → bit_and a (2 * b) ≡ 2 * bit_and (a / 2) b
bit_and-double a b =
    let half : 2 * b / 2 ≡ b = omega arith in
    omega (arith, bit_and-halves a (2 * b), ap (bit_and (a / 2)) half)

-- Three zeros at the end of the one number give three at the end of the result.
bit_and-eight : (a b : ℕ) → bit_and a (8 * b) ≡ 8 * bit_and (a / 8) b
bit_and-eight a b =
    let eight : 8 * b ≡ 2 * (2 * (2 * b)) = omega arith in
    let third : a / 2 / 2 / 2 ≡ a / 8 = omega arith in
    omega (
      arith,
      ap (bit_and a) eight,
      bit_and-double a (2 * (2 * b)),
      bit_and-double (a / 2) (2 * b),
      bit_and-double (a / 2 / 2) b,
      ap (λ x. bit_and x b) third,
    )

-- Masks of ones take a remainder.
mask1 : (a : ℕ) → bit_and a 1 ≡ a % 2
mask1 a = omega (arith, bit_and-halves a 1, bit_and-zero (a / 2) (a / 2) (omega arith))

mask3 : (a : ℕ) → bit_and a 3 ≡ a % 4
mask3 a = omega (arith, bit_and-halves a 3, mask1 (a / 2))

mask7 : (a : ℕ) → bit_and a 7 ≡ a % 8
mask7 a = omega (arith, bit_and-halves a 7, mask3 (a / 2))

mask15 : (a : ℕ) → bit_and a 15 ≡ a % 16
mask15 a = omega (arith, bit_and-halves a 15, mask7 (a / 2))

mask31 : (a : ℕ) → bit_and a 31 ≡ a % 32
mask31 a = omega (arith, bit_and-halves a 31, mask15 (a / 2))

mask63 : (a : ℕ) → bit_and a 63 ≡ a % 64
mask63 a = omega (arith, bit_and-halves a 63, mask31 (a / 2))

mask127 : (a : ℕ) → bit_and a 127 ≡ a % 128
mask127 a = omega (arith, bit_and-halves a 127, mask63 (a / 2))

mask255 : (a : ℕ) → bit_and a 255 ≡ a % 256
mask255 a = omega (arith, bit_and-halves a 255, mask127 (a / 2))

mask511 : (a : ℕ) → bit_and a 511 ≡ a % 512
mask511 a = omega (arith, bit_and-halves a 511, mask255 (a / 2))

-- The type of a file is four bits.
type_bits : (a : ℕ) → bit_and a 61440 ≡ 4096 * (a / 4096 % 16)
type_bits a =
    let whole : a / 8 / 8 / 8 / 8 ≡ a / 4096 = omega arith in
    omega (
      arith,
      bit_and-eight a 7680,
      bit_and-eight (a / 8) 960,
      bit_and-eight (a / 8 / 8) 120,
      bit_and-eight (a / 8 / 8 / 8) 15,
      ap (λ x. bit_and x 15) whole,
      mask15 (a / 4096),
    )

abbrev chmod_fits : ℕ → ℕ → Bool
chmod_fits q v =
    bit_and (bit_or (4096 * q) v) 61440 == 4096 * q && bit_or (4096 * q) v == 4096 * q + v

chmod_modes : all_below 16 (λ q. all_below 512 (chmod_fits q)) ≡ true
chmod_modes = refl

chmod_fits_at : (q v : ℕ) → q < 16 → v < 512 → chmod_fits q v ≡ true
chmod_fits_at q v small few =
    all_below_sound 512 (chmod_fits q) v
      (all_below_sound 16 (λ q. all_below 512 (chmod_fits q)) q chmod_modes small) few

-- The mode that fs_chmod writes has the four type bits of the old one (bits 12 to 15) and the nine
-- permission bits of its argument (bits 0 to 8), and no other bit.
pub chmod_mode_lem : (old mode : ℕ) → chmod_mode old mode ≡ 4096 * (old / 4096 % 16) + mode % 512
unfolding chmod_mode
chmod_mode_lem old mode =
    let fits = chmod_fits_at (old / 4096 % 16) (mode % 512) (omega arith) (omega arith) in
    rw (type_bits old, mask511 mode) (ground (arith, fits))

chmod_mode_type : (old mode : ℕ) → bit_and (chmod_mode old mode) s_ifmt ≡ bit_and old s_ifmt
unfolding chmod_mode
chmod_mode_type old mode =
    let fits = chmod_fits_at (old / 4096 % 16) (mode % 512) (omega arith) (omega arith) in
    rw (type_bits old, mask511 mode) (ground (arith, fits))

pub is_dir-chmod_mode : (old mode : ℕ) → is_dir (chmod_mode old mode) ≡ is_dir old
unfolding is_dir
is_dir-chmod_mode old mode = ap (λ t. t == s_ifdir) (chmod_mode_type old mode)

pub chmod_mode_fits : (old mode : ℕ) → chmod_mode old mode < 2 ^ 32
chmod_mode_fits old mode = omega (arith, chmod_mode_lem old mode)
