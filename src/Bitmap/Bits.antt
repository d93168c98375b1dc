-- ===== src/Bitmap/Bits.antt =====
-- The bit operations against each other: what is set, cleared and left alone.
use Prim.Native.Nat.{ℕ, ◌-◌, ◌/◌, ◌%◌, ◌^◌, ◌<◌, bit_and, bit_or}
use cs5600_project_3_file_sy.Common.{
  ◌≡◌, refl, ◌∙◌, Bool, true, false, not, ◌&&◌, ◌||◌, arith, ◌==◌, Bool-cases, inl, inr,
}
use cs5600_project_3_file_sy.Common.Byte.{all_below, all_below_sound}
use cs5600_project_3_file_sy.Disk.{Block, u8}
use cs5600_project_3_file_sy.Bitmap.{has_bit, with_bit, without_bit}

abbrev bool_eq : Bool → Bool → Bool
bool_eq true b = b
bool_eq false b = not b

bool_eq→eq : (a b : Bool) → bool_eq a b ≡ true → a ≡ b
bool_eq→eq a b h = ground arith

abbrev byte_bit : ℕ → ℕ → Bool
byte_bit v k = not (bit_and v (2 ^ k) == 0)

-- Bit `k` of byte `v` after bit `j` was set, or cleared: checked at every byte.
abbrev or_holds : ℕ → ℕ → ℕ → Bool
or_holds j k v = bool_eq (byte_bit (bit_or v (2 ^ j) % 256 % 256) k) (j == k || byte_bit v k)

abbrev and_holds : ℕ → ℕ → ℕ → Bool
and_holds j k v =
    bool_eq (byte_bit (bit_and v (255 - 2 ^ j) % 256 % 256) k) (not (j == k) && byte_bit v k)

or_table : all_below 8 (λ j. all_below 8 (λ k. all_below 256 (or_holds j k))) ≡ true
or_table = refl

and_table : all_below 8 (λ j. all_below 8 (λ k. all_below 256 (and_holds j k))) ≡ true
and_table = refl

or_byte : (j k v : ℕ) → j < 8 → k < 8 → v < 256 → or_holds j k v ≡ true
or_byte j k v hj hk hv =
    all_below_sound 256 (or_holds j k) v
      (all_below_sound 8 (λ k. all_below 256 (or_holds j k)) k
        (all_below_sound 8 (λ j. all_below 8 (λ k. all_below 256 (or_holds j k))) j or_table hj) hk)
      hv

and_byte : (j k v : ℕ) → j < 8 → k < 8 → v < 256 → and_holds j k v ≡ true
and_byte j k v hj hk hv =
    all_below_sound 256 (and_holds j k) v
      (all_below_sound 8 (λ k. all_below 256 (and_holds j k)) k
        (all_below_sound 8 (λ j. all_below 8 (λ k. all_below 256 (and_holds j k))) j and_table hj)
        hk)
      hv

-- Two bits are the same if they agree in byte and place.
same_byte : (i j : ℕ) → i / 8 ≡ j / 8 → (i % 8 == j % 8) ≡ (i == j)
same_byte i j h = ground arith

other_byte : (i j : ℕ) → (i / 8 == j / 8) ≡ false → (i == j) ≡ false
other_byte i j h = ground arith

-- Setting a bit sets that bit and changes no other.
pub has_bit-with_bit :
    (map : Block) (i j : ℕ) → has_bit (with_bit map i) j ≡ (i == j || has_bit map j)
unfolding has_bit with_bit
has_bit-with_bit map i j = elim (Bool-cases (i / 8 == j / 8)) [
  | inl same ↦
      let e : i / 8 ≡ j / 8 = ground arith in
      rw (same, e)
        (bool_eq→eq _ _
            (or_byte (i % 8) (j % 8) (u8 map (j / 8)) (omega arith) (omega arith) (omega arith))
          ∙ rw (same_byte i j e))
  | inr other ↦ rw (other, other_byte i j other)
]

-- Clearing a bit clears that bit and changes no other.
pub has_bit-without_bit :
    (map : Block) (i j : ℕ) → has_bit (without_bit map i) j ≡ (not (i == j) && has_bit map j)
unfolding has_bit without_bit
has_bit-without_bit map i j = elim (Bool-cases (i / 8 == j / 8)) [
  | inl same ↦
      let e : i / 8 ≡ j / 8 = ground arith in
      rw (same, e)
        (bool_eq→eq _ _
            (and_byte (i % 8) (j % 8) (u8 map (j / 8)) (omega arith) (omega arith) (omega arith))
          ∙ rw (same_byte i j e))
  | inr other ↦ rw (other, other_byte i j other)
]
