-- ===== src/Dir/Slots.antt =====
-- The search among the entries of one block.
use cs5600_project_3_file_sy.Common.{
  ℕ, zero, suc, ◌+◌, ◌≤◌, ◌<◌, ◌≡◌, inl, inr, refl, Bool, Bool-cases, true, false, none, some,
  arith, dec_lt, ◌∙◌,
}
use cs5600_project_3_file_sy.Dir.{find_slot}

pub record IsFirst (p : ℕ → Bool) (k n j : ℕ) : Type 0 where
  pub from : k ≤ j
  pub in_range : j < k + n
  pub holds : p j ≡ true
  pub first : (i : ℕ) → k ≤ i → i < j → p i ≡ false

find_slot-hit : (p : ℕ → Bool) (k n : ℕ) → p k ≡ true → find_slot p k (suc n) ≡ some k
unfolding find_slot
find_slot-hit p k n h = rw h

find_slot-miss :
    (p : ℕ → Bool) (k n : ℕ) → p k ≡ false → find_slot p k (suc n) ≡ find_slot p (k + 1) n
unfolding find_slot
find_slot-miss p k n h = rw h

pub find_slot-some : (p : ℕ → Bool) (k n j : ℕ) → find_slot p k n ≡ some j → IsFirst p k n j
unfolding find_slot
find_slot-some p k zero j h = cc
find_slot-some p k (suc n) j h = elim (Bool-cases (p k)) [
  | inl e ↦
      let at : k ≡ j = ground arith in
      record {
        from = omega arith;
        in_range = omega arith;
        holds = rw (← at) e;
        first = λ i l m. absurd (omega arith);
      }
  | inr e ↦
      let rest = find_slot-some p (k + 1) n j (rw (find_slot-miss p k n e) at h) in
      record {
        from = omega (arith, rest.from);
        in_range = omega (arith, rest.in_range);
        holds = rest.holds;
        first = λ i l m. elim (dec_lt k i) [
          | yes a ↦ rest.first i (omega arith) m
          | no a ↦ let here : i ≡ k = omega arith in rw here e
        ];
      }
]

pub find_slot-none :
    (p : ℕ → Bool) (k n : ℕ) → find_slot p k n ≡ none → (i : ℕ) → k ≤ i → i < k + n → p i ≡ false
find_slot-none p k zero h i l m = absurd (omega arith)
find_slot-none p k (suc n) h i l m = elim (Bool-cases (p k)) [
  | inl e ↦ cc (find_slot-hit p k n e)
  | inr e ↦ elim (dec_lt k i) [
    | yes a ↦
        find_slot-none p (k + 1) n (rw (find_slot-miss p k n e) at h) i (omega arith) (omega arith)
    | no a ↦ let here : i ≡ k = omega arith in rw here e
  ]
]

pub find_slot-IsFirst : (p : ℕ → Bool) (k n j : ℕ) → IsFirst p k n j → find_slot p k n ≡ some j
find_slot-IsFirst p k zero j h = absurd (omega (arith, h.from, h.in_range))
find_slot-IsFirst p k (suc n) j h = elim (dec_lt k j) [
  | yes a ↦
      find_slot-miss p k n (h.first k (omega arith) a)
      ∙ find_slot-IsFirst p (k + 1) n j (record {
        from = omega arith;
        in_range = omega (arith, h.in_range);
        holds = h.holds;
        first = λ i l m. h.first i (omega arith) m;
      })
  | no a ↦
      let here : j ≡ k = omega (arith, h.from) in
      rw here (find_slot-hit p k n (rw (← here) h.holds))
]

-- A search that finds nothing in one block finds nothing where fewer slots have the property.
pub find_slot-none_intro :
    (p : ℕ → Bool) (k n : ℕ) → ((i : ℕ) → k ≤ i → i < k + n → p i ≡ false) → find_slot p k n ≡ none
unfolding find_slot
find_slot-none_intro p k zero h = refl
find_slot-none_intro p k (suc n) h =
    find_slot-miss p k n (h k (omega arith) (omega arith))
    ∙ find_slot-none_intro p (k + 1) n (λ i l m. h i (omega arith) (omega arith))
