-- ===== src/Dir/Search.antt =====
-- The search through the blocks of a directory.
use cs5600_project_3_file_sy.Common.{
  ℕ, zero, suc, ◌+◌, ◌≤◌, ◌<◌, ◌≡◌, ◌⊎◌, inl, inr, refl, sym, ap, ◌∙◌, Bool, Bool-cases, true,
  false, Option, Option-cases, none, some, arith, dec_lt, lt→ltb,
}
use cs5600_project_3_file_sy.Outcome.{Outcome, ok, crash, ◌>>=◌, >>=-eq-ok}
use cs5600_project_3_file_sy.Disk.{Block, Device, block_read}
use cs5600_project_3_file_sy.Format.{Inode}
use cs5600_project_3_file_sy.Dir.{
  Hit, over_read, ptr_at, find_slot, find_from, find_in_dir, dir_blocks,
}
use cs5600_project_3_file_sy.Dir.Slots.{
  IsFirst, find_slot-some, find_slot-none, find_slot-none_intro,
}

-- Block number `i` of a directory, as the loops read it.
abbrev pub dir_block : Device → Inode → ℕ → Outcome (ℕ × Block)
dir_block d n i = ptr_at n i >>= λ lba. block_read d lba >>= λ b. ok (lba, b)

pub dir_block-ok :
    (d : Device) (n : Inode) (i lba : ℕ) (b : Block)
    → dir_block d n i ≡ ok (lba, b)
    → (i < 1019) × (n.ptrs i ≡ lba) × (block_read d lba ≡ ok b)
unfolding ptr_at
dir_block-ok d n i lba b h =
    let (l, e, f) = >>=-eq-ok (ptr_at n i) (λ l. block_read d l >>= λ b. ok (l, b)) h in
    let (c, g, k) = >>=-eq-ok (block_read d l) (λ b. ok (l, b)) f in ground arith

pub dir_block-intro :
    (d : Device) (n : Inode) (i : ℕ) (b : Block)
    → i < 1019
    → block_read d (n.ptrs i) ≡ ok b
    → dir_block d n i ≡ ok (n.ptrs i, b)
unfolding ptr_at
dir_block-intro d n i b h e = rw (lt→ltb i 1019 h, e)

-- One round of the search.
pub find_from-hit :
    (p : Block → ℕ → Bool) (d : Device) (n : Inode) (i r lba : ℕ) (b : Block) (k : ℕ)
    → dir_block d n i ≡ ok (lba, b)
    → find_slot (p b) 0 128 ≡ some k
    → over_read b k ≡ false
    → find_from p d n i (suc r) ≡ ok (some (record { lba = lba; block = b; slot = k }))
unfolding find_from
find_from-hit p d n i r lba b k h e ends = ground arith

find_from-over :
    (p : Block → ℕ → Bool) (d : Device) (n : Inode) (i r lba : ℕ) (b : Block) (k : ℕ)
    → dir_block d n i ≡ ok (lba, b)
    → find_slot (p b) 0 128 ≡ some k
    → over_read b k ≡ true
    → find_from p d n i (suc r) ≡ crash
unfolding find_from
find_from-over p d n i r lba b k h e over = ground arith

pub find_from-miss :
    (p : Block → ℕ → Bool) (d : Device) (n : Inode) (i r lba : ℕ) (b : Block)
    → dir_block d n i ≡ ok (lba, b)
    → find_slot (p b) 0 128 ≡ none
    → find_from p d n i (suc r) ≡ find_from p d n (i + 1) r
unfolding find_from
find_from-miss p d n i r lba b h e = ground arith

-- Either way a search that ends without an error goes.
abbrev pub Round : (Block → ℕ → Bool) → Device → Inode → ℕ → ℕ → Option Hit → ℕ → Block → Type 0
Round p d n i r found lba b =
    ((k : ℕ) × (find_slot (p b) 0 128 ≡ some k)
      × (found ≡ some (record { lba = lba; block = b; slot = k })))
    ⊎ ((find_slot (p b) 0 128 ≡ none) × (find_from p d n (i + 1) r ≡ ok found))

pub find_from-Round :
    (p : Block → ℕ → Bool) (d : Device) (n : Inode) (i r : ℕ) (found : Option Hit)
    → find_from p d n i (suc r) ≡ ok found
    → (lba : ℕ) × (b : Block) × (dir_block d n i ≡ ok (lba, b)) × Round p d n i r found lba b
unfolding find_from
find_from-Round p d n i r found h =
    let (lba, e, f) = >>=-eq-ok (ptr_at n i) _ h in
    let (b, g, k) = >>=-eq-ok (block_read d lba) _ f in
    (
      lba,
      b,
      ground arith,
      elim (Option-cases (find_slot (p b) 0 128)) [
        | inl m ↦ inr (m, ground arith)
        | inr (j, m) ↦ inl (j, m, ground arith)
      ],
    )

-- What a hit says.
pub record Found (p : Block → ℕ → Bool) (d : Device) (n : Inode) (i r : ℕ) (h : Hit) : Type 0 where
  pub index : ℕ
  pub index_from : i ≤ index
  pub index_to : index < i + r
  pub block_there : dir_block d n index ≡ ok (h.lba, h.block)
  pub slot_first : IsFirst (p h.block) 0 128 h.slot
  pub none_before :
      (j : ℕ) (lba : ℕ) (b : Block)
      → i ≤ j
      → j < index
      → dir_block d n j ≡ ok (lba, b)
      → (k : ℕ) → k < 128
      → p b k ≡ false

-- A block without a hit has no entry with the property.
miss_here :
    (p : Block → ℕ → Bool) (d : Device) (n : Inode) (i j lba lba' : ℕ) (b b' : Block)
    → dir_block d n i ≡ ok (lba, b)
    → find_slot (p b) 0 128 ≡ none
    → dir_block d n j ≡ ok (lba', b')
    → j ≡ i
    → (k : ℕ) → k < 128
    → p b' k ≡ false
miss_here p d n i j lba lba' b b' h m h' e k l =
    let same : ◌≡◌ {A = Outcome (ℕ × Block)} (ok (lba, b)) (ok (lba', b')) =
      sym h ∙ ap (dir_block d n) (sym e) ∙ h' in
    let same_b : b ≡ b' = cc in
    rw (← same_b) (find_slot-none (p b) 0 128 m k (omega arith) (omega arith))

pub find_from-Found :
    (p : Block → ℕ → Bool) (d : Device) (n : Inode) (i r : ℕ) (h : Hit)
    → find_from p d n i r ≡ ok (some h)
    → Found p d n i r h
unfolding find_from
find_from-Found p d n i zero h e = cc
find_from-Found p d n i (suc r) h e =
    let (lba, b, there, round) = find_from-Round p d n i r (some h) e in
    elim round [
      | inl (k, m, q) ↦
          let at : record { lba = lba; block = b; slot = k } ≡ h = cc in
          rw (← at) (record {
            index = i;
            index_from = omega arith;
            index_to = omega arith;
            block_there = there;
            slot_first = find_slot-some (p b) 0 128 k m;
            none_before = λ j lba' b' l l' t k' l''. absurd (omega arith);
          })
      | inr (m, q) ↦
          let rest = find_from-Found p d n (i + 1) r h q in
          record {
            index = rest.index;
            index_from = omega (arith, rest.index_from);
            index_to = omega (arith, rest.index_to);
            block_there = rest.block_there;
            slot_first = rest.slot_first;
            none_before = λ j lba' b' l l' t k' l''. elim (dec_lt i j) [
              | yes a ↦ rest.none_before j lba' b' (omega arith) l' t k' l''
              | no a ↦ miss_here p d n i j lba lba' b b' there m t (omega arith) k' l''
            ];
          }
    ]

pub find_from-none :
    (p : Block → ℕ → Bool) (d : Device) (n : Inode) (i r : ℕ)
    → find_from p d n i r ≡ ok none
    → (j lba : ℕ) (b : Block) → i ≤ j
    → j < i + r
    → dir_block d n j ≡ ok (lba, b)
    → (k : ℕ) → k < 128
    → p b k ≡ false
find_from-none p d n i zero e j lba b l m t k q = absurd (omega arith)
find_from-none p d n i (suc r) e j lba b l m t k q =
    let (lba', b', there, round) = find_from-Round p d n i r none e in
    elim round [
      | inl (k', f, g) ↦ cc
      | inr (f, g) ↦ elim (dec_lt i j) [
        | yes a ↦ find_from-none p d n (i + 1) r g j lba b (omega arith) (omega arith) t k q
        | no a ↦ miss_here p d n i j lba' lba b' b there f t (omega arith) k q
      ]
    ]

-- No entry of a block of the directory that can be read has the property.
abbrev pub IsNowhere : (Block → ℕ → Bool) → Device → Inode → Type 0
IsNowhere p d n =
    (j lba : ℕ) (b : Block)
    → j < dir_blocks n.size
    → dir_block d n j ≡ ok (lba, b)
    → (k : ℕ) → k < 128
    → p b k ≡ false

-- A search that ends without an error says what is in the directory: its hit is the first entry with
-- the property, in the first block that has one, and without a hit no entry of any block has it.
pub find_in_dir_lem :
    (p : Block → ℕ → Bool) (d : Device) (n : Inode) (found : Option Hit)
    → find_in_dir p d n ≡ ok found
    → ((h : Hit) × (found ≡ some h) × Found p d n 0 (dir_blocks n.size) h)
      ⊎ ((found ≡ none) × IsNowhere p d n)
unfolding find_in_dir
find_in_dir_lem p d n none e = inr (
  refl,
  λ j lba b l t k m.
      find_from-none p d n 0 (dir_blocks n.size) e j lba b (omega arith) (omega arith) t k m,
)
find_in_dir_lem p d n (some h) e = inl (h, refl, find_from-Found p d n 0 (dir_blocks n.size) h e)

-- The first round of a search that finds nothing.
pub miss_round :
    (p : Block → ℕ → Bool) (d : Device) (n : Inode) (i r lba : ℕ) (b : Block)
    → dir_block d n i ≡ ok (lba, b)
    → find_from p d n i (suc r) ≡ ok none
    → (find_slot (p b) 0 128 ≡ none) × (find_from p d n (i + 1) r ≡ ok none)
miss_round p d n i r lba b there e = elim (Option-cases (find_slot (p b) 0 128)) [
  | inl m ↦ (m, sym (find_from-miss p d n i r lba b there m) ∙ e)
  | inr (k, m) ↦ elim (Bool-cases (over_read b k)) [
    | inl over ↦
        let clash : ◌≡◌ {A = Outcome (Option Hit)} crash (ok none) =
          sym (find_from-over p d n i r lba b k there m over) ∙ e in
        cc
    | inr ends ↦
        let clash : ◌≡◌ {A = Outcome (Option Hit)}
            (ok (some (record { lba = lba; block = b; slot = k }))) (ok none) =
          sym (find_from-hit p d n i r lba b k there m ends) ∙ e in
        cc
  ]
]

-- A search through blocks that can be read and have nothing that fits.
pub find_from-nowhere :
    (p : Block → ℕ → Bool) (d : Device) (n : Inode) (i r : ℕ)
    → i + r ≤ 1019
    → ((j : ℕ)
        → i ≤ j
        → j < i + r
        → (b : Block) × (block_read d (n.ptrs j) ≡ ok b) × ((m : ℕ) → m < 128 → p b m ≡ false))
    → find_from p d n i r ≡ ok none
unfolding find_from
find_from-nowhere p d n i zero l h = refl
find_from-nowhere p d n i (suc r) l h =
    let (b, read, misses) = h i (omega arith) (omega arith) in
    find_from-miss p d n i r (n.ptrs i) b (dir_block-intro d n i b (omega arith) read)
      (find_slot-none_intro (p b) 0 128 (λ m from to. misses m (omega arith)))
    ∙ find_from-nowhere p d n (i + 1) r (omega arith) (λ j from to. h j (omega arith) (omega arith))
