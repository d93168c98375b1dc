-- ===== src/Write/Grow.antt =====
-- The loop of fs_write that allocates blocks, run forward where enough blocks are free.
use cs5600_project_3_file_sy.Common.{
  ℕ, zero, suc, ◌+◌, ◌-◌, ◌≤◌, ◌<◌, ◌≡◌, ◌≢◌, ◌⊎◌, inl, inr, refl, sym, ap, ◌∙◌, arith, true, false,
  not, some, ℕ_discrete, ◌==◌, ==_ne, ==_refl, lt→ltb, if◌then◌else◌,
}
use cs5600_project_3_file_sy.Outcome.{ok, enospc}
use cs5600_project_3_file_sy.Disk.{Block}
use cs5600_project_3_file_sy.Bitmap.{has_bit, with_bit, first_free}
use cs5600_project_3_file_sy.Bitmap.Bits.{has_bit-with_bit}
use cs5600_project_3_file_sy.Bitmap.Free.{AllUsed, first_free_lem}
use cs5600_project_3_file_sy.Bitmap.Count.{used_in, used_in-with_bit}
use cs5600_project_3_file_sy.Format.{Inode}
use cs5600_project_3_file_sy.State.{State, ◌>>=◌, ◌>>◌, lift, require, set_bit}
use cs5600_project_3_file_sy.State.Runs.{bind-to, reads-to, lift-to, require-to, set_bit-to}
use cs5600_project_3_file_sy.Write.{set_ptr, grow}

used_in-all : (map : Block) (i n : ℕ) → AllUsed map i (i + n) → used_in map i n ≡ n
used_in-all map i zero h = refl
used_in-all map i (suc n) h =
    let here = h i (omega arith) (omega arith) in
    let rest = used_in-all map (i + 1) n (λ j l m. h j (omega arith) (omega arith)) in
    rw (here, rest) (omega arith)

-- If fewer bits are set than there are, the search finds a free block.
finds_one :
    (map : Block) (disk_size : ℕ)
    → disk_size ≤ 32768
    → used_in map 2 (disk_size - 2) < disk_size - 2
    → (a : ℕ) × (first_free (some map) disk_size ≡ ok a)
      × (2 ≤ a)
      × (a < disk_size)
      × (has_bit map a ≡ false)
finds_one map disk_size d l =
    let (a, e, r) = first_free_lem map disk_size d in
    elim r [
      | inl (z, all) ↦
          absurd (
            omega
              (arith, used_in-all map 2 (disk_size - 2) (λ j from to. all j from (omega arith))))
      | inr (from, to, clear, all) ↦ (a, e, from, to, clear)
    ]

-- What the loop has done to items `i` to `i + r - 1` of the inode and to the bitmap.
pub record Grown (n g : Inode) (i r : ℕ) (map map' : Block) (disk_size : ℕ) : Type 0 where
  pub rest_same : g ≡ record n { ptrs = g.ptrs }
  pub before : (j : ℕ) → j < i → g.ptrs j ≡ n.ptrs j
  pub after : (j : ℕ) → i + r ≤ j → g.ptrs j ≡ n.ptrs j
  pub fresh :
      (j : ℕ)
      → i ≤ j
      → j < i + r
      → (2 ≤ g.ptrs j) × (g.ptrs j < disk_size) × (has_bit map (g.ptrs j) ≡ false)
  pub distinct : (j k : ℕ) → i ≤ j → j < k → k < i + r → g.ptrs j ≢ g.ptrs k
  pub taken : (j : ℕ) → i ≤ j → j < i + r → has_bit map' (g.ptrs j) ≡ true
  pub kept : (k : ℕ) → has_bit map k ≡ true → has_bit map' k ≡ true
  pub only :
      (k : ℕ)
      → has_bit map' k ≡ true
      → (has_bit map k ≡ true) ⊎ ((j : ℕ) × (i ≤ j) × (j < i + r) × (g.ptrs j ≡ k))

-- The bitmap after one block was taken.
bit_after :
    (map : Block) (a k : ℕ) → has_bit (with_bit map a) k ≡ true → (a ≡ k) ⊎ (has_bit map k ≡ true)
bit_after map a k h = elim (ℕ_discrete a k) [
  | yes e ↦ inl e
  | no ne ↦ inr (let q = has_bit-with_bit map a k in let f = ==_ne a k ne in ground (arith, q, f))
]

bit_before :
    (map : Block) (a k : ℕ) → has_bit (with_bit map a) k ≡ false → (a ≢ k) × (has_bit map k ≡ false)
bit_before map a k h = (
  λ e.
      let set : has_bit (with_bit map a) k ≡ true = has_bit-with_bit map a k ∙ rw (e, ==_refl k) in
      cc,
  let q = has_bit-with_bit map a k in ground (arith, q),
)

bit_stays : (map : Block) (a k : ℕ) → has_bit map k ≡ true → has_bit (with_bit map a) k ≡ true
bit_stays map a k h = let q = has_bit-with_bit map a k in ground (arith, q)

bit_set_here : (map : Block) (a : ℕ) → has_bit (with_bit map a) a ≡ true
bit_set_here map a = has_bit-with_bit map a a ∙ rw (==_refl a)

-- The inode with one more block.
abbrev pub with_ptr : Inode → ℕ → ℕ → Inode
with_ptr n i p = record n { ptrs = λ j. if j == i then p else n.ptrs j }

Grown-step :
    (n g : Inode) (i r a : ℕ) (map map' : Block) (disk_size : ℕ)
    → 2 ≤ a
    → a < disk_size
    → has_bit map a ≡ false
    → Grown (with_ptr n i a) g (i + 1) r (with_bit map a) map' disk_size
    → Grown n g i (suc r) map map' disk_size
Grown-step n g i r a map map' disk_size two small free h =
    let here : g.ptrs i ≡ a = h.before i (omega arith) ∙ rw (==_refl i) in
    record {
      rest_same = h.rest_same;
      before = λ j l. h.before j (omega arith) ∙ rw (==_ne j i (omega arith));
      after = λ j l. h.after j (omega arith) ∙ rw (==_ne j i (omega arith));
      fresh = λ j l m. elim (ℕ_discrete j i) [
        | yes e ↦ rw (e, here) (two, small, free)
        | no ne ↦
            let (x, y, z) = h.fresh j (omega arith) (omega arith) in
            (x, y, (bit_before map a (g.ptrs j) z).1)
      ];
      distinct = λ j k l m q. elim (ℕ_discrete j i) [
        | yes e ↦
            let (x, y, z) = h.fresh k (omega arith) (omega arith) in
            λ same. (bit_before map a (g.ptrs k) z).0 (sym here ∙ ap g.ptrs (sym e) ∙ same)
        | no ne ↦ h.distinct j k (omega arith) m (omega arith)
      ];
      taken = λ j l m. elim (ℕ_discrete j i) [
        | yes e ↦ rw (e, here) (h.kept a (bit_set_here map a))
        | no ne ↦ h.taken j (omega arith) (omega arith)
      ];
      kept = λ k e. h.kept k (bit_stays map a k e);
      only = λ k e. elim (h.only k e) [
        | inl f ↦ elim (bit_after map a k f) [
          | inl q ↦ inr (i, omega arith, omega arith, here ∙ q)
          | inr q ↦ inl q
        ]
        | inr (j, l, m, q) ↦ inr (j, omega arith, omega arith, q)
      ];
    }

-- With as many free blocks as there are rounds, and room in the inode, the loop ends well.
pub grow-runs :
    (n : Inode) (i r : ℕ) (map : Block) (s : State)
    → s.bitmap ≡ some map
    → s.super.disk_size ≤ 32768
    → i + r ≤ 1019
    → used_in map 2 (s.super.disk_size - 2) + r ≤ s.super.disk_size - 2
    → (g : Inode) × (map' : Block) × (grow n i r s ≡ (ok g, record s { bitmap = some map' }))
      × Grown n g i r map map' s.super.disk_size
unfolding grow set_ptr
grow-runs n i zero map s b disk fits room = (
  n,
  map,
  ap (λ m. (ok n, record s { bitmap = m })) b,
  record {
    rest_same = refl;
    before = λ j l. refl;
    after = λ j l. refl;
    fresh = λ j l m. absurd (omega arith);
    distinct = λ j k l m q. absurd (omega arith);
    taken = λ j l m. absurd (omega arith);
    kept = λ k e. e;
    only = λ k e. inl e;
  },
)
grow-runs n i (suc r) map s b disk fits room =
    let (a, found, two, small, free) = finds_one map s.super.disk_size disk (omega arith) in
    let map1 = with_bit map a in
    let u : State = record s { bitmap = some map1 } in
    let n1 = with_ptr n i a in
    let count = used_in-with_bit map a 2 (s.super.disk_size - 2) free two (omega arith) in
    let (g, map', later, grown) =
      grow-runs n1 (i + 1) r map1 u refl disk (omega arith) (omega (arith, count)) in
    let next = λ (m : Inode). grow m (i + 1) r in
    let assign = λ (x : ℕ). lift (set_ptr n i x) >>= next in
    let mark = λ (x : ℕ). set_bit x >> assign x in
    (
      g,
      map',
      reads-to (λ s. first_free s.bitmap s.super.disk_size)
            (λ x. require (not (x == 0)) enospc >> mark x) s a
            (ap (λ m. first_free m s.super.disk_size) b ∙ found)
          ∙ require-to (not (a == 0)) enospc (mark a) s (ap not (==_ne a 0 (omega arith)))
          ∙ bind-to (set_bit a) (λ _. assign a) s u tt (set_bit-to a map s b (omega arith))
          ∙ lift-to (set_ptr n i a) next u n1 (rw (lt→ltb i 1019 (omega arith)))
          ∙ later,
      Grown-step n g i r a map map' s.super.disk_size two small free grown,
    )
