-- ===== src/Query/Slots.antt =====
-- What fs_readdir hands to its filler for the entries of one block.
use mathlib.Core.List.{Memᴰ}
use cs5600_project_3_file_sy.Common.{
  ℕ, zero, suc, ◌+◌, ◌^◌, ◌≤◌, ◌<◌, ◌≡◌, ◌⊎◌, inl, inr, refl, Bool-cases, true, arith, ℕ_discrete,
  List, [], ◌∷◌, ◌++◌, if◌then◌else◌,
}
use cs5600_project_3_file_sy.Outcome.{Outcome, Outcome-cases, Errno, ok, err, crash}
use cs5600_project_3_file_sy.Disk.{Block, Device, block_read}
use cs5600_project_3_file_sy.Format.{Inode, entry_valid, entry_inode, entry_name, name_ends}
use cs5600_project_3_file_sy.Path.{Name}
use cs5600_project_3_file_sy.Dir.{read_inode}
use cs5600_project_3_file_sy.Query.{Stat, setstat, Listing, fill, named_inode, list_slots}

-- The item is the name of the valid entry `m` with the attributes in its inode, which can be read.
abbrev pub IsListed : Device → Block → ℕ → Name × Stat → Type 0
IsListed d b m e =
    (entry_valid b m ≡ true)
    × ((n : Inode) × (read_inode d (entry_inode b m) ≡ ok n) × (e ≡ (entry_name b m, setstat n)))

-- The read of an inode number that an `int` offset can hold ends.
read_ends :
    (d : Device) (inum : ℕ)
    → inum < 2 ^ 19
    → ((n : Inode) × (read_inode d inum ≡ ok n)) ⊎ ((x : Errno) × (read_inode d inum ≡ err x))
unfolding read_inode block_read
read_ends d inum l = elim (Outcome-cases (read_inode d inum)) [
  | inl r ↦ inl r
  | inr (inl r) ↦ inr r
  | inr (inr e) ↦ ground (arith, e)
]

-- The item of a valid entry whose inode can be read.
pub entry_item : Outcome Inode → Name → List (Name × Stat)
entry_item (ok n) name = (name, setstat n) ∷ []
entry_item (err e) name = []
entry_item crash name = []

pub entry_items : Device → Block → ℕ → List (Name × Stat)
unfolding entry_item
entry_items d b k =
    if entry_valid b k then entry_item (read_inode d (entry_inode b k)) (entry_name b k) else []

-- What `f` gives for `k`, `k + 1` up to `k + n - 1`, one after the other.
abbrev pub in_order : {A : Type 0} → (ℕ → List A) → ℕ → ℕ → List A
in_order f k zero = []
in_order f k (suc n) = f k ++ in_order f (k + 1) n

pub named_inode-ends :
    (d : Device) (b : Block) (k : ℕ)
    → name_ends b k ≡ true
    → named_inode d b k ≡ read_inode d (entry_inode b k)
unfolding named_inode
named_inode-ends d b k e = elim (Outcome-cases (read_inode d (entry_inode b k))) [
  | inl (n, r) ↦ rw (r, e)
  | inr (inl (x, r)) ↦ rw r
  | inr (inr r) ↦ rw r
]

listed-fill :
    (r : Outcome Inode) (name : Name) (rest : Listing) (e : Name × Stat)
    → Memᴰ e (fill r name rest).0
    → ((n : Inode) × (r ≡ ok n) × (e ≡ (name, setstat n))) ⊎ Memᴰ e rest.0
unfolding fill
listed-fill (ok n) name rest e (Memᴰ.head same) = inl (n, refl, same)
listed-fill (ok n) name rest e (Memᴰ.tail h) = inr h
listed-fill (err x) name rest e h = inr h
listed-fill crash name rest e h = elim h [ ]

fill-listed :
    (r : Outcome Inode) (name : Name) (rest : Listing) (e : Name × Stat)
    → ((n : Inode) × (r ≡ ok n)) ⊎ ((x : Errno) × (r ≡ err x))
    → ((n : Inode) × (r ≡ ok n) × (e ≡ (name, setstat n))) ⊎ Memᴰ e rest.0
    → Memᴰ e (fill r name rest).0
unfolding fill
fill-listed (ok n) name rest e ends (inl (i, r, same)) =
    let i_is : i ≡ n = cc in Memᴰ.head (rw i_is at same)
fill-listed (ok n) name rest e ends (inr h) = Memᴰ.tail h
fill-listed (err x) name rest e ends (inl (i, r, same)) = cc
fill-listed (err x) name rest e ends (inr h) = h
fill-listed crash name rest e (inl (n, r)) h = cc
fill-listed crash name rest e (inr (x, r)) h = cc

-- The entries of one block.
module _ (d : Device) (b : Block) where
  -- Some entry of `k` to `k + n - 1` gives the item.
  abbrev SomeSlot : ℕ → ℕ → Name × Stat → Type 0
  SomeSlot k n e = (m : ℕ) × (k ≤ m) × (m < k + n) × IsListed d b m e

  abbrev Safe : ℕ → ℕ → Type 0
  Safe k n =
      (m : ℕ)
      → k ≤ m
      → m < k + n
      → entry_valid b m ≡ true
      → (entry_inode b m < 2 ^ 19) × (name_ends b m ≡ true)

  named :
      (k n : ℕ)
      → Safe k (suc n)
      → entry_valid b k ≡ true
      → (named_inode d b k ≡ read_inode d (entry_inode b k))
        × (((i : Inode) × (read_inode d (entry_inode b k) ≡ ok i))
            ⊎ ((x : Errno) × (read_inode d (entry_inode b k) ≡ err x)))
  named k n safe v =
      let (small, ends) = safe k (omega arith) (omega arith) v in
      (named_inode-ends d b k ends, read_ends d (entry_inode b k) small)

  -- Each valid entry whose inode can be read is handed out once, in the order of the entries.
  pub slots_items :
      (k n : ℕ) (rest : Listing)
      → Safe k n
      → list_slots d b k n rest ≡ (in_order (entry_items d b) k n ++ rest.0, rest.1)
  unfolding list_slots fill entry_items
  slots_items k zero rest safe = refl
  slots_items k (suc n) rest safe =
      let more = slots_items (k + 1) n rest (λ m from to. safe m (omega arith) (omega arith)) in
      elim (Bool-cases (entry_valid b k)) [
        | inl v ↦
            let (same, ends) = named k n safe v in
            elim ends [ inl (i, r) ↦ rw (v, same, r, more) | inr (x, r) ↦ rw (v, same, r, more) ]
        | inr v ↦ rw (v, more)
      ]

  pub slots_end :
      (k n : ℕ) (rest : Listing) → Safe k n → rest.1 ≡ ok tt → (list_slots d b k n rest).1 ≡ ok tt
  unfolding list_slots fill
  slots_end k zero rest safe h = h
  slots_end k (suc n) rest safe h =
      let more = slots_end (k + 1) n rest (λ m from to. safe m (omega arith) (omega arith)) h in
      elim (Bool-cases (entry_valid b k)) [
        | inl v ↦
            let (same, ends) = named k n safe v in
            elim ends [ inl (i, r) ↦ rw (v, same, r) more | inr (x, r) ↦ rw (v, same, r) more ]
        | inr v ↦ rw v more
      ]

  later_slot : (k n : ℕ) (e : Name × Stat) → SomeSlot (k + 1) n e → SomeSlot k (suc n) e
  later_slot k n e (m, from, to, is) = (m, omega arith, omega arith, is)

  pub slots_listed :
      (k n : ℕ) (rest : Listing) (e : Name × Stat)
      → Safe k n
      → Memᴰ e (list_slots d b k n rest).0
      → SomeSlot k n e ⊎ Memᴰ e rest.0
  unfolding list_slots
  slots_listed k zero rest e safe h = inr h
  slots_listed k (suc n) rest e safe h =
      let more = list_slots d b (k + 1) n rest in
      let inode = read_inode d (entry_inode b k) in
      let later : Memᴰ e more.0 → SomeSlot k (suc n) e ⊎ Memᴰ e rest.0 = λ g.
        elim (slots_listed (k + 1) n rest e (λ m from to. safe m (omega arith) (omega arith)) g) [
          | inl q ↦ inl (later_slot k n e q)
          | inr q ↦ inr q
        ] in
      elim (Bool-cases (entry_valid b k)) [
        | inl v ↦
            elim (listed-fill inode (entry_name b k) more e (rw (v, (named k n safe v).0) at h)) [
              | inl (i, r, same) ↦ inl (k, omega arith, omega arith, (v, (i, r, same)))
              | inr g ↦ later g
            ]
        | inr v ↦ later (rw v at h)
      ]

  pub slots_list :
      (k n : ℕ) (rest : Listing) (e : Name × Stat)
      → Safe k n
      → SomeSlot k n e ⊎ Memᴰ e rest.0
      → Memᴰ e (list_slots d b k n rest).0
  unfolding list_slots
  slots_list k zero rest e safe (inl (m, from, to, is)) = absurd (omega arith)
  slots_list k zero rest e safe (inr h) = h
  slots_list k (suc n) rest e safe h =
      let more = list_slots d b (k + 1) n rest in
      let inode = read_inode d (entry_inode b k) in
      let on = slots_list (k + 1) n rest e (λ m from to. safe m (omega arith) (omega arith)) in
      let here : Memᴰ e more.0 → Memᴰ e (list_slots d b k (suc n) rest).0 = λ g.
        elim (Bool-cases (entry_valid b k)) [
          | inl v ↦
              let (same, ends) = named k n safe v in
              rw (v, same) (fill-listed inode (entry_name b k) more e ends (inr g))
          | inr v ↦ rw v g
        ] in
      elim h [
        | inr g ↦ here (on (inr g))
        | inl (m, from, to, (v, (i, r, same))) ↦ elim (ℕ_discrete m k) [
          | no ne ↦ here (on (inl (m, omega arith, omega arith, (v, (i, r, same)))))
          | yes q ↦
              let v' : entry_valid b k ≡ true = rw q at v in
              let (is, ends) = named k n safe v' in
              rw (v', is)
                (fill-listed inode (entry_name b k) more e ends (inl (i, rw q at r, rw q at same)))
        ]
      ]
