-- ===== src/State/Steps.antt =====
-- Inversion of the parts of an operation that succeeds, and of a part that changes no state.
use cs5600_project_3_file_sy.Common.{
  ◌≡◌, refl, sym, ap, ◌∙◌, ℕ, ◌<◌, Bool, true, false, Option, none, some, arith,
}
use cs5600_project_3_file_sy.Outcome.{Outcome, ok, err, crash, Errno}
use cs5600_project_3_file_sy.Disk.{Block, Device, block_write}
use cs5600_project_3_file_sy.Bitmap.{bit_set, bit_clear, with_bit, without_bit}
use cs5600_project_3_file_sy.State.{
  State, M, ◌>>=◌, ◌>>◌, reads, lift, require, write_block, set_bit, clear_bit, save_bitmap,
  put_device, put_bitmap, save_from,
}

-- How a sequence goes on from what its first part gave.
abbrev pub next : {A B : Type 0} → (A → M B) → Outcome A × State → Outcome B × State
next f r = elim r.0 [ ok a ↦ f a r.1 | err e ↦ (err e, r.1) | crash ↦ (crash, r.1) ]

next-ok :
    {A B : Type 0} (f : A → M B) (r : Outcome A × State) {b : B} {t : State}
    → next f r ≡ (ok b, t)
    → (a : A) × (u : State) × (r ≡ (ok a, u)) × (f a u ≡ (ok b, t))
next-ok f (ok a, u) h = (a, u, refl, h)
next-ok f (err e, u) h = cc
next-ok f (crash, u) h = cc

pub bind-ok :
    {A B : Type 0} (m : M A) (f : A → M B) (s : State) {b : B} {t : State}
    → (m >>= f) s ≡ (ok b, t)
    → (a : A) × (u : State) × (m s ≡ (ok a, u)) × (f a u ≡ (ok b, t))
bind-ok m f s h = next-ok f (m s) h

pub require-ok :
    (b : Bool) (e : Errno) (s t : State) → require b e s ≡ (ok tt, t) → (b ≡ true) × (s ≡ t)
require-ok b e s t h = ground arith

pub lift-ok :
    {A : Type 0} (r : Outcome A) (s : State) {a : A} {t : State}
    → lift r s ≡ (ok a, t)
    → (r ≡ ok a) × (s ≡ t)
lift-ok r s h = (ap (λ p. p.0) h, ap (λ p. p.1) h)

pub write_block-ok :
    (lba : ℕ) (b : Block) (s t : State)
    → write_block lba b s ≡ (ok tt, t)
    → (d : Device) × (block_write s.dev lba b ≡ ok d) × (t ≡ record s { dev = d })
unfolding write_block
write_block-ok lba b s t h = go (block_write s.dev lba b) h
  where
    go :
        (r : Outcome Device)
        → put_device s r ≡ (ok tt, t)
        → (d : Device) × (r ≡ ok d) × (t ≡ record s { dev = d })
    go (ok d) h = (d, refl, sym (ap (λ p. p.1) h))
    go (err e) h = cc
    go crash h = cc

-- The first part of a sequence that succeeds, for each kind of part: what it gave, and the rest of
-- the sequence from the state that it left.
module _ {A B : Type 0} {b : B} {t : State} where
  pub lift-then :
      (r : Outcome A) (f : A → M B) (s : State)
      → (lift r >>= f) s ≡ (ok b, t)
      → (a : A) × (r ≡ ok a) × (f a s ≡ (ok b, t))
  lift-then (ok a) f s h = (a, refl, h)
  lift-then (err e) f s h = cc
  lift-then crash f s h = cc

  pub reads-then :
      (g : State → Outcome A) (f : A → M B) (s : State)
      → (reads g >>= f) s ≡ (ok b, t)
      → (a : A) × (g s ≡ ok a) × (f a s ≡ (ok b, t))
  reads-then g f s h = lift-then (g s) f s h

bit_set-ok :
    (map : Block) (o : Option Block) (i : ℕ)
    → bit_set (some map) i ≡ ok o
    → (i < 32768) × (o ≡ some (with_bit map i))
unfolding bit_set
bit_set-ok map o i h = ground arith

bit_clear-ok :
    (map : Block) (o : Option Block) (i : ℕ)
    → bit_clear (some map) i ≡ ok o
    → (i < 32768) × (o ≡ some (without_bit map i))
unfolding bit_clear
bit_clear-ok map o i h = ground arith

module _ {B : Type 0} {b : B} {t : State} where
  pub require-then :
      (test : Bool) (e : Errno) (k : M B) (s : State)
      → (require test e >> k) s ≡ (ok b, t)
      → (test ≡ true) × (k s ≡ (ok b, t))
  require-then true e k s h = (refl, h)
  require-then false e k s h = cc

  pub put_device-then :
      (r : Outcome Device) (k : M B) (s : State)
      → next (λ _. k) (put_device s r) ≡ (ok b, t)
      → (d : Device) × (r ≡ ok d) × (k (record s { dev = d }) ≡ (ok b, t))
  put_device-then (ok d) k s h = (d, refl, h)
  put_device-then (err e) k s h = cc
  put_device-then crash k s h = cc

  pub write_block-then :
      (lba : ℕ) (c : Block) (k : M B) (s : State)
      → (write_block lba c >> k) s ≡ (ok b, t)
      → (d : Device) × (block_write s.dev lba c ≡ ok d) × (k (record s { dev = d }) ≡ (ok b, t))
  unfolding write_block
  write_block-then lba c k s h = put_device-then (block_write s.dev lba c) k s h

  put_bitmap-then :
      (r : Outcome (Option Block)) (k : M B) (s : State)
      → next (λ _. k) (put_bitmap s r) ≡ (ok b, t)
      → (map : Option Block) × (r ≡ ok map) × (k (record s { bitmap = map }) ≡ (ok b, t))
  put_bitmap-then (ok map) k s h = (map, refl, h)
  put_bitmap-then (err e) k s h = cc
  put_bitmap-then crash k s h = cc

  pub set_bit-then :
      (i : ℕ) (map : Block) (k : M B) (s : State)
      → s.bitmap ≡ some map
      → (set_bit i >> k) s ≡ (ok b, t)
      → (i < 32768) × (k (record s { bitmap = some (with_bit map i) }) ≡ (ok b, t))
  unfolding set_bit
  set_bit-then i map k s e h =
      let (map', f, g) = put_bitmap-then (bit_set s.bitmap i) k s h in
      let (l, q) = bit_set-ok map map' i (ap (λ o. bit_set o i) (sym e) ∙ f) in
      (l, ap (λ o. k (record s { bitmap = o })) (sym q) ∙ g)

  pub clear_bit-then :
      (i : ℕ) (map : Block) (k : M B) (s : State)
      → s.bitmap ≡ some map
      → (clear_bit i >> k) s ≡ (ok b, t)
      → (i < 32768) × (k (record s { bitmap = some (without_bit map i) }) ≡ (ok b, t))
  unfolding clear_bit
  clear_bit-then i map k s e h =
      let (map', f, g) = put_bitmap-then (bit_clear s.bitmap i) k s h in
      let (l, q) = bit_clear-ok map map' i (ap (λ o. bit_clear o i) (sym e) ∙ f) in
      (l, ap (λ o. k (record s { bitmap = o })) (sym q) ∙ g)

  save_from-then :
      (o : Option Block) (map : Block) (k : M B) (s : State)
      → o ≡ some map
      → next (λ _. k) (save_from o s) ≡ (ok b, t)
      → (d : Device) × (block_write s.dev 1 map ≡ ok d) × (k (record s { dev = d }) ≡ (ok b, t))
  unfolding write_block
  save_from-then none map k s e h = cc
  save_from-then (some m) map k s e h =
      let (d, f, g) = put_device-then (block_write s.dev 1 m) k s h in
      let q : m ≡ map = cc in (d, ap (block_write s.dev 1) (sym q) ∙ f, g)

  pub save_bitmap-then :
      (map : Block) (k : M B) (s : State)
      → s.bitmap ≡ some map
      → (save_bitmap >> k) s ≡ (ok b, t)
      → (d : Device) × (block_write s.dev 1 map ≡ ok d) × (k (record s { dev = d }) ≡ (ok b, t))
  unfolding save_bitmap
  save_bitmap-then map k s e h = save_from-then s.bitmap map k s e h
