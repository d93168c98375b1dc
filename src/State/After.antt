-- ===== src/State/After.antt =====
-- What holds after a part of an operation that never crashes: `Q` if it succeeds, `E` if it fails.
use cs5600_project_3_file_sy.Common.{
  ℕ, ◌≡◌, refl, ap, Bool, true, false, Bool-cases, some, arith, ◌<◌, ◌^◌, ◌-◌, inl, inr, lt→ltb,
  ==_ne,
}
use cs5600_project_3_file_sy.Outcome.{Outcome, ok, err, crash, Errno}
use cs5600_project_3_file_sy.Disk.{Block, block_write}
use cs5600_project_3_file_sy.Bitmap.{with_bit, without_bit}
use cs5600_project_3_file_sy.State.{
  State, M, ◌>>=◌, ◌>>◌, reads, lift, require, on_error, ignore, write_block, set_bit, clear_bit,
  save_bitmap, save_from,
}
use cs5600_project_3_file_sy.State.Runs.{put, set_bit-to, clear_bit-to}

abbrev pub After :
    {A : Type 0} → (A → State → Type 0) → (State → Type 0) → Outcome A × State → Type 0
After Q E (ok a, t) = Q a t
After Q E (err e, t) = E t
After Q E (crash, t) = ⊥

module _ {A B : Type 0} (Q : A → State → Type 0) (E : State → Type 0) (R : B → State → Type 0)
    (f : A → M B) where
  After-next :
      (p : Outcome A × State)
      → After Q E p
      → ((a : A) (t : State) → Q a t → After R E (f a t))
      → After R E (elim p.0 [ ok a ↦ f a p.1 | err e ↦ (err e, p.1) | crash ↦ (crash, p.1) ])
  After-next (ok a, t) h k = k a t h
  After-next (err e, t) h k = h
  After-next (crash, t) h k = elim h [ ]

  pub After-bind :
      (m : M A) (s : State)
      → After Q E (m s)
      → ((a : A) (t : State) → Q a t → After R E (f a t))
      → After R E ((m >>= f) s)
  After-bind m s h k = After-next (m s) h k

pub After-weaken :
    {A : Type 0} (Q R : A → State → Type 0) (E F : State → Type 0) (p : Outcome A × State)
    → After Q E p
    → ((a : A) (t : State) → Q a t → R a t)
    → ((t : State) → E t → F t)
    → After R F p
After-weaken Q R E F (ok a, t) h f g = f a t h
After-weaken Q R E F (err e, t) h f g = g t h
After-weaken Q R E F (crash, t) h f g = elim h [ ]

-- The part is run as another one is.
pub After-same :
    {A : Type 0} (Q : A → State → Type 0) (E : State → Type 0) (p q : Outcome A × State)
    → p ≡ q
    → After Q E q
    → After Q E p
After-same Q E p q e h = rw e h

module _ {A B : Type 0} (E : State → Type 0) (R : B → State → Type 0) (f : A → M B)
    (s : State) where
  pub After-lift :
      (r : Outcome A)
      → (r ≡ crash → ⊥)
      → E s
      → ((a : A) → r ≡ ok a → After R E (f a s))
      → After R E ((lift r >>= f) s)
  After-lift (ok a) sound fails goes = goes a refl
  After-lift (err e) sound fails goes = fails
  After-lift crash sound fails goes = sound refl

  pub After-reads :
      (g : State → Outcome A)
      → (g s ≡ crash → ⊥)
      → E s
      → ((a : A) → g s ≡ ok a → After R E (f a s))
      → After R E ((reads g >>= f) s)
  After-reads g sound fails goes = After-lift (g s) sound fails goes

pub After-require :
    {B : Type 0} (E : State → Type 0) (R : B → State → Type 0) (b : Bool) (e : Errno) (k : M B)
    (s : State)
    → E s
    → (b ≡ true → After R E (k s))
    → After R E ((require b e >> k) s)
After-require E R true e k s fails goes = goes refl
After-require E R false e k s fails goes = fails

-- A write to a block whose number an `int` offset can hold.
pub After-write_block :
    (lba : ℕ) (b : Block) (Q : Unit {0} → State → Type 0) (E : State → Type 0) (s : State)
    → 0 < lba
    → lba < 2 ^ 19 - 1
    → E s
    → (s.dev.bad_write lba ≡ false → Q tt (record s { dev = put s.dev lba b }))
    → After Q E (write_block lba b s)
unfolding write_block block_write
After-write_block lba b Q E s from to fails goes = elim (Bool-cases (s.dev.bad_write lba)) [
  | inl e ↦ rw (==_ne lba 0 (omega arith), lt→ltb lba (2 ^ 19 - 1) to, e) fails
  | inr e ↦ rw (==_ne lba 0 (omega arith), lt→ltb lba (2 ^ 19 - 1) to, e) (goes e)
]

pub After-set_bit :
    (i : ℕ) (map : Block) (Q : Unit {0} → State → Type 0) (E : State → Type 0) (s : State)
    → s.bitmap ≡ some map
    → i < 32768
    → Q tt (record s { bitmap = some (with_bit map i) })
    → After Q E (set_bit i s)
After-set_bit i map Q E s b small goes = rw (set_bit-to i map s b small) goes

pub After-clear_bit :
    (i : ℕ) (map : Block) (Q : Unit {0} → State → Type 0) (E : State → Type 0) (s : State)
    → s.bitmap ≡ some map
    → i < 32768
    → Q tt (record s { bitmap = some (without_bit map i) })
    → After Q E (clear_bit i s)
After-clear_bit i map Q E s b small goes = rw (clear_bit-to i map s b small) goes

pub After-save_bitmap :
    (map : Block) (Q : Unit {0} → State → Type 0) (E : State → Type 0) (s : State)
    → s.bitmap ≡ some map
    → E s
    → Q tt (record s { dev = put s.dev 1 map })
    → After Q E (save_bitmap s)
unfolding save_bitmap
After-save_bitmap map Q E s b fails goes =
    let saved = After-write_block 1 map Q E s (omega arith) (omega arith) fails (λ _. goes) in
    After-same Q E (save_bitmap s) (write_block 1 map s) (ap (λ m. save_from m s) b) saved

pub After-ignore :
    {A : Type 0} (E : State → Type 0) (m : M A) (s : State)
    → After (λ _ t. E t) E (m s)
    → After (λ _ t. E t) E (ignore m s)
After-ignore {A} E m s h = ignored (m s) h
  where
    ignored :
        (p : Outcome A × State)
        → After (λ _ t. E t) E p
        → After {A = Unit {0}}
            (λ _ t. E t)
            E
            (elim p.0 [ ok a ↦ (ok tt, p.1) | err e ↦ (ok tt, p.1) | crash ↦ (crash, p.1) ])
    ignored (ok a, t) h = h
    ignored (err e, t) h = h
    ignored (crash, t) h = h

-- A failure is followed by a cleanup, after which the error is returned.
pub After-on_error :
    {A : Type 0} (Q : A → State → Type 0) (F E : State → Type 0) (m : M A) (cleanup : M (Unit {0}))
    (s : State)
    → After Q F (m s)
    → ((t : State) → F t → After (λ _ u. E u) E (cleanup t))
    → After Q E (on_error m cleanup s)
After-on_error {A} Q F E m cleanup s h undo = cleaned (m s) h
  where
    errs :
        (e : Errno) (p : Outcome (Unit {0}) × State)
        → After (λ _ u. E u) E p
        → After Q E (elim p.0 [ ok a ↦ (err e, p.1) | err x ↦ (err x, p.1) | crash ↦ (crash, p.1) ])
    errs e (ok a, t) h = h
    errs e (err x, t) h = h
    errs e (crash, t) h = h

    cleaned :
        (p : Outcome A × State)
        → After Q F p
        → After Q E (elim p.0 [
          | ok a ↦ (ok a, p.1)
          | err e ↦ (cleanup >> lift (err e)) p.1
          | crash ↦ (crash, p.1)
        ])
    cleaned (ok a, t) h = h
    cleaned (err e, t) h = errs e (cleanup t) (undo t h)
    cleaned (crash, t) h = h
