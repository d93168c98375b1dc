-- ===== src/Outcome/Sound.antt =====
-- What holds of the result of a call that never crashes.
use cs5600_project_3_file_sy.Common.{◌≡◌}
use cs5600_project_3_file_sy.Outcome.{Outcome, ok, err, crash, ◌>>=◌}

abbrev pub Sound : {A : Type 0} → (A → Type 0) → Outcome A → Type 0
Sound Q (ok a) = Q a
Sound Q (err e) = Unit
Sound Q crash = ⊥

module _ {A : Type 0} (Q : A → Type 0) where
  pub Sound-bind :
      {B : Type 0} (R : B → Type 0) (f : A → Outcome B) (r : Outcome A)
      → Sound Q r
      → ((a : A) → Q a → Sound R (f a))
      → Sound R (r >>= f)
  Sound-bind R f (ok a) h k = k a h
  Sound-bind R f (err e) h k = tt
  Sound-bind R f crash h k = elim h [ ]

  pub Sound-ok : (r : Outcome A) (a : A) → Sound Q r → r ≡ ok a → Q a
  Sound-ok r a h e = rw e at h

  pub Sound-crash : (r : Outcome A) → Sound Q r → r ≡ crash → ⊥
  Sound-crash r h e = rw e at h

  pub Sound-weaken :
      (R : A → Type 0) (r : Outcome A) → Sound Q r → ((a : A) → Q a → R a) → Sound R r
  Sound-weaken R (ok a) h f = f a h
  Sound-weaken R (err e) h f = tt
  Sound-weaken R crash h f = h
