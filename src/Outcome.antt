-- ===== src/Outcome.antt =====
-- How a C function of homework.c ends: with its result, with a negative errno, or not at all (an
-- `assert` that fails, a null pointer, an access out of bounds, a signed overflow).
pub mod Sound
use cs5600_project_3_file_sy.Common.{◌≡◌, ◌⊎◌, inl, inr, refl, Bool, true, false}

-- The error codes that homework.c and misc.c return, negated there.
pub data Errno : Type 0 where
  enoent enotdir eio eexist enospc eisdir enotempty einval eopnotsupp : Errno

pub data Outcome (A : Type 0) : Type 0 where
  ok : A → Outcome A
  err : Errno → Outcome A
  crash : Outcome A

-- `if (call != 0) return error;` where the error is the callee's own.
infixl 5 ◌>>=◌ ◌>>◌
abbrev pub ◌>>=◌ : {A B : Type 0} → Outcome A → (A → Outcome B) → Outcome B
crash >>= next = crash
err e >>= next = err e
ok a >>= next = next a

abbrev pub ◌>>◌ : {B : Type 0} → Outcome (Unit {0}) → Outcome B → Outcome B
first >> rest = first >>= λ _. rest

-- `if (!test) return -e;`
abbrev pub require : Bool → Errno → Outcome (Unit {0})
require false e = err e
require true e = ok tt

-- What undefined behaviour leaves unguarded: the call goes on only where the access is defined.
abbrev pub within : Bool → Outcome (Unit {0})
within true = ok tt
within false = crash

-- A chain that succeeds has a first part that succeeds.
pub >>=-eq-ok :
    {A B : Type 0} (r : Outcome A) (next : A → Outcome B) {z : B}
    → (r >>= next) ≡ ok z
    → (y : A) × (r ≡ ok y) × (next y ≡ ok z)
>>=-eq-ok crash next e = cc
>>=-eq-ok (err errno) next e = cc
>>=-eq-ok (ok y) next e = (y, refl, e)

-- To split on how a call ended and keep the equation.
pub Outcome-cases :
    {A : Type 0} (r : Outcome A)
    → ((a : A) × (r ≡ ok a)) ⊎ ((e : Errno) × (r ≡ err e)) ⊎ (r ≡ crash)
Outcome-cases (ok a) = inl (a, refl)
Outcome-cases (err e) = inr (inl (e, refl))
Outcome-cases crash = inr (inr refl)
