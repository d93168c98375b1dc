-- ===== src/State.antt =====
-- The globals of homework.c and the device behind misc.c, and the monad of the operations.
pub mod Steps
pub mod Runs
pub mod After
pub mod Keeps
use cs5600_project_3_file_sy.Common.{ℕ, ◌≡◌, refl, Option, none, some, Bool}
use cs5600_project_3_file_sy.Outcome
use cs5600_project_3_file_sy.Outcome.{Outcome, ok, err, crash, Errno, eio}
use cs5600_project_3_file_sy.Disk.{Block, Device, block_write}
use cs5600_project_3_file_sy.Bitmap.{bit_set, bit_clear}
use cs5600_project_3_file_sy.Format.{Super}

-- `superblock`, `bitmap` (a null pointer is `none`), and the image.
pub record State : Type 0 where
  pub dev : Device
  pub super : Super
  pub bitmap : Option Block

-- What FUSE and the clock tell an operation: `ctx->uid`, `ctx->gid` and `time(NULL)`.
pub record Env : Type 0 where
  pub uid : ℕ
  pub gid : ℕ
  pub now : ℕ

-- The state comes back after an error too: what was written stays written.
abbrev pub M : Type 0 → Type 0
M A = State → Outcome A × State

infixl 5 ◌>>=◌ ◌>>◌
abbrev pub ◌>>=◌ : {A B : Type 0} → M A → (A → M B) → M B
◌>>=◌ m f s = let (r, t) = m s in elim r [ ok a ↦ f a t | err e ↦ (err e, t) | crash ↦ (crash, t) ]

abbrev pub ◌>>◌ : {A B : Type 0} → M A → M B → M B
m >> k = m >>= λ _. k

abbrev pub pure : {A : Type 0} → A → M A
pure a s = (ok a, s)

-- A part that changes no state.
abbrev pub reads : {A : Type 0} → (State → Outcome A) → M A
reads f s = (f s, s)

abbrev pub lift : {A : Type 0} → Outcome A → M A
lift r s = (r, s)

abbrev pub require : Bool → Errno → M (Unit {0})
require b e = lift (Outcome.require b e)

-- `if (call != 0) { cleanup; return error; }`
abbrev pub on_error : {A : Type 0} → M A → M (Unit {0}) → M A
on_error m cleanup s =
    let (r, t) = m s in
    elim r [ ok a ↦ (ok a, t) | err e ↦ (cleanup >> lift (err e)) t | crash ↦ (crash, t) ]

-- A call whose result is not looked at.
abbrev pub ignore : {A : Type 0} → M A → M (Unit {0})
ignore m s =
    let (r, t) = m s in elim r [ ok a ↦ (ok tt, t) | err e ↦ (ok tt, t) | crash ↦ (crash, t) ]

-- `block_write(b, lba, 1)`
abbrev pub put_device : State → Outcome Device → Outcome (Unit {0}) × State
put_device s (ok d) = (ok tt, record s { dev = d })
put_device s (err e) = (err e, s)
put_device s crash = (crash, s)

unfoldable pub write_block : ℕ → Block → M (Unit {0})
write_block lba b s = put_device s (block_write s.dev lba b)

abbrev pub put_bitmap : State → Outcome (Option Block) → Outcome (Unit {0}) × State
put_bitmap s (ok map) = (ok tt, record s { bitmap = map })
put_bitmap s (err e) = (err e, s)
put_bitmap s crash = (crash, s)

-- `bit_set(bitmap, i)` and `bit_clear(bitmap, i)`
unfoldable pub set_bit : ℕ → M (Unit {0})
set_bit i s = put_bitmap s (bit_set s.bitmap i)

unfoldable pub clear_bit : ℕ → M (Unit {0})
clear_bit i s = put_bitmap s (bit_clear s.bitmap i)

-- `block_write(bitmap, 1, 1)`; `write` refuses a null buffer.
abbrev pub save_from : Option Block → M (Unit {0})
save_from none = lift (err eio)
save_from (some map) = write_block 1 map

unfoldable pub save_bitmap : M (Unit {0})
save_bitmap s = save_from s.bitmap s
