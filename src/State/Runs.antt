-- ===== src/State/Runs.antt =====
-- The parts of an operation run forward: what each gives where nothing stops it.
use cs5600_project_3_file_sy.Common.{
  ℕ, ◌+◌, ◌-◌, ◌^◌, ◌<◌, ◌≡◌, ap, ◌∙◌, Bool, true, false, some, arith, max, lt→ltb,
}
use cs5600_project_3_file_sy.Outcome.{Outcome, ok, err, Errno}
use cs5600_project_3_file_sy.Disk.{Block, Device, stored, block_read, block_write}
use cs5600_project_3_file_sy.Bitmap.{bit_set, bit_clear, with_bit, without_bit}
use cs5600_project_3_file_sy.State.{
  State, M, ◌>>=◌, ◌>>◌, reads, lift, require, write_block, set_bit, clear_bit, save_bitmap,
  put_device, put_bitmap, save_from,
}
use cs5600_project_3_file_sy.State.Steps.{next}

module _ {A B : Type 0} (m : M A) (f : A → M B) (s u : State) where
  pub bind-to : (a : A) → m s ≡ (ok a, u) → (m >>= f) s ≡ f a u
  bind-to a h = ap (next f) h

  pub bind-fails : (e : Errno) → m s ≡ (err e, u) → (m >>= f) s ≡ (err e, u)
  bind-fails e h = ap (next f) h

pub reads-to :
    {A B : Type 0} (g : State → Outcome A) (f : A → M B) (s : State) (a : A)
    → g s ≡ ok a
    → (reads g >>= f) s ≡ f a s
reads-to g f s a h = ap (λ r. next f (r, s)) h

pub lift-to :
    {A B : Type 0} (r : Outcome A) (f : A → M B) (s : State) (a : A)
    → r ≡ ok a
    → (lift r >>= f) s ≡ f a s
lift-to r f s a h = ap (λ r. next f (r, s)) h

pub require-to :
    {B : Type 0} (b : Bool) (e : Errno) (k : M B) (s : State)
    → b ≡ true
    → (require b e >> k) s ≡ k s
require-to b e k s h = ap (λ c. (require c e >> k) s) h

-- The device after block `k` was written.
abbrev pub put : Device → ℕ → Block → Device
put d k b = record d { blocks = max d.blocks (k + 1); store = stored d k b }

-- A block that the medium can write, at an offset that an `int` can hold.
pub record IsWritable (d : Device) (k : ℕ) : Type 0 where
  pub positive : 0 < k
  pub addressable : k < 2 ^ 19 - 1
  pub good : d.bad_write k ≡ false

pub block_write-put :
    (d : Device) (k : ℕ) (b : Block) → IsWritable d k → block_write d k b ≡ ok (put d k b)
unfolding block_write
block_write-put d k b w = ground (arith, w.positive, w.addressable, w.good)

pub write_block-to :
    (k : ℕ) (b : Block) (s : State)
    → IsWritable s.dev k
    → write_block k b s ≡ (ok tt, record s { dev = put s.dev k b })
unfolding write_block
write_block-to k b s w = ap (put_device s) (block_write-put s.dev k b w)

pub set_bit-to :
    (i : ℕ) (map : Block) (s : State)
    → s.bitmap ≡ some map
    → i < 32768
    → set_bit i s ≡ (ok tt, record s { bitmap = some (with_bit map i) })
unfolding set_bit bit_set
set_bit-to i map s b small = ap (λ m. put_bitmap s (bit_set m i)) b ∙ rw (lt→ltb i 32768 small)

pub clear_bit-to :
    (i : ℕ) (map : Block) (s : State)
    → s.bitmap ≡ some map
    → i < 32768
    → clear_bit i s ≡ (ok tt, record s { bitmap = some (without_bit map i) })
unfolding clear_bit bit_clear
clear_bit-to i map s b small = ap (λ m. put_bitmap s (bit_clear m i)) b ∙ rw (lt→ltb i 32768 small)

pub save_bitmap-to :
    (map : Block) (s : State)
    → s.bitmap ≡ some map
    → IsWritable s.dev 1
    → save_bitmap s ≡ (ok tt, record s { dev = put s.dev 1 map })
unfolding save_bitmap
save_bitmap-to map s b w = ap (λ m. save_from m s) b ∙ write_block-to 1 map s w

pub read_good :
    (d : Device) (k : ℕ)
    → k < d.blocks
    → k < 2 ^ 19
    → d.bad_read k ≡ false
    → block_read d k ≡ ok (d.store k)
unfolding block_read
read_good d k l m g = ground arith
