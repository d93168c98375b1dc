-- ===== src/State/Keeps.antt =====
-- Parts of an operation that never write block 0, and sequences of them.
use cs5600_project_3_file_sy.Common.{ℕ, ◌<◌, ◌≡◌, refl, ◌∙◌, Bool, Option, none, some, arith}
use cs5600_project_3_file_sy.Outcome.{Outcome, ok, err, crash, Errno}
use cs5600_project_3_file_sy.Disk.{Block, Device, block_write}
use cs5600_project_3_file_sy.Disk.Access.{block_write-Wrote, store-block_write_ne}
use cs5600_project_3_file_sy.Bitmap.{bit_set, bit_clear}
use cs5600_project_3_file_sy.State.{
  State, M, ◌>>=◌, ◌>>◌, reads, lift, require, on_error, ignore, write_block, set_bit, clear_bit,
  save_bitmap, put_device, put_bitmap, save_from,
}
use cs5600_project_3_file_sy.State.Steps.{next}

-- The superblock is the same in two states, on the image and in memory.
pub record SameSuper (s t : State) : Type 0 where
  pub there : 0 < t.dev.blocks
  pub block_same : t.dev.store 0 ≡ s.dev.store 0
  pub super_same : t.super ≡ s.super

-- However a part ends, it has left the superblock alone.
abbrev pub Keeps : {A : Type 0} → M A → Type 0
Keeps m = (s : State) → 0 < s.dev.blocks → SameSuper s (m s).1

pub SameSuper-refl : (s : State) → 0 < s.dev.blocks → SameSuper s s
SameSuper-refl s h = record { there = h; block_same = refl; super_same = refl }

pub SameSuper-trans : (s t u : State) → SameSuper s t → SameSuper t u → SameSuper s u
SameSuper-trans s t u a b = record {
  there = b.there;
  block_same = b.block_same ∙ a.block_same;
  super_same = b.super_same ∙ a.super_same;
}

module _ {A B : Type 0} where
  next-Keeps :
      (f : A → M B) (s : State) (p : Outcome A × State)
      → ((a : A) → Keeps (f a))
      → SameSuper s p.1
      → SameSuper s (next f p).1
  next-Keeps f s (ok a, u) k h = SameSuper-trans s u (f a u).1 h (k a u h.there)
  next-Keeps f s (err e, u) k h = h
  next-Keeps f s (crash, u) k h = h

  pub bind-Keeps : (m : M A) (f : A → M B) → Keeps m → ((a : A) → Keeps (f a)) → Keeps (m >>= f)
  bind-Keeps m f h k s l = next-Keeps f s (m s) k (h s l)

  pub then-Keeps : (m : M A) (k : M B) → Keeps m → Keeps k → Keeps (m >> k)
  then-Keeps m k h g = bind-Keeps m (λ _. k) h (λ _. g)

module _ {A : Type 0} where
  pub lift-Keeps : (r : Outcome A) → Keeps (lift r)
  lift-Keeps r s l = SameSuper-refl s l

  pub reads-Keeps : (f : State → Outcome A) → Keeps (reads f)
  reads-Keeps f s l = SameSuper-refl s l

  -- What `on_error` makes of the first call's end.
  abbrev handled : M (Unit {0}) → Outcome A × State → Outcome A × State
  handled undo p = elim p.0 [
    | ok a ↦ (ok a, p.1)
    | err e ↦ (undo >> lift (err e)) p.1
    | crash ↦ (crash, p.1)
  ]

  handled-Keeps :
      (undo : M (Unit {0})) (s : State) (p : Outcome A × State)
      → Keeps undo
      → SameSuper s p.1
      → SameSuper s (handled undo p).1
  handled-Keeps undo s (ok a, u) k h = h
  handled-Keeps undo s (err x, u) k h =
      SameSuper-trans s u (handled undo (err x, u)).1 h
        (then-Keeps undo (lift (err x)) k (lift-Keeps (err x)) u h.there)
  handled-Keeps undo s (crash, u) k h = h

  pub on_error-Keeps :
      (m : M A) (undo : M (Unit {0})) → Keeps m → Keeps undo → Keeps (on_error m undo)
  on_error-Keeps m undo h k s l = handled-Keeps undo s (m s) k (h s l)

  abbrev dropped : Outcome A × State → Outcome (Unit {0}) × State
  dropped p = elim p.0 [ ok a ↦ (ok tt, p.1) | err e ↦ (ok tt, p.1) | crash ↦ (crash, p.1) ]

  dropped-Keeps : (s : State) (p : Outcome A × State) → SameSuper s p.1 → SameSuper s (dropped p).1
  dropped-Keeps s (ok a, u) h = h
  dropped-Keeps s (err x, u) h = h
  dropped-Keeps s (crash, u) h = h

  pub ignore-Keeps : (m : M A) → Keeps m → Keeps (ignore m)
  ignore-Keeps m h s l = dropped-Keeps s (m s) (h s l)

pub require-Keeps : (b : Bool) (e : Errno) → Keeps (require b e)
require-Keeps b e s l = SameSuper-refl s l

put_device-Keeps :
    (lba : ℕ) (b : Block) (s : State) (r : Outcome Device)
    → block_write s.dev lba b ≡ r
    → 0 < s.dev.blocks
    → SameSuper s (put_device s r).1
put_device-Keeps lba b s (ok d) e l =
    let w = block_write-Wrote s.dev lba b d e in
    record {
      there = omega (arith, w.grows);
      block_same = store-block_write_ne s.dev d lba 0 b e (omega (arith, w.positive)) l;
      super_same = refl;
    }
put_device-Keeps lba b s (err x) e l = SameSuper-refl s l
put_device-Keeps lba b s crash e l = SameSuper-refl s l

pub write_block-Keeps : (lba : ℕ) (b : Block) → Keeps (write_block lba b)
unfolding write_block
write_block-Keeps lba b s l = put_device-Keeps lba b s (block_write s.dev lba b) refl l

put_bitmap-Keeps :
    (s : State) (r : Outcome (Option Block)) → 0 < s.dev.blocks → SameSuper s (put_bitmap s r).1
put_bitmap-Keeps s (ok map) l = record { there = l; block_same = refl; super_same = refl }
put_bitmap-Keeps s (err x) l = SameSuper-refl s l
put_bitmap-Keeps s crash l = SameSuper-refl s l

pub set_bit-Keeps : (i : ℕ) → Keeps (set_bit i)
unfolding set_bit
set_bit-Keeps i s l = put_bitmap-Keeps s (bit_set s.bitmap i) l

pub clear_bit-Keeps : (i : ℕ) → Keeps (clear_bit i)
unfolding clear_bit
clear_bit-Keeps i s l = put_bitmap-Keeps s (bit_clear s.bitmap i) l

save_from-Keeps : (o : Option Block) → Keeps (save_from o)
save_from-Keeps none s l = SameSuper-refl s l
save_from-Keeps (some map) s l = write_block-Keeps 1 map s l

pub save_bitmap-Keeps : Keeps save_bitmap
unfolding save_bitmap
save_bitmap-Keeps s l = save_from-Keeps s.bitmap s l
