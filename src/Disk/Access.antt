-- ===== src/Disk/Access.antt =====
-- Reads after writes of whole blocks.
use cs5600_project_3_file_sy.Common.{refl, ℕ, ◌+◌, ◌^◌, ◌≡◌, ◌≢◌, ◌≤◌, ◌<◌, max, false, arith}
use cs5600_project_3_file_sy.Outcome.{ok}
use cs5600_project_3_file_sy.Disk.{Block, Device, stored, block_read, block_write}

-- What a successful write did.
pub record Wrote (d : Device) (k : ℕ) (b : Block) (d' : Device) : Type 0 where
  pub positive : 0 < k
  pub addressable : k < 2 ^ 19
  pub grows : d.blocks ≤ d'.blocks
  pub reaches : k < d'.blocks
  pub result : d' ≡ record {
    blocks = max d.blocks (k + 1);
    store = stored d k b;
    bad_read = d.bad_read;
    bad_write = d.bad_write;
  }

pub block_write-Wrote :
    (d : Device) (k : ℕ) (b : Block) (d' : Device) → block_write d k b ≡ ok d' → Wrote d k b d'
unfolding block_write
block_write-Wrote d k b d' h = ground arith

-- A block that was written reads back, wherever the medium can read it.
pub block_read-block_write_self :
    (d d' : Device) (k : ℕ) (b : Block)
    → block_write d k b ≡ ok d'
    → d.bad_read k ≡ false
    → block_read d' k ≡ ok b
unfolding block_read block_write
block_read-block_write_self d d' k b h g = ground arith

-- After a write, every other block that was in the image reads as before.
pub block_read-block_write_ne :
    (d d' : Device) (k j : ℕ) (b : Block)
    → block_write d k b ≡ ok d'
    → j ≢ k
    → j < d.blocks
    → block_read d' j ≡ block_read d j
unfolding block_read block_write
block_read-block_write_ne d d' k j b h ne lt = ground arith

-- The contents after a write, whether or not the medium can read them.
pub store-block_write_self :
    (d d' : Device) (k : ℕ) (b : Block) → block_write d k b ≡ ok d' → d'.store k ≡ b
unfolding block_write
store-block_write_self d d' k b h = ground arith

pub store-block_write_ne :
    (d d' : Device) (k j : ℕ) (b : Block)
    → block_write d k b ≡ ok d'
    → j ≢ k
    → j < d.blocks
    → d'.store j ≡ d.store j
unfolding block_write
store-block_write_ne d d' k j b h ne l = ground arith

pub readable :
    (d : Device) (k : ℕ) (b : Block)
    → block_read d k ≡ ok b
    → (k < d.blocks) × (d.bad_read k ≡ false)
unfolding block_read
readable d k b h = ground arith

pub bad_read-block_write :
    (d d' : Device) (k : ℕ) (b : Block) → block_write d k b ≡ ok d' → d'.bad_read ≡ d.bad_read
bad_read-block_write d d' k b h = rw ((block_write-Wrote d k b d' h).result) refl
