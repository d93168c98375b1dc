-- ===== src/Attr/Rewritten.antt =====
-- An inode is rewritten, and the rest of the image stays.
use cs5600_project_3_file_sy.Common.{ℕ, ◌<◌, ◌≡◌, ◌≢◌, refl}
use cs5600_project_3_file_sy.Outcome.{ok}
use cs5600_project_3_file_sy.Disk.Access.{store-block_write_self, store-block_write_ne}
use cs5600_project_3_file_sy.Format.{Inode, encode_inode}
use cs5600_project_3_file_sy.State.{State, write_block}
use cs5600_project_3_file_sy.State.Steps.{write_block-ok}

-- Block `inum` holds the inode `n`; the other blocks of the image and the globals are as they were.
pub record Rewritten (inum : ℕ) (n : Inode) (s t : State) : Type 0 where
  pub stored : t.dev.store inum ≡ encode_inode n
  pub others : (j : ℕ) → j ≢ inum → j < s.dev.blocks → t.dev.store j ≡ s.dev.store j
  pub super_same : t.super ≡ s.super
  pub bitmap_same : t.bitmap ≡ s.bitmap

pub write_block-Rewritten :
    (inum : ℕ) (n : Inode) (s t : State)
    → write_block inum (encode_inode n) s ≡ (ok tt, t)
    → Rewritten inum n s t
write_block-Rewritten inum n s t h =
    let (d, w, e) = write_block-ok inum (encode_inode n) s t h in
    rw e (record {
      stored = store-block_write_self s.dev d inum (encode_inode n) w;
      others = λ j ne l. store-block_write_ne s.dev d inum j (encode_inode n) w ne l;
      super_same = refl;
      bitmap_same = refl;
    })
