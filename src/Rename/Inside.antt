-- ===== src/Rename/Inside.antt =====
-- The loop of fs_rename over the entries of a block whose names end.
use cs5600_project_3_file_sy.Common.{ℕ, ◌<◌, ◌≡◌, ap, Bool-cases, inl, inr, true, arith}
use cs5600_project_3_file_sy.Disk.{Block}
use cs5600_project_3_file_sy.Format.{entry_valid}
use cs5600_project_3_file_sy.Path.{Name}
use cs5600_project_3_file_sy.Dir.{is_named}
use cs5600_project_3_file_sy.Dir.Slots.{find_slot-none_intro}
use cs5600_project_3_file_sy.Format.Entries.{IsTerminated}
use cs5600_project_3_file_sy.Format.Ends.{IsTerminated-name_ends}
use cs5600_project_3_file_sy.Rename.{runs_over, no_slot, stays_inside}

-- No valid entry has a name that runs past the end of the block.
pub stays_inside-ends :
    (src dst : Name) (b : Block)
    → ((m : ℕ) → m < 128 → entry_valid b m ≡ true → IsTerminated b m)
    → stays_inside src dst b ≡ true
unfolding stays_inside runs_over is_named
stays_inside-ends src dst b h = ap no_slot (
    find_slot-none_intro (runs_over src dst b) 0 128 (λ m from to.
      elim (Bool-cases (entry_valid b m)) [
        | inl v ↦
            let e = IsTerminated-name_ends b m (omega arith) (h m (omega arith) v) in
            ground (arith, e)
        | inr v ↦ rw v (ground arith)
      ]))
