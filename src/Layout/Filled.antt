-- ===== src/Layout/Filled.antt =====
-- The loop of fs_write that fills the blocks, on a consistent image.
use cs5600_project_3_file_sy.Common.{
  ℕ, zero, suc, ◌+◌, ◌-◌, ◌*◌, ◌/◌, ◌%◌, ◌≤◌, ◌<◌, ◌≡◌, ◌≢◌, sym, ◌∙◌, Bool-cases, inl, inr, arith,
  List, drop, lt→ltb, ltb, ◌||◌,
}
use cs5600_project_3_file_sy.Outcome.{Outcome, ok, err, crash}
use cs5600_project_3_file_sy.Outcome.Sound.{Sound}
use cs5600_project_3_file_sy.Disk.{Block, block_read}
use cs5600_project_3_file_sy.Format.{Inode}
use cs5600_project_3_file_sy.Dir.{ptr_at}
use cs5600_project_3_file_sy.State.{State, ◌>>=◌, ◌>>◌, write_block}
use cs5600_project_3_file_sy.State.After.{After, After-bind, After-same, After-write_block}
use cs5600_project_3_file_sy.State.Runs.{lift-to}
use cs5600_project_3_file_sy.Read.{chunk}
use cs5600_project_3_file_sy.Write.{old_block, patch, write_loop}
use cs5600_project_3_file_sy.Layout.{Kind, unowned, file_data, IsConsistent}
use cs5600_project_3_file_sy.Layout.Frame.{frame-put}
use cs5600_project_3_file_sy.Layout.Walk.{Sound-block_read}
use cs5600_project_3_file_sy.Layout.Steps.{Same, E}

module _ (kind : ℕ → Kind) (home : ℕ → ℕ × ℕ) where
  After-old_block :
      (at n lba : ℕ) (s : State)
      → IsConsistent kind home s
      → lba < 32768
      → After (Same kind home) (E kind home) (old_block at n lba s)
  After-old_block at n lba s c small = elim (Bool-cases (ltb 0 (at % 4096) || ltb n 4096)) [
    | inl e ↦ rw e (read (block_read s.dev lba) (Sound-block_read s.dev lba (omega arith)))
    | inr e ↦ rw e c
  ]
    where
      read :
          (r : Outcome Block)
          → Sound (λ b. b ≡ s.dev.store lba) r
          → After (Same kind home) (E kind home) (r, s)
      read (ok b) h = c
      read (err e) h = c
      read crash h = h

  module _ (x blocks : ℕ) (g : Inode) (few : blocks ≤ 1019)
      (owns : (j : ℕ) → j < blocks → kind (g.ptrs j) ≡ file_data x j) where
    pub After-write_loop :
        (at r fuel : ℕ) (buf : List ℕ) (s : State)
        → at + r ≤ blocks * 4096
        → r ≤ fuel
        → IsConsistent kind home s
        → After (Same kind home) (E kind home) (write_loop g at buf r fuel s)
    unfolding write_loop ptr_at
    After-write_loop at zero fuel buf s inside enough c = c
    After-write_loop at (suc r) zero buf s inside enough c = absurd (omega arith)
    After-write_loop at (suc r) (suc fuel) buf s inside enough c =
        let R = Same kind home {A = Unit {0}} in
        let F = E kind home in
        let k : ℕ = chunk at (suc r) in
        let rest = write_loop g (at + k) (drop k buf) (suc r - k) fuel in
        let lba : ℕ = g.ptrs (at / 4096) in
        let filled = λ (l : ℕ) (b : Block). write_block l (patch b (at % 4096) buf k) >> rest in
        let loaded = λ (l : ℕ). old_block at k l >>= filled l in
        let owned = owns (at / 4096) (omega arith) in
        let is_owned : kind lba ≢ unowned =
          λ z. let clash : file_data x (at / 4096) ≡ unowned = sym owned ∙ z in cc in
        let (from, to) = c.in_range lba is_owned in
        After-same R F _ _
          (lift-to (ptr_at g (at / 4096)) loaded s lba (rw (lt→ltb (at / 4096) 1019 (omega arith))))
          (After-bind (Same kind home) F R (filled lba) (old_block at k lba) s
            (After-old_block at k lba s c (omega (arith, c.covered)))
            (λ b t c'.
              After-bind R F R (λ _. rest) (write_block lba (patch b (at % 4096) buf k)) t
                (After-write_block lba (patch b (at % 4096) buf k) R F t (omega arith)
                  (omega (arith, c.covered)) c'
                  (λ good.
                    frame-put kind home t lba (patch b (at % 4096) buf k) c' (λ m. rw owned at m)))
                (λ _ u c''.
                  After-write_loop (at + k) (suc r - k) fuel (drop k buf) u (omega arith)
                    (omega arith) c'')))
