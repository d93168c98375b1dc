-- ===== src/Remove/Blocks.antt =====
-- The loop that gives back the blocks of a file.
use cs5600_project_3_file_sy.Common.{
  ℕ, zero, suc, ◌+◌, ◌≤◌, ◌<◌, ◌≡◌, inl, inr, refl, ap, ◌∙◌, Bool, Bool-cases, false, not, ◌&&◌,
  ◌||◌, some, arith, ◌==◌, lt→ltb,
}
use cs5600_project_3_file_sy.Outcome.{ok}
use cs5600_project_3_file_sy.Disk.{Block}
use cs5600_project_3_file_sy.Bitmap.{has_bit, without_bit}
use cs5600_project_3_file_sy.Bitmap.Bits.{has_bit-without_bit}
use cs5600_project_3_file_sy.Format.{Inode}
use cs5600_project_3_file_sy.Dir.{ptr_at}
use cs5600_project_3_file_sy.State.{State, ◌>>◌}
use cs5600_project_3_file_sy.State.Runs.{bind-to, lift-to, clear_bit-to}
use cs5600_project_3_file_sy.Remove.{release, release_blocks}

-- Block `k` is one of the `n` that an inode names from item `i` on; 0 names none.
abbrev pub owns : Inode → ℕ → ℕ → ℕ → Bool
owns n i zero k = false
owns n i (suc r) k = not (n.ptrs i == 0) && n.ptrs i == k || owns n (i + 1) r k

-- One round: a map with the block's bit clear.
release-to :
    (p : ℕ) (map : Block) (s : State)
    → s.bitmap ≡ some map
    → p < 32768
    → (map' : Block) × (release p s ≡ (ok tt, record s { bitmap = some map' }))
      × ((k : ℕ) → has_bit map' k ≡ (not (not (p == 0) && p == k) && has_bit map k))
release-to p map s b small = elim (Bool-cases (p == 0)) [
  | inl e ↦ (map, rw e (ap (λ m. (ok tt, record s { bitmap = m })) b), λ k. rw e)
  | inr e ↦ (
    without_bit map p,
    rw e (clear_bit-to p map s b small),
    λ k. rw e (has_bit-without_bit map p k),
  )
]

-- Where every block number has a bit, the loop clears the bits of the file's blocks and no other.
pub release_blocks-to :
    (n : Inode) (i r : ℕ) (map : Block) (s : State)
    → s.bitmap ≡ some map
    → i + r ≤ 1019
    → ((j : ℕ) → i ≤ j → j < i + r → n.ptrs j < 32768)
    → (map' : Block) × (release_blocks n i r s ≡ (ok tt, record s { bitmap = some map' }))
      × ((k : ℕ) → has_bit map' k ≡ (not (owns n i r k) && has_bit map k))
unfolding release_blocks ptr_at
release_blocks-to n i zero map s b fits small =
    (map, ap (λ m. (ok tt, record s { bitmap = m })) b, λ k. refl)
release_blocks-to n i (suc r) map s b fits small =
    let (map1, first, bits1) =
      release-to (n.ptrs i) map s b (small i (omega arith) (omega arith)) in
    let u : State = record s { bitmap = some map1 } in
    let (map2, later, bits2) =
      release_blocks-to n (i + 1) r map1 u refl (omega arith)
        (λ j l m. small j (omega arith) (omega arith)) in
    let rest = release_blocks n (i + 1) r in
    (
      map2,
      lift-to (ptr_at n i) (λ p. release p >> rest) s (n.ptrs i) (rw (lt→ltb i 1019 (omega arith)))
          ∙ bind-to (release (n.ptrs i)) (λ _. rest) s u tt first
          ∙ later,
      λ k. bits2 k ∙ rw (bits1 k) (ground arith),
    )
