-- ===== src/Layout/Released.antt =====
-- The loop that clears the bits of a file's blocks, where none of them has an owner any more.
use cs5600_project_3_file_sy.Common.{
  ℕ, zero, suc, ◌+◌, ◌/◌, ◌≤◌, ◌<◌, ◌≡◌, ◌≢◌, sym, ap, ◌∙◌, Bool-cases, inl, inr, arith, ◌==◌,
  lt→ltb,
}
use cs5600_project_3_file_sy.Outcome.{ok}
use cs5600_project_3_file_sy.Format.{Inode}
use cs5600_project_3_file_sy.Dir.{ptr_at}
use cs5600_project_3_file_sy.Remove.{release, release_blocks, file_blocks}
use cs5600_project_3_file_sy.State.{State, ◌>>◌, clear_bit}
use cs5600_project_3_file_sy.State.After.{After, After-bind, After-same}
use cs5600_project_3_file_sy.State.Runs.{lift-to}
use cs5600_project_3_file_sy.Layout.{
  Kind, unowned, file_data, IsInodeKind, IsFileInode, IsConsistent,
}
use cs5600_project_3_file_sy.Layout.Owners.{given_ne, gone, inode_ne}
use cs5600_project_3_file_sy.Layout.Disowned.{shed, gone_file_data}

-- The first `rounds` blocks of an inode have no owner, and a bit in the bitmap.
abbrev pub AreFree : (ℕ → Kind) → Inode → ℕ → Type 0
AreFree kind n rounds = (j : ℕ) → j < rounds → (kind (n.ptrs j) ≡ unowned) × (n.ptrs j < 32768)

pub file_blocks_is :
    (kind : ℕ → Kind) (n : Inode) (x : ℕ) (h : IsFileInode kind n x)
    → file_blocks n.size ≡ (h.size + 4095) / 4096
unfolding file_blocks
file_blocks_is kind n x h = ap file_blocks h.size_is

pub shed-AreFree :
    (kind : ℕ → Kind) (home : ℕ → ℕ × ℕ) (s : State) (x : ℕ) (q : Kind) (n : Inode)
    (c : IsConsistent kind home s)
    → IsInodeKind (kind x)
    → (h : IsFileInode kind n x) → AreFree (shed kind x q) n ((h.size + 4095) / 4096)
shed-AreFree kind home s x q n c inode h j l =
    let owned = h.owns j l in
    let ne : n.ptrs j ≢ x = inode_ne kind (n.ptrs j) x (file_data x j) owned (λ z. z) inode in
    let is_owned : kind (n.ptrs j) ≢ unowned =
      λ u. let clash : file_data x j ≡ unowned = sym owned ∙ u in cc in
    (
      given_ne (λ k. gone x (kind k)) x (n.ptrs j) q ne ∙ ap (gone x) owned ∙ gone_file_data x j,
      omega (arith, c.covered, (c.in_range (n.ptrs j) is_owned).1),
    )

module _ (kind : ℕ → Kind) (P F : State → Type 0)
    (frees : (t : State) (p : ℕ)
      → P t
      → kind p ≡ unowned
      → p < 32768
      → After (λ (_ : Unit {0}) u. P u) F (clear_bit p t)) where
  After-release :
      (t : State) (p : ℕ)
      → P t
      → kind p ≡ unowned
      → p < 32768
      → After (λ (_ : Unit {0}) u. P u) F (release p t)
  After-release t p h free small = elim (Bool-cases (p == 0)) [
    | inl e ↦ rw e h
    | inr e ↦ rw e (frees t p h free small)
  ]

  pub After-release_blocks :
      (n : Inode) (i rounds : ℕ) (t : State)
      → i + rounds ≤ 1019
      → AreFree kind n (i + rounds)
      → P t
      → After (λ (_ : Unit {0}) u. P u) F (release_blocks n i rounds t)
  unfolding release_blocks ptr_at
  After-release_blocks n i zero t few free h = h
  After-release_blocks n i (suc rounds) t few free h =
      let R = λ (_ : Unit {0}) (u : State). P u in
      let rest = release_blocks n (i + 1) rounds in
      let at : ptr_at n i ≡ ok (n.ptrs i) = rw (lt→ltb i 1019 (omega arith)) in
      let (un, small) = free i (omega arith) in
      After-same R F _ _ (lift-to (ptr_at n i) (λ p. release p >> rest) t (n.ptrs i) at) (
        After-bind R F R (λ _. rest) (release (n.ptrs i)) t (After-release t (n.ptrs i) h un small)
          (λ _ u h'.
            After-release_blocks n (i + 1) rounds u (omega arith) (λ j l. free j (omega arith)) h'))
