-- ===== src/Layout/Grown.antt =====
-- The loops of fs_write on a consistent image: the blocks that the file is given, and their contents.
use cs5600_project_3_file_sy.Common.{
  ℕ, zero, suc, ◌+◌, ◌^◌, ◌≤◌, ◌<◌, ◌≡◌, sym, ap, ◌∙◌, arith, ==_ne, ==_refl, lt→ltb, ℕ_discrete,
}
use cs5600_project_3_file_sy.Format.{Inode}
use cs5600_project_3_file_sy.State.{State, ◌>>=◌, ◌>>◌, lift, set_bit}
use cs5600_project_3_file_sy.State.After.{After, After-bind, After-same}
use cs5600_project_3_file_sy.State.Runs.{lift-to}
use cs5600_project_3_file_sy.Write.{set_ptr, grow}
use cs5600_project_3_file_sy.Write.Grow.{with_ptr}
use cs5600_project_3_file_sy.Layout.{Kind, unowned, file_inode, file_data, IsConsistent, Consistent}
use cs5600_project_3_file_sy.Layout.Owners.{given, given_self, given-Extends, adopt}
use cs5600_project_3_file_sy.Layout.Taken.{IsTaken, After-first_free, After-set-IsTaken}
use cs5600_project_3_file_sy.Layout.Steps.{Consistent_intro}

-- The first `i` blocks of file `x`, as its inode `n` in memory has them, are the file's; the inode is
-- `m` with other blocks.
pub record IsGrown (home : ℕ → ℕ × ℕ) (x : ℕ) (m n : Inode) (i : ℕ) (t : State) : Type 0 where
  pub kind : ℕ → Kind
  pub consistent : IsConsistent kind home t
  pub is_file : kind x ≡ file_inode
  pub owns : (j : ℕ) → j < i → kind (n.ptrs j) ≡ file_data x j
  pub ptrs_fit : (j : ℕ) → n.ptrs j < 2 ^ 32
  pub rest_same : n ≡ record m { ptrs = n.ptrs }

module _ (home : ℕ → ℕ × ℕ) (x : ℕ) (m : Inode) where
  -- One more block.
  IsGrown-step :
      (n : Inode) (i a : ℕ) (s t : State) (h : IsGrown home x m n i s)
      → IsTaken h.kind home t a
      → IsGrown home x m (with_ptr n i a) (i + 1) t
  IsGrown-step n i a s t h taken =
      let kind' = given h.kind a (file_data x i) in
      let more = given-Extends h.kind a (file_data x i) taken.free in
      let c = taken.consistent in
      record {
        kind = kind';
        consistent =
            adopt h.kind home t a (file_data x i) c taken.free taken.from taken.to
              (taken.bit c.map c.loaded) (λ z. elim z [ ]) (λ d q. cc) (λ q. cc) (λ j k q. cc);
        is_file =
            more x (λ z. let clash : file_inode ≡ unowned = sym h.is_file ∙ z in cc) ∙ h.is_file;
        owns = λ j l. elim (ℕ_discrete j i) [
          | yes e ↦ rw (e, ==_refl i) (given_self h.kind a (file_data x i))
          | no ne ↦
              let old = h.owns j (omega arith) in
              rw (==_ne j i ne) (
                more (n.ptrs j) (λ z. let clash : file_data x j ≡ unowned = sym old ∙ z in cc)
                ∙ old)
        ];
        ptrs_fit = λ j. elim (ℕ_discrete j i) [
          | yes e ↦ rw (e, ==_refl i) (omega (arith, taken.to, c.covered))
          | no ne ↦ rw (==_ne j i ne) (h.ptrs_fit j)
        ];
        rest_same = ap (λ (k : Inode). record k { ptrs = (with_ptr n i a).ptrs }) h.rest_same;
      }

  pub After-grow :
      (n : Inode) (i r : ℕ) (s : State)
      → i + r ≤ 1019
      → IsGrown home x m n i s
      → After (λ g t. IsGrown home x m g (i + r) t) Consistent (grow n i r s)
  unfolding grow set_ptr
  After-grow n i zero s few h = let none : i + 0 ≡ i = omega arith in rw none h
  After-grow n i (suc r) s few h =
      let R = λ (g : Inode) (t : State). IsGrown home x m g (i + suc r) t in
      let next = λ (g : Inode). grow g (i + 1) r in
      let assign = λ (a : ℕ). lift (set_ptr n i a) >>= next in
      let mark = λ (a : ℕ). set_bit a >> assign a in
      After-first_free h.kind home Consistent R mark s h.consistent
        (Consistent_intro h.kind home s h.consistent)
        (λ a from to free.
          After-bind (λ (_ : Unit {0}) t. IsTaken h.kind home t a) Consistent R (λ _. assign a)
            (set_bit a) s (After-set-IsTaken h.kind home Consistent s h.consistent a from to free)
            (λ _ t taken.
              let sum : i + suc r ≡ i + 1 + r = omega arith in
              After-same R Consistent _ _
                (lift-to (set_ptr n i a) next t (with_ptr n i a) (rw (lt→ltb i 1019 (omega arith))))
                (rw sum (
                  After-grow (with_ptr n i a) (i + 1) r t (omega arith)
                    (IsGrown-step n i a s t h taken)))))
