-- ===== src/Layout/Taken.antt =====
-- A block is taken on a consistent image.
use cs5600_project_3_file_sy.Common.{
  ℕ, ◌≤◌, ◌<◌, ◌≡◌, inl, inr, refl, ap, ◌∙◌, true, false, not, some, arith, ◌==◌, ==_refl,
}
use cs5600_project_3_file_sy.Outcome.{ok, enospc}
use cs5600_project_3_file_sy.Disk.{Block}
use cs5600_project_3_file_sy.Bitmap.{has_bit, with_bit, first_free}
use cs5600_project_3_file_sy.Bitmap.Bits.{has_bit-with_bit}
use cs5600_project_3_file_sy.Bitmap.Free.{first_free_lem}
use cs5600_project_3_file_sy.Create.{take_block}
use cs5600_project_3_file_sy.State.{
  State, M, ◌>>=◌, ◌>>◌, reads, lift, require, set_bit, save_bitmap,
}
use cs5600_project_3_file_sy.State.After.{
  After, After-bind, After-reads, After-require, After-set_bit, After-save_bitmap,
}
use cs5600_project_3_file_sy.Layout.{Kind, unowned, IsConsistent}
use cs5600_project_3_file_sy.Layout.Frame.{frame-put, frame-with_bit}
use cs5600_project_3_file_sy.Layout.Steps.{E, not_meta-unowned, low_unowned, unmarked-unowned}

-- A block that was taken and has no owner yet.
pub record IsTaken (kind : ℕ → Kind) (home : ℕ → ℕ × ℕ) (t : State) (x : ℕ) : Type 0 where
  pub consistent : IsConsistent kind home t
  pub free : kind x ≡ unowned
  pub from : 2 ≤ x
  pub to : x < t.super.disk_size
  pub bit : (m : Block) → t.bitmap ≡ some m → has_bit m x ≡ true

module _ (kind : ℕ → Kind) (home : ℕ → ℕ × ℕ) where
  -- The bit of a free block is set.
  pub IsTaken-intro :
      (s : State) (c : (E kind home) s) (x : ℕ)
      → 2 ≤ x
      → x < s.super.disk_size
      → kind x ≡ unowned
      → IsTaken kind home (record s { bitmap = some (with_bit c.map x) }) x
  IsTaken-intro s c x from to free =
      let d = frame-with_bit kind home s x c.map c c.loaded in
      record {
        consistent = d;
        free = free;
        from = from;
        to = to;
        bit = λ m e.
            let same : with_bit c.map x ≡ m = cc e in
            rw (← same) (has_bit-with_bit c.map x x ∙ rw (==_refl x) refl);
      }

  -- The bitmap is saved after a block was taken.
  pub After-save-IsTaken :
      (s : State) (x : ℕ)
      → IsTaken kind home s x
      → After (λ (_ : Unit {0}) t. IsTaken kind home t x) (E kind home) (save_bitmap s)
  After-save-IsTaken s x h =
      let c = h.consistent in
      After-save_bitmap c.map (λ (_ : Unit {0}) t. IsTaken kind home t x) (E kind home) s c.loaded c
        (record {
          consistent =
              frame-put kind home s 1 c.map c
                (not_meta-unowned kind home 1 (low_unowned kind home s c 1 (omega arith)));
          free = h.free;
          from = h.from;
          to = h.to;
          bit = h.bit;
        })

  -- The search for a free block and the test that follows it.
  pub After-first_free :
      {A : Type 0} (F : State → Type 0) (R : A → State → Type 0) (f : ℕ → M A) (s : State)
      (c : (E kind home) s)
      → F s
      → ((x : ℕ) → 2 ≤ x → x < s.super.disk_size → kind x ≡ unowned → After R F (f x s))
      → After R F (
          (reads (λ s. first_free s.bitmap s.super.disk_size) >>= λ x.
          require (not (x == 0)) enospc >> f x)
            s)
  After-first_free F R f s c fails goes =
      let (r, found, first) = first_free_lem c.map s.super.disk_size c.covered in
      let search : first_free s.bitmap s.super.disk_size ≡ ok r =
        ap (λ m. first_free m s.super.disk_size) c.loaded ∙ found in
      let guarded = λ (x : ℕ). require (not (x == 0)) enospc >> f x in
      After-reads F R guarded s (λ s. first_free s.bitmap s.super.disk_size) (λ e. cc (e, search))
        fails
        (λ x e. After-require F R (not (x == 0)) enospc (f x) s fails (λ nz.
          let same : x ≡ r = cc (e, search) in
          let (from, to, clear) : (2 ≤ x) × (x < s.super.disk_size) × (has_bit c.map x ≡ false) =
            rw same (elim first [
              | inl (z, all) ↦ absurd (ground (arith, z, same, nz))
              | inr (l, m, f, all) ↦ (l, m, f)
            ]) in
          goes x from to (unmarked-unowned kind home s c x clear)))

  -- The bit of a block with no owner is set.
  pub After-set-IsTaken :
      (F : State → Type 0) (s : State) (c : (E kind home) s) (x : ℕ)
      → 2 ≤ x
      → x < s.super.disk_size
      → kind x ≡ unowned
      → After (λ (_ : Unit {0}) t. IsTaken kind home t x) F (set_bit x s)
  After-set-IsTaken F s c x from to free =
      After-set_bit x c.map (λ (_ : Unit {0}) t. IsTaken kind home t x) F s c.loaded
        (omega (arith, c.covered)) (IsTaken-intro s c x from to free)

  pub After-take_block :
      (s : State)
      → (E kind home) s
      → After (λ x t. IsTaken kind home t x) (E kind home) (take_block s)
  unfolding take_block
  After-take_block s c =
      let Q = λ (x : ℕ) (t : State). IsTaken kind home t x in
      let marked = λ (x : ℕ). set_bit x >> (save_bitmap >> lift (ok x)) in
      After-first_free (E kind home) Q marked s c c (λ x from to free.
        let T = λ (_ : Unit {0}) (t : State). IsTaken kind home t x in
        After-bind T (E kind home) Q (λ _. save_bitmap >> lift (ok x)) (set_bit x) s
          (After-set-IsTaken (E kind home) s c x from to free)
          (λ _ t h.
            After-bind T (E kind home) Q (λ _. lift (ok x)) save_bitmap t (After-save-IsTaken t x h)
              (λ _ u k. k)))
