-- ===== src/Layout/Two.antt =====
-- The two blocks that fs_mkdir takes.
use cs5600_project_3_file_sy.Common.{
  ℕ, ◌+◌, ◌≤◌, ◌<◌, ◌≡◌, ◌≢◌, inl, inr, refl, ap, ◌∙◌, false, not, some, arith, ◌==◌, ◌||◌,
}
use cs5600_project_3_file_sy.Outcome.{ok, enospc}
use cs5600_project_3_file_sy.Disk.{Block}
use cs5600_project_3_file_sy.Bitmap.{has_bit, with_bit, two_free}
use cs5600_project_3_file_sy.Bitmap.Bits.{has_bit-with_bit}
use cs5600_project_3_file_sy.Bitmap.Free.{IsFirstFree, two_free_lem}
use cs5600_project_3_file_sy.Create.{take_two}
use cs5600_project_3_file_sy.State.{State, ◌>>◌, lift, require, set_bit, save_bitmap}
use cs5600_project_3_file_sy.State.After.{
  After, After-bind, After-reads, After-require, After-set_bit, After-save_bitmap,
}
use cs5600_project_3_file_sy.Layout.{Kind, IsConsistent}
use cs5600_project_3_file_sy.Layout.Frame.{frame-with_bit}
use cs5600_project_3_file_sy.Layout.Linked.{put-IsTaken}
use cs5600_project_3_file_sy.Layout.Taken.{IsTaken, IsTaken-intro}
use cs5600_project_3_file_sy.Layout.Steps.{unmarked-unowned, low_unowned}

-- Two blocks that were taken.
pub record AreTaken (kind : ℕ → Kind) (home : ℕ → ℕ × ℕ) (t : State) (x y : ℕ) : Type 0 where
  pub one : IsTaken kind home t x
  pub two : IsTaken kind home t y
  pub different : y ≢ x

free_at :
    (map : Block) (lo hi x : ℕ)
    → x ≢ 0
    → IsFirstFree map lo hi x
    → (lo ≤ x) × (x < hi) × (has_bit map x ≡ false)
free_at map lo hi x ne (inl (z, all)) = absurd (ne z)
free_at map lo hi x ne (inr (l, m, f, all)) = (l, m, f)

module _ (kind : ℕ → Kind) (home : ℕ → ℕ × ℕ) where
  -- Another bit is set.
  with_bit-IsTaken :
      (s : State) (x y : ℕ) (map : Block)
      → IsTaken kind home s x
      → s.bitmap ≡ some map
      → IsTaken kind home (record s { bitmap = some (with_bit map y) }) x
  with_bit-IsTaken s x y map h e = record {
    consistent = frame-with_bit kind home s y map h.consistent e;
    free = h.free;
    from = h.from;
    to = h.to;
    bit = λ m f.
        let same : with_bit map y ≡ m = cc f in
        rw (← same) (has_bit-with_bit map y x ∙ rw (h.bit map e) (ground arith));
  }

  After-save_two :
      (s : State) (x y : ℕ)
      → AreTaken kind home s x y
      → After
          (λ (_ : Unit {0}) t. AreTaken kind home t x y)
          (IsConsistent kind home)
          (save_bitmap s)
  After-save_two s x y h =
      let c = h.one.consistent in
      let free = low_unowned kind home s c 1 (omega arith) in
      After-save_bitmap c.map (λ (_ : Unit {0}) t. AreTaken kind home t x y)
        (IsConsistent kind home) s c.loaded c
        (record {
          one = put-IsTaken kind home s x 1 c.map h.one free;
          two = put-IsTaken kind home s y 1 c.map h.two free;
          different = h.different;
        })

  -- Both bits are set, and saved.
  After-set_two :
      (s : State) (c : IsConsistent kind home s) (x y : ℕ)
      → (2 ≤ x) × (x < s.super.disk_size) × (has_bit c.map x ≡ false)
      → (x + 1 ≤ y) × (y < s.super.disk_size) × (has_bit c.map y ≡ false)
      → After
          (λ (p : ℕ × ℕ) t. AreTaken kind home t p.0 p.1)
          (IsConsistent kind home)
          ((set_bit x >> (set_bit y >> (save_bitmap >> lift (ok (x, y))))) s)
  After-set_two s c x y (l, m, f) (l', m', f') =
      let E = IsConsistent kind home in
      let R = λ (p : ℕ × ℕ) (t : State). AreTaken kind home t p.0 p.1 in
      let Q = λ (_ : Unit {0}) (t : State). IsTaken kind home t x × (t.super ≡ s.super) in
      let Q' = λ (_ : Unit {0}) (t : State). AreTaken kind home t x y in
      let first = IsTaken-intro kind home s c x l m (unmarked-unowned kind home s c x f) in
      let free = unmarked-unowned kind home s c y f' in
      let saved = save_bitmap >> lift (ok (x, y)) in
      After-bind Q E R (λ _. set_bit y >> saved) (set_bit x) s
        (After-set_bit x c.map Q E s c.loaded (omega (arith, c.covered)) (first, refl))
        (λ _ t (h, same).
          let c' = h.consistent in
          After-bind Q' E R (λ _. saved) (set_bit y) t
            (After-set_bit y c'.map Q' E t c'.loaded (omega (arith, c.covered)) (record {
              one = with_bit-IsTaken t x y c'.map h c'.loaded;
              two = IsTaken-intro kind home t c' y (omega arith) (rw same m') free;
              different = omega arith;
            }))
            (λ _ u h'.
              After-bind Q' E R (λ _. lift (ok (x, y))) save_bitmap u (After-save_two u x y h')
                (λ _ v k. k)))

  pub After-take_two :
      (s : State)
      → IsConsistent kind home s
      → After (λ (p : ℕ × ℕ) t. AreTaken kind home t p.0 p.1) (IsConsistent kind home) (take_two s)
  unfolding take_two
  After-take_two s c =
      let E = IsConsistent kind home in
      let R = λ (p : ℕ × ℕ) (t : State). AreTaken kind home t p.0 p.1 in
      let marked =
        λ (p : ℕ × ℕ). set_bit p.0 >> (set_bit p.1 >> (save_bitmap >> lift (ok (p.0, p.1)))) in
      let guarded = λ (p : ℕ × ℕ). require (not (p.0 == 0 || p.1 == 0)) enospc >> marked p in
      let (a, b, found, first) = two_free_lem c.map s.super.disk_size c.covered in
      let search : two_free s.bitmap s.super.disk_size ≡ ok (a, b) =
        ap (λ m. two_free m s.super.disk_size) c.loaded ∙ found in
      After-reads E R guarded s (λ s. two_free s.bitmap s.super.disk_size) (λ e. cc (e, search)) c
        (λ (x, y) e. After-require E R (not (x == 0 || y == 0)) enospc (marked (x, y)) s c (λ nz.
          let same : x ≡ a = cc (e, search) in
          let same' : y ≡ b = cc (e, search) in
          let nx : a ≢ 0 = rw (← same) (λ z. ground (arith, z, nz)) in
          let ny : b ≢ 0 = rw (← same') (λ z. ground (arith, z, nz)) in
          After-set_two s c x y (rw same (free_at c.map 2 s.super.disk_size a nx first.one))
            (rw (same, same') (free_at c.map (a + 1) s.super.disk_size b ny (first.two nx)))))
