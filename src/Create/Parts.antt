-- ===== src/Create/Parts.antt =====
-- The parts of fs_create and fs_mkdir, taken apart where the whole succeeds.
use cs5600_project_3_file_sy.Common.{
  ℕ, ◌≡◌, ◌≢◌, refl, sym, ap, ◌∙◌, arith, true, not, Option, none, some, ◌==◌,
}
use cs5600_project_3_file_sy.Outcome.{Outcome, ok, err, crash, Errno, eexist, enospc}
use cs5600_project_3_file_sy.Disk.{Block, Device, block_write}
use cs5600_project_3_file_sy.Bitmap.{first_free, with_bit}
use cs5600_project_3_file_sy.Format.{Inode, set_entry}
use cs5600_project_3_file_sy.Path.{Name}
use cs5600_project_3_file_sy.Dir.{Hit, find_in_dir, is_named, is_unused}
use cs5600_project_3_file_sy.State.{
  State, M, ◌>>=◌, ◌>>◌, reads, lift, require, on_error, ignore, write_block, put_device, set_bit,
  save_bitmap,
}
use cs5600_project_3_file_sy.State.Steps.{
  next, reads-then, require-then, set_bit-then, save_bitmap-then, write_block-ok,
}
use cs5600_project_3_file_sy.Create.{
  is_none, require_absent, write_entry, add_entry, take_block, write_or_undo,
}

is_none→none : (o : Option Hit) → is_none o ≡ true → o ≡ none
is_none→none none h = refl
is_none→none (some x) h = cc

module _ {B : Type 0} {b : B} {t : State} where
  absent-then :
      (r : Outcome (Option Hit)) (k : M B) (s : State)
      → ((lift r >>= λ hit. require (is_none hit) eexist) >> k) s ≡ (ok b, t)
      → (r ≡ ok none) × (k s ≡ (ok b, t))
  absent-then (ok none) k s h = (refl, h)
  absent-then (ok (some x)) k s h = cc
  absent-then (err e) k s h = cc
  absent-then crash k s h = cc

  pub require_absent-then :
      (parent : Inode) (name : Name) (k : M B) (s : State)
      → (require_absent parent name >> k) s ≡ (ok b, t)
      → (find_in_dir (is_named name) s.dev parent ≡ ok none) × (k s ≡ (ok b, t))
  unfolding require_absent
  require_absent-then parent name k s h =
      absent-then (find_in_dir (is_named name) s.dev parent) k s h

  -- What follows an error is not reached.
  never :
      (e : Errno) (k : M B) (p : Outcome (Unit {0}) × State)
      → next {A = Unit {0}} (λ _. k) (next {A = Unit {0}} (λ _. lift (err e)) p) ≢ (ok b, t)
  never e k (ok a, u) h = cc
  never e k (err x, u) h = cc
  never e k (crash, u) h = cc

  undo-then :
      (r : Outcome Device) (undo : M (Unit {0})) (k : M B) (s : State)
      → (on_error (λ s. put_device s r) undo >> k) s ≡ (ok b, t)
      → (d : Device) × (r ≡ ok d) × (k (record s { dev = d }) ≡ (ok b, t))
  undo-then (ok d) undo k s h = (d, refl, h)
  undo-then (err e) undo k s h = absurd (never e k (undo s) h)
  undo-then crash undo k s h = cc

  pub write_or_undo-then :
      (lba : ℕ) (c : Block) (undo : M (Unit {0})) (k : M B) (s : State)
      → (write_or_undo lba c undo >> k) s ≡ (ok b, t)
      → (d : Device) × (block_write s.dev lba c ≡ ok d) × (k (record s { dev = d }) ≡ (ok b, t))
  unfolding write_or_undo write_block
  write_or_undo-then lba c undo k s h =
      undo-then (block_write s.dev lba c) (undo >> ignore save_bitmap) k s h

assoc :
    {A B C : Type 0} (m : M A) (g : A → M B) (f : B → M C) (s : State)
    → (m >>= λ a. g a >>= f) s ≡ ((m >>= g) >>= f) s
assoc {A} m g f s = assoc_from (m s)
  where
    assoc_from : (p : Outcome A × State) → next (λ a. g a >>= f) p ≡ next f (next g p)
    assoc_from (ok a, u) = refl
    assoc_from (err e, u) = refl
    assoc_from (crash, u) = refl

-- The state after a block was taken.
abbrev pub taken : State → Block → ℕ → Device → State
taken s map i d = record s { dev = d; bitmap = some (with_bit map i) }

pub take_block-then :
    {B : Type 0} {b : B} {t : State} (map : Block) (f : ℕ → M B) (s : State)
    → s.bitmap ≡ some map
    → (take_block >>= f) s ≡ (ok b, t)
    → (i : ℕ) × (d : Device) × (first_free (some map) s.super.disk_size ≡ ok i)
      × (i ≢ 0)
      × (block_write s.dev 1 (with_bit map i) ≡ ok d)
      × (f i (taken s map i d) ≡ (ok b, t))
unfolding take_block
take_block-then map f s e h =
    let done = λ (i : ℕ). let m : M ℕ = lift (ok i) in m in
    let saved = λ (i : ℕ). save_bitmap >> done i in
    let marked = λ (i : ℕ). set_bit i >> saved i in
    let guarded = λ (i : ℕ). require (not (i == 0)) enospc >> marked i in
    let search = λ (s : State). first_free s.bitmap s.super.disk_size in
    let (i, found, h1) =
      reads-then search (λ i. guarded i >>= f) s (assoc (reads search) guarded f s ∙ h) in
    let (z, h2) =
      require-then (not (i == 0)) enospc (marked i >>= f) s
        (assoc (require (not (i == 0)) enospc) (λ _. marked i) f s ∙ h1) in
    let (l, h3) =
      set_bit-then i map (saved i >>= f) s e (assoc (set_bit i) (λ _. saved i) f s ∙ h2) in
    let marked_state : State = record s { bitmap = some (with_bit map i) } in
    let (d, w, h4) =
      save_bitmap-then (with_bit map i) (done i >>= f) marked_state refl
        (assoc save_bitmap (λ _. done i) f marked_state ∙ h3) in
    (i, d, ap (λ o. first_free o s.super.disk_size) (sym e) ∙ found, ground arith, w, h4)

entry_from :
    (r : Outcome (Option Hit)) (inum : ℕ) (name : Name) (full : Errno) (s t : State)
    → (lift r >>= write_entry inum name full) s ≡ (ok tt, t)
    → (h : Hit) × (d : Device) × (r ≡ ok (some h))
      × (block_write s.dev h.lba (set_entry h.block h.slot inum name) ≡ ok d)
      × (t ≡ record s { dev = d })
entry_from (ok none) inum name full s t h = cc
entry_from (ok (some x)) inum name full s t h =
    let (d, e, f) = write_block-ok x.lba (set_entry x.block x.slot inum name) s t h in
    (x, d, refl, e, f)
entry_from (err e) inum name full s t h = cc
entry_from crash inum name full s t h = cc

pub add_entry-ok :
    (parent : Inode) (name : Name) (inum : ℕ) (full : Errno) (s t : State)
    → add_entry parent name inum full s ≡ (ok tt, t)
    → (h : Hit) × (d : Device) × (find_in_dir is_unused s.dev parent ≡ ok (some h))
      × (block_write s.dev h.lba (set_entry h.block h.slot inum name) ≡ ok d)
      × (t ≡ record s { dev = d })
unfolding add_entry
add_entry-ok parent name inum full s t h =
    entry_from (find_in_dir is_unused s.dev parent) inum name full s t h
