-- ===== src/Create/Two.antt =====
-- The two blocks that fs_mkdir takes.
use cs5600_project_3_file_sy.Common.{
  ℕ, ◌+◌, ◌≤◌, ◌<◌, ◌≡◌, inl, inr, refl, sym, ap, ◌∙◌, arith, true, false, not, ◌||◌, some, ◌==◌,
  dec_lt,
}
use cs5600_project_3_file_sy.Outcome.{ok, enospc}
use cs5600_project_3_file_sy.Disk.{Block}
use cs5600_project_3_file_sy.Bitmap.{has_bit, with_bit, two_free}
use cs5600_project_3_file_sy.Bitmap.Free.{two_free_lem}
use cs5600_project_3_file_sy.State.{State, ◌>>◌, require, lift, set_bit, save_bitmap}
use cs5600_project_3_file_sy.State.Runs.{
  bind-to, set_bit-to, reads-to, require-to, put, IsWritable, save_bitmap-to,
}
use cs5600_project_3_file_sy.Create.{take_two}

after_first :
    (map : Block) (a f g : ℕ)
    → 2 ≤ f
    → f < g
    → ((j : ℕ) → 2 ≤ j → j < a → has_bit map j ≡ true)
    → has_bit map f ≡ false
    → a + 1 ≤ g
after_first map a f g l m all free_f = elim (dec_lt f a) [
  | yes q ↦ let clash : true ≡ false = sym (all f l q) ∙ free_f in cc
  | no q ↦ omega arith
]

-- Two free blocks of the disk are enough for the search to find two.
pub finds_two :
    (map : Block) (disk_size f g : ℕ)
    → disk_size ≤ 32768
    → 2 ≤ f
    → f < g
    → g < disk_size
    → has_bit map f ≡ false
    → has_bit map g ≡ false
    → (a b : ℕ) × (two_free (some map) disk_size ≡ ok (a, b))
      × (2 ≤ a)
      × (a < b)
      × (b < disk_size)
      × (has_bit map a ≡ false)
      × (has_bit map b ≡ false)
finds_two map disk_size f g d l m n free_f free_g =
    let (a, b, e, r) = two_free_lem map disk_size d in
    elim r.one [
      | inl (z, all) ↦ let clash : true ≡ false = sym (all f l (omega arith)) ∙ free_f in cc
      | inr (from, to, clear, all) ↦ elim (r.two (omega arith)) [
        | inl (z, none_left) ↦
            let clash : true ≡ false =
              sym (none_left g (after_first map a f g l m all free_f) n) ∙ free_g in
            cc
        | inr (from', to', clear', all') ↦ (a, b, e, from, omega arith, to', clear, clear')
      ]
    ]

pub takes_two :
    (s : State) (map : Block) (a b : ℕ)
    → s.bitmap ≡ some map
    → two_free (some map) s.super.disk_size ≡ ok (a, b)
    → 0 < a
    → 0 < b
    → a < 32768
    → b < 32768
    → IsWritable s.dev 1
    → take_two s ≡ (
      ok (a, b),
      record s {
        dev = put s.dev 1 (with_bit (with_bit map a) b);
        bitmap = some (with_bit (with_bit map a) b);
      },
    )
unfolding take_two
takes_two s map a b e found pa pb sa sb w =
    let one : State = record s { bitmap = some (with_bit map a) } in
    let two : State = record s { bitmap = some (with_bit (with_bit map a) b) } in
    let finish = λ (r : ℕ × ℕ). save_bitmap >> lift (ok r) in
    let mark_two = λ (r : ℕ × ℕ). set_bit r.1 >> finish r in
    let mark = λ (r : ℕ × ℕ). set_bit r.0 >> mark_two r in
    let last : State = record two { dev = put s.dev 1 (with_bit (with_bit map a) b) } in
    reads-to (λ u. two_free u.bitmap u.super.disk_size)
      (λ r. require (not (r.0 == 0 || r.1 == 0)) enospc >> mark r) s (a, b)
      (ap (λ m. two_free m s.super.disk_size) e ∙ found)
    ∙ require-to (not (a == 0 || b == 0)) enospc (mark (a, b)) s (ground arith)
    ∙ bind-to (set_bit a) (λ _. mark_two (a, b)) s one tt (set_bit-to a map s e sa)
    ∙ bind-to (set_bit b) (λ _. finish (a, b)) one two tt
        (set_bit-to b (with_bit map a) one refl sb)
    ∙ bind-to save_bitmap (λ _. lift (ok (a, b))) two last tt
        (save_bitmap-to (with_bit (with_bit map a) b) two refl w)
