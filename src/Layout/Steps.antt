-- ===== src/Layout/Steps.antt =====
-- The parts of the operations on a consistent image: none crashes, and each leaves the image
-- consistent, whether or not it succeeds.
use cs5600_project_3_file_sy.Common.{
  ℕ, ◌<◌, ◌≡◌, ◌≢◌, ◌⊎◌, inl, inr, refl, sym, ◌∙◌, true, false, arith,
}
use cs5600_project_3_file_sy.Outcome.{Outcome, ok}
use cs5600_project_3_file_sy.Outcome.Sound.{Sound, Sound-ok, Sound-crash}
use cs5600_project_3_file_sy.Bitmap.{has_bit}
use cs5600_project_3_file_sy.State.{State, M, ◌>>=◌, reads, save_bitmap}
use cs5600_project_3_file_sy.State.After.{
  After, After-bind, After-weaken, After-reads, After-save_bitmap,
}
use cs5600_project_3_file_sy.Layout.{
  Kind, unowned, file_inode, dir_inode, dir_data, file_data, IsMeta, IsConsistent, Consistent,
}
use cs5600_project_3_file_sy.Layout.Frame.{frame-put}

-- A part of an operation does not crash here, and leaves the image consistent.
abbrev pub Stays : {A : Type 0} → M A → State → Type 0
Stays m s = After (λ _ t. Consistent t) Consistent (m s)

pub kind_owned : (q : Kind) → (q ≡ unowned) ⊎ (q ≢ unowned)
kind_owned unowned = inl refl
kind_owned file_inode = inr (λ e. cc)
kind_owned (dir_inode d) = inr (λ e. cc)
kind_owned (dir_data i) = inr (λ e. cc)
kind_owned (file_data i j) = inr (λ e. cc)

module _ {A : Type 0} (E : State → Type 0) (R : A → State → Type 0) where
  pub After-Sound :
      {B : Type 0} (Q : B → Type 0) (g : State → Outcome B) (f : B → M A) (s : State)
      → Sound Q (g s)
      → E s
      → ((b : B) → Q b → g s ≡ ok b → After R E (f b s))
      → After R E ((reads g >>= f) s)
  After-Sound Q g f s sound fails goes =
      After-reads E R f s g (Sound-crash Q (g s) sound) fails
        (λ b e. goes b (Sound-ok Q (g s) b sound e) e)

module _ (kind : ℕ → Kind) (home : ℕ → ℕ × ℕ) where
  abbrev pub E : State → Type 0
  E = IsConsistent kind home

  abbrev pub Same : {A : Type 0} → A → State → Type 0
  Same a t = IsConsistent kind home t

  pub Consistent_intro : (t : State) → IsConsistent kind home t → Consistent t
  Consistent_intro t c = (kind, home, c)

  pub not_meta-unowned : (k : ℕ) → kind k ≡ unowned → IsMeta (kind k) → ⊥
  not_meta-unowned k e m = rw e at m

  pub low_unowned : (s : State) → IsConsistent kind home s → (k : ℕ) → k < 2 → kind k ≡ unowned
  low_unowned s c k l = elim (kind_owned (kind k)) [
    | inl e ↦ e
    | inr ne ↦ absurd (omega (arith, (c.in_range k ne).0))
  ]

  pub unmarked-unowned :
      (s : State) (c : IsConsistent kind home s) (k : ℕ)
      → has_bit c.map k ≡ false
      → kind k ≡ unowned
  unmarked-unowned s c k f = elim (kind_owned (kind k)) [
    | inl e ↦ e
    | inr ne ↦ let clash : true ≡ false = sym (c.marked k ne) ∙ f in cc
  ]

  pub kept-Stays : {A : Type 0} (m : M A) (s : State) → After Same E (m s) → Stays m s
  kept-Stays m s h =
      After-weaken Same (λ _ t. Consistent t) E Consistent (m s) h (λ a t c. Consistent_intro t c)
        Consistent_intro

  -- A part that keeps the owners, and what follows.
  pub After-kept :
      {A B : Type 0} (Q : A → State → Type 0) (f : A → M B) (m : M A) (s : State)
      → After Q E (m s)
      → ((a : A) (t : State) → Q a t → Stays (f a) t)
      → Stays (m >>= f) s
  After-kept Q f m s h k =
      After-bind Q Consistent (λ _ t. Consistent t) f m s
        (After-weaken Q Q E Consistent (m s) h (λ a t q. q) Consistent_intro) k

  pub After-save : (s : State) → E s → After Same E (save_bitmap s)
  After-save s c =
      After-save_bitmap c.map Same E s c.loaded c
        (frame-put kind home s 1 c.map c (not_meta-unowned 1 (low_unowned s c 1 (omega arith))))
