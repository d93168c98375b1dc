-- ===== src/Layout/Linked.antt =====
-- A block that was taken is written, and an entry is made for it.
use cs5600_project_3_file_sy.Common.{
  ℕ, ◌<◌, ◌≡◌, ◌≢◌, sym, ap, ◌∙◌, Option, none, some, arith, ℕ_discrete,
}
use cs5600_project_3_file_sy.Outcome.{Outcome, Errno}
use cs5600_project_3_file_sy.Disk.{Block}
use cs5600_project_3_file_sy.Format.{Inode, set_entry}
use cs5600_project_3_file_sy.Path.{Name}
use cs5600_project_3_file_sy.Dir.{Hit, find_in_dir, is_unused}
use cs5600_project_3_file_sy.Create.{write_entry, add_entry, write_or_undo}
use cs5600_project_3_file_sy.State.{State, M, ◌>>◌, ignore, write_block, clear_bit, save_bitmap}
use cs5600_project_3_file_sy.State.After.{
  After, After-bind, After-write_block, After-clear_bit, After-on_error, After-ignore,
}
use cs5600_project_3_file_sy.State.Runs.{put}
use cs5600_project_3_file_sy.Layout.{
  Kind, unowned, dir_data, IsInodeKind, IsDirInode, IsConsistent, Consistent,
}
use cs5600_project_3_file_sy.Layout.Frame.{IsMeta-data, meta_owned, frame-put, frame-without_bit}
use cs5600_project_3_file_sy.Layout.Owners.{given, given_ne, given_self}
use cs5600_project_3_file_sy.Layout.Walk.{AllHit, Sound-find_in_dir, meta_small}
use cs5600_project_3_file_sy.Layout.Entry.{NoEntry, moved, set_entry-IsConsistent}
use cs5600_project_3_file_sy.Layout.Taken.{IsTaken}
use cs5600_project_3_file_sy.Layout.Steps.{
  Consistent_intro, not_meta-unowned, After-Sound, After-save, Stays,
}

module _ (kind : ℕ → Kind) (home : ℕ → ℕ × ℕ) where
  pub unowned-NoEntry :
      (s : State) (x : ℕ) → IsConsistent kind home s → kind x ≡ unowned → NoEntry kind s x
  unowned-NoEntry s x c e i b k owns l v q =
      let clash : IsInodeKind unowned = rw (q, e) at ((c.entries i b k owns l v).names_inode) in
      clash

  pub given-NoEntry :
      (s : State) (x y : ℕ) (q : Kind)
      → ((i : ℕ) → q ≢ dir_data i)
      → NoEntry kind s x
      → NoEntry (given kind y q) s x
  given-NoEntry s x y q other h i b k owns = elim (ℕ_discrete b y) [
    | yes e ↦
        let at : q ≡ dir_data i = sym (given_self kind y q) ∙ ap (given kind y q) (sym e) ∙ owns in
        absurd (other i at)
    | no ne ↦ h i b k (sym (given_ne kind y b q ne) ∙ owns)
  ]

  After-write_entry :
      (x i d : ℕ) (name : Name) (full : Errno) (s : State) (c : IsConsistent kind home s)
      (hit : Option Hit)
      → IsInodeKind (kind x)
      → x ≢ 2
      → NoEntry kind s x
      → x < 32768
      → kind d ≡ dir_data i
      → AllHit is_unused s d hit
      → Stays (write_entry x name full hit) s
  After-write_entry x i d name full s c none inode ne fresh small owns h =
      Consistent_intro kind home s c
  After-write_entry x i d name full s c (some hit) inode ne fresh small owns h =
      let same : ◌≡◌ {A = Outcome (Unit {0}) × State}
          (write_block hit.lba (set_entry hit.block hit.slot x name) s)
          (write_block d (set_entry (s.dev.store d) hit.slot x name) s) =
        rw (h.in_block, h.as_stored) in
      rw same (
        After-write_block d (set_entry (s.dev.store d) hit.slot x name)
          (λ (_ : Unit {0}) t. Consistent t) Consistent s
          (omega (arith, (c.in_range d (meta_owned (kind d) (IsMeta-data (kind d) i owns))).0))
          (omega (arith, meta_small kind home s c d (IsMeta-data (kind d) i owns)))
          (Consistent_intro kind home s c)
          (λ good. (
            kind,
            moved home x (d, hit.slot),
            set_entry-IsConsistent kind home s c i d owns hit.slot x name (omega arith) inode ne
                fresh,
          )))

  pub After-add_entry :
      (n : Inode) (x i d : ℕ) (name : Name) (full : Errno) (s : State)
      (c : IsConsistent kind home s)
      → IsDirInode kind n i d
      → IsInodeKind (kind x)
      → x ≢ 2
      → NoEntry kind s x
      → x < 32768
      → Stays (add_entry n name x full) s
  unfolding add_entry
  After-add_entry n x i d name full s c dir inode ne fresh small =
      After-Sound Consistent (λ (_ : Unit {0}) t. Consistent t) (AllHit is_unused s d)
        (λ s. find_in_dir is_unused s.dev n) (write_entry x name full) s
        (Sound-find_in_dir kind home s c is_unused n i d dir) (Consistent_intro kind home s c)
        (λ hit all e. After-write_entry x i d name full s c hit inode ne fresh small dir.owns all)

  -- The bit of a block with no owner is cleared.
  pub After-free :
      (s : State) (x : ℕ)
      → IsConsistent kind home s
      → kind x ≡ unowned
      → x < 32768
      → After
          (λ (_ : Unit {0}) t. IsConsistent kind home t)
          (IsConsistent kind home)
          (clear_bit x s)
  After-free s x c free small =
      After-clear_bit x c.map (λ (_ : Unit {0}) t. IsConsistent kind home t)
        (IsConsistent kind home) s c.loaded small
        (frame-without_bit kind home s x c.map c c.loaded free)

  pub put-IsTaken :
      (s : State) (x y : ℕ) (b : Block)
      → IsTaken kind home s x
      → kind y ≡ unowned
      → IsTaken kind home (record s { dev = put s.dev y b }) x
  put-IsTaken s x y b h free = record {
    consistent = frame-put kind home s y b h.consistent (not_meta-unowned kind home y free);
    free = h.free;
    from = h.from;
    to = h.to;
    bit = h.bit;
  }

  pub After-write_or_undo :
      (Q : Unit {0} → State → Type 0) (s : State) (x : ℕ) (b : Block) (undo : M (Unit {0}))
      → IsTaken kind home s x
      → After (λ (_ : Unit {0}) t. IsConsistent kind home t) (IsConsistent kind home) (undo s)
      → Q tt (record s { dev = put s.dev x b })
      → After Q (IsConsistent kind home) (write_or_undo x b undo s)
  unfolding write_or_undo
  After-write_or_undo Q s x b undo h undone goes =
      let U = λ (_ : Unit {0}) (t : State). IsConsistent kind home t in
      let F = λ (t : State). After U (IsConsistent kind home) ((undo >> ignore save_bitmap) t) in
      let cleaned =
        After-bind U (IsConsistent kind home) U (λ _. ignore save_bitmap) undo s undone
          (λ _ t c.
            After-ignore (IsConsistent kind home) save_bitmap t (After-save kind home t c)) in
      After-on_error Q F (IsConsistent kind home) (write_block x b) (undo >> ignore save_bitmap) s
        (After-write_block x b Q F s (omega (arith, h.from))
          (omega (arith, h.to, h.consistent.covered)) cleaned (λ good. goes))
        (λ t f. f)
