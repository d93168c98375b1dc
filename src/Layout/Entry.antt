-- ===== src/Layout/Entry.antt =====
-- The writes to a directory's block of entries: an entry is linked, erased or renamed.
use cs5600_project_3_file_sy.Common.{
  ℕ, ◌^◌, ◌<◌, ◌≡◌, ◌≢◌, refl, sym, ap, ◌∙◌, true, false, arith, List, ℕ_discrete, ◌==◌, ==_ne,
  ==_refl, if◌then◌else◌,
}
use cs5600_project_3_file_sy.Disk.{Block}
use cs5600_project_3_file_sy.Format.{
  decode_inode, entry_valid, entry_inode, set_entry, set_name, clear_entry,
}
use cs5600_project_3_file_sy.Format.Entries.{clear_entry-invalid, IsTerminated}
use cs5600_project_3_file_sy.Format.Ends.{
  set_name-IsTerminated, set_entry-IsTerminated, set_entry_self-IsTerminated,
  clear_entry-IsTerminated,
}
use cs5600_project_3_file_sy.Format.Marks.{
  SameMark, set_name-SameMark, set_entry-SameMark, clear_entry-SameMark, set_entry_mark,
}
use cs5600_project_3_file_sy.State.{State}
use cs5600_project_3_file_sy.State.Runs.{put}
use cs5600_project_3_file_sy.Write.Loop.{stored_ne, stored_self}
use cs5600_project_3_file_sy.Layout.{
  Kind, file_inode, dir_inode, dir_data, IsInodeKind, IsMeta, IsEntry, IsConsistent,
}
use cs5600_project_3_file_sy.Layout.Frame.{IsMeta-dir, IsMeta-file, IsMeta-data}

-- No entry names inode `x`.
abbrev pub NoEntry : (ℕ → Kind) → State → ℕ → Type 0
NoEntry kind s x =
    (i b k : ℕ)
    → kind b ≡ dir_data i
    → k < 128
    → entry_valid (s.dev.store b) k ≡ true
    → entry_inode (s.dev.store b) k ≢ x

-- The entries of an image, each in its place.
abbrev AllEntries : (ℕ → Kind) → (ℕ → ℕ × ℕ) → State → Type 0
AllEntries kind home s =
    (i b k : ℕ)
    → kind b ≡ dir_data i
    → k < 128
    → entry_valid (s.dev.store b) k ≡ true
    → IsEntry kind home b k (entry_inode (s.dev.store b) k)

-- The names of the valid entries end.
abbrev AllEnds : (ℕ → Kind) → State → Type 0
AllEnds kind s =
    (i b k : ℕ)
    → kind b ≡ dir_data i
    → k < 128
    → entry_valid (s.dev.store b) k ≡ true
    → IsTerminated (s.dev.store b) k

abbrev pub moved : (ℕ → ℕ × ℕ) → ℕ → ℕ × ℕ → ℕ → ℕ × ℕ
moved home x p y = if y == x then p else home y

module _ (kind : ℕ → Kind) (home : ℕ → ℕ × ℕ) (s : State) (c : IsConsistent kind home s) (i d : ℕ)
    (owns : kind d ≡ dir_data i) where
  abbrev written : Block → State
  written b = record s { dev = put s.dev d b }

  off_block :
      (b : Block) (k : ℕ) → IsMeta (kind k) → k ≢ d → (written b).dev.store k ≡ s.dev.store k
  off_block b k m ne = stored_ne s.dev d k b ne (c.there k m)

  -- A block of entries is rewritten, and the entries are right again.
  rewritten :
      (b : Block) (home' : ℕ → ℕ × ℕ)
      → AllEntries kind home' (written b)
      → AllEnds kind (written b)
      → IsConsistent kind home' (written b)
  rewritten b home' right ended = record {
    map = c.map;
    loaded = c.loaded;
    covered = c.covered;
    in_range = c.in_range;
    marked = c.marked;
    there = λ k m. omega (arith, c.there k m);
    root = c.root;
    dirs = λ j e g.
        let ne : j ≢ d =
          λ q. let clash : dir_inode e ≡ dir_data i = sym g ∙ ap kind q ∙ owns in cc in
        let same = ap decode_inode (off_block b j (IsMeta-dir (kind j) e g) ne) in
        rw same (c.dirs j e g);
    files = λ j g.
        let ne : j ≢ d =
          λ q. let clash : file_inode ≡ dir_data i = sym g ∙ ap kind q ∙ owns in cc in
        let same = ap decode_inode (off_block b j (IsMeta-file (kind j) g) ne) in
        rw same (c.files j g);
    entries = right;
    ends = ended;
  }

  -- An entry of the old image for one of the new one.
  old_entry :
      (b : Block) (j e k : ℕ)
      → kind e ≡ dir_data j
      → k < 128
      → (e ≡ d → SameMark (s.dev.store d) b k)
      → entry_valid ((written b).dev.store e) k ≡ true
      → (entry_valid (s.dev.store e) k ≡ true)
        × (entry_inode ((written b).dev.store e) k ≡ entry_inode (s.dev.store e) k)
  old_entry b j e k g l same v = elim (ℕ_discrete e d) [
    | yes q ↦
        let at : (written b).dev.store e ≡ b = ap (written b).dev.store q ∙ stored_self s.dev d b in
        let (m, n) = same q in
        (
          ap (λ x. entry_valid (s.dev.store x) k) q
              ∙ sym m
              ∙ ap (λ x. entry_valid x k) (sym at)
              ∙ v,
          ap (λ x. entry_inode x k) at ∙ n ∙ ap (λ x. entry_inode (s.dev.store x) k) (sym q),
        )
    | no ne ↦
        let at = off_block b e (IsMeta-data (kind e) j g) ne in
        (ap (λ x. entry_valid x k) (sym at) ∙ v, ap (λ x. entry_inode x k) at)
  ]

  -- The names of the other blocks are as they were.
  ends_kept :
      (b : Block)
      → ((k : ℕ) → k < 128 → entry_valid b k ≡ true → IsTerminated b k)
      → AllEnds kind (written b)
  ends_kept b good j e k g l v = elim (ℕ_discrete e d) [
    | yes q ↦
        let at : (written b).dev.store e ≡ b = ap (written b).dev.store q ∙ stored_self s.dev d b in
        rw at (good k l (ap (λ x. entry_valid x k) (sym at) ∙ v))
    | no ne ↦
        let at = off_block b e (IsMeta-data (kind e) j g) ne in
        rw at (c.ends j e k g l (ap (λ x. entry_valid x k) (sym at) ∙ v))
  ]

  -- Names are changed, nothing else.
  pub set_name-IsConsistent :
      (k : ℕ) (name : List ℕ) → IsConsistent kind home (written (set_name (s.dev.store d) k name))
  set_name-IsConsistent k name =
      rewritten (set_name (s.dev.store d) k name) home
        (λ j e m g l v.
          let (old, same) =
            old_entry (set_name (s.dev.store d) k name) j e m g l
              (λ q. set_name-SameMark (s.dev.store d) k m name) v in
          rw same (c.entries j e m g l old))
        (ends_kept (set_name (s.dev.store d) k name) (λ m l v.
          set_name-IsTerminated (s.dev.store d) k m name
            (c.ends i d m owns l (sym (set_name-SameMark (s.dev.store d) k m name).0 ∙ v))))

  module _ (k x : ℕ) (name : List ℕ) (small : x < 2 ^ 31) (inode : IsInodeKind (kind x))
      (ne : x ≢ 2) (fresh : NoEntry kind s x) where
    abbrev linked : Block
    linked = set_entry (s.dev.store d) k x name

    old_in_place :
        (j e m : ℕ)
        → kind e ≡ dir_data j
        → m < 128
        → (e ≡ d → k ≢ m)
        → entry_valid ((written linked).dev.store e) m ≡ true
        → IsEntry kind (moved home x (d, k)) e m (entry_inode ((written linked).dev.store e) m)
    old_in_place j e m g l other v =
        let (old, same) =
          old_entry linked j e m g l (λ q. set_entry-SameMark (s.dev.store d) k m x name (other q))
            v in
        let entry = c.entries j e m g l old in
        rw same (record {
          names_inode = entry.names_inode;
          at_home =
              rw (==_ne (entry_inode (s.dev.store e) m) x (fresh j e m g l old)) entry.at_home;
          not_root = entry.not_root;
        })

    in_place : AllEntries kind (moved home x (d, k)) (written linked)
    in_place j e m g l v = elim (ℕ_discrete e d) [
      | no other ↦ old_in_place j e m g l (λ q. absurd (other q)) v
      | yes q ↦ elim (ℕ_discrete k m) [
        | no other ↦ old_in_place j e m g l (λ _. other) v
        | yes p ↦
            let at : (written linked).dev.store e ≡ linked =
              ap (written linked).dev.store q ∙ stored_self s.dev d linked in
            let named : entry_inode ((written linked).dev.store e) m ≡ x =
              ap (λ b. entry_inode b m) at
              ∙ ap (entry_inode linked) (sym p)
              ∙ (set_entry_mark (s.dev.store d) k x name small).1 in
            rw named
              (record { names_inode = inode; at_home = rw (==_refl x, q, p) refl; not_root = ne })
      ]
    ]

    pub set_entry-IsConsistent : IsConsistent kind (moved home x (d, k)) (written linked)
    set_entry-IsConsistent = rewritten linked (moved home x (d, k)) in_place (
        ends_kept linked (λ m l v. elim (ℕ_discrete k m) [
          | yes p ↦ rw p (set_entry_self-IsTerminated (s.dev.store d) m x name)
          | no other ↦ set_entry-IsTerminated (s.dev.store d) k m x name (
              c.ends i d m owns l (sym (set_entry-SameMark (s.dev.store d) k m x name other).0 ∙ v))
        ]))

  module _ (k : ℕ) where
    abbrev cleared : Block
    cleared = clear_entry (s.dev.store d) k

    -- What is still valid was, and is not the entry that was erased.
    still :
        (j e m : ℕ)
        → kind e ≡ dir_data j
        → m < 128
        → entry_valid ((written cleared).dev.store e) m ≡ true
        → (entry_valid (s.dev.store e) m ≡ true)
          × (entry_inode ((written cleared).dev.store e) m ≡ entry_inode (s.dev.store e) m)
          × (e ≡ d → k ≢ m)
    still j e m g l v =
        let other : e ≡ d → k ≢ m = λ q p.
          let at : (written cleared).dev.store e ≡ cleared =
            ap (written cleared).dev.store q ∙ stored_self s.dev d cleared in
          let clash : true ≡ false =
            sym v
            ∙ ap (λ b. entry_valid b m) at
            ∙ ap (entry_valid cleared) (sym p)
            ∙ clear_entry-invalid (s.dev.store d) k in
          cc in
        let (old, same) =
          old_entry cleared j e m g l (λ q. clear_entry-SameMark (s.dev.store d) k m (other q)) v in
        (old, same, other)

    pub clear_entry-IsConsistent : IsConsistent kind home (written cleared)
    clear_entry-IsConsistent =
        rewritten cleared home
          (λ j e m g l v.
            let (old, same, other) = still j e m g l v in rw same (c.entries j e m g l old))
          (λ j e m g l v.
            let (old, same, other) = still j e m g l v in
            elim (ℕ_discrete e d) [
              | yes q ↦
                  let at : (written cleared).dev.store e ≡ cleared =
                    ap (written cleared).dev.store q ∙ stored_self s.dev d cleared in
                  let was : entry_valid (s.dev.store d) m ≡ true =
                    ap (λ x. entry_valid (s.dev.store x) m) (sym q) ∙ old in
                  rw at (clear_entry-IsTerminated (s.dev.store d) k m (c.ends i d m owns l was))
              | no ne ↦
                  let at = off_block cleared e (IsMeta-data (kind e) j g) ne in
                  rw at (c.ends j e m g l old)
            ])

    -- The inode that the entry named has no entry then.
    pub clear_entry-NoEntry :
        k < 128
        → entry_valid (s.dev.store d) k ≡ true
        → NoEntry kind (written cleared) (entry_inode (s.dev.store d) k)
    clear_entry-NoEntry at valid j e m g l v q =
        let (old, same, other) = still j e m g l v in
        let mine = (c.entries i d k owns at valid).at_home in
        let its = (c.entries j e m g l old).at_home in
        let both : ◌≡◌ {A = ℕ × ℕ} (d, k) (e, m) = sym mine ∙ ap home (sym q ∙ same) ∙ its in
        other (sym (ap (λ p. p.0) both)) (ap (λ p. p.1) both)
