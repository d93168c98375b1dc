-- ===== src/Layout/Walk.antt =====
-- Paths on a consistent image: each block that translate comes to is an inode.
use cs5600_project_3_file_sy.Common.{
  ℕ, suc, ◌+◌, ◌^◌, ◌≤◌, ◌<◌, ◌≡◌, ◌⊎◌, refl, sym, ap, ◌∙◌, Bool, Bool-cases, true, false, Option,
  none, some, arith, inl, inr, List, [], ◌∷◌, length, lt→ltb, ==_refl, ==_ne, ltb, ◌-◌, ℕ_discrete,
  str_eq,
}
use cs5600_project_3_file_sy.Outcome.{ok, err, enoent}
use cs5600_project_3_file_sy.Outcome.Sound.{Sound, Sound-bind}
use cs5600_project_3_file_sy.Disk.{Block, Device, block_read}
use cs5600_project_3_file_sy.Format.{Inode, decode_inode, is_dir, entry_valid}
use cs5600_project_3_file_sy.Dir.Hits.{over_read-ends}
use cs5600_project_3_file_sy.Path.{Name, pathparse, dot, dotdot}
use cs5600_project_3_file_sy.Dir.{
  Hit, hit_at, over_read, read_inode, ptr_at, find_slot, find_from, find_in_dir, dir_blocks,
  is_named, hit_inode,
}
use cs5600_project_3_file_sy.Dir.Slots.{find_slot-some}
use cs5600_project_3_file_sy.Translate.{Cursor, start, descend, go_up, enter, step, walk, translate}
use cs5600_project_3_file_sy.State.{State}
use cs5600_project_3_file_sy.Layout.{
  Kind, unowned, file_inode, dir_inode, dir_data, file_data, IsInodeKind, IsMeta, inode_at,
  IsDirInode, IsFileInode, IsEntry, IsConsistent,
}
use cs5600_project_3_file_sy.Layout.Frame.{IsMeta-data, meta_owned}

pub inode-IsMeta : (q : Kind) → IsInodeKind q → IsMeta q
inode-IsMeta unowned h = h
inode-IsMeta file_inode h = tt
inode-IsMeta (dir_inode d) h = tt
inode-IsMeta (dir_data i) h = tt
inode-IsMeta (file_data i j) h = h

pub inode_cases : (q : Kind) → IsInodeKind q → (q ≡ file_inode) ⊎ ((d : ℕ) × (q ≡ dir_inode d))
inode_cases unowned h = elim h [ ]
inode_cases file_inode h = inl refl
inode_cases (dir_inode d) h = inr (d, refl)
inode_cases (dir_data i) h = elim h [ ]
inode_cases (file_data i j) h = elim h [ ]

-- A hit in block `d`.
pub record IsHit (p : Block → ℕ → Bool) (s : State) (d : ℕ) (h : Hit) : Type 0 where
  pub in_block : h.lba ≡ d
  pub as_stored : h.block ≡ s.dev.store d
  pub slot_fits : h.slot < 128
  pub fits : p (s.dev.store d) h.slot ≡ true

abbrev pub AllHit : (Block → ℕ → Bool) → State → ℕ → Option Hit → Type 0
AllHit p s d none = Unit
AllHit p s d (some h) = IsHit p s d h

pub Sound-block_read :
    (d : Device) (k : ℕ) → k < 2 ^ 19 → Sound (λ b. b ≡ d.store k) (block_read d k)
unfolding block_read
Sound-block_read d k l = ground arith

module _ (kind : ℕ → Kind) (home : ℕ → ℕ × ℕ) (s : State) (c : IsConsistent kind home s) where
  pub meta_small : (k : ℕ) → IsMeta (kind k) → k < 32768
  meta_small k m = omega (arith, c.covered, (c.in_range k (meta_owned (kind k) m)).1)

  pub Sound-meta : (k : ℕ) → IsMeta (kind k) → Sound (λ b. b ≡ s.dev.store k) (block_read s.dev k)
  Sound-meta k m = Sound-block_read s.dev k (omega (arith, meta_small k m))

  pub Sound-read_inode :
      (k : ℕ) → IsMeta (kind k) → Sound (λ n. n ≡ inode_at s.dev k) (read_inode s.dev k)
  unfolding read_inode
  Sound-read_inode k m =
      Sound-bind (λ b. b ≡ s.dev.store k) (λ n. n ≡ inode_at s.dev k) (λ b. ok (decode_inode b))
        (block_read s.dev k) (Sound-meta k m) (λ b e. ap decode_inode e)

  -- An inode block whose inode is a directory's is one.
  pub inode-IsDirInode :
      (i : ℕ)
      → IsInodeKind (kind i)
      → is_dir (inode_at s.dev i).mode ≡ true
      → (d : ℕ) × (kind i ≡ dir_inode d) × IsDirInode kind (inode_at s.dev i) i d
  inode-IsDirInode i h e = elim (inode_cases (kind i) h) [
    | inl f ↦ let clash : true ≡ false = sym e ∙ (c.files i f).no_directory in cc
    | inr (d, f) ↦ (d, f, c.dirs i d f)
  ]

  pub inode-IsFileInode :
      (i : ℕ)
      → IsInodeKind (kind i)
      → is_dir (inode_at s.dev i).mode ≡ false
      → (kind i ≡ file_inode) × IsFileInode kind (inode_at s.dev i) i
  inode-IsFileInode i h e = elim (inode_cases (kind i) h) [
    | inl f ↦ (f, c.files i f)
    | inr (d, f) ↦ let clash : true ≡ false = sym (c.dirs i d f).is_directory ∙ e in cc
  ]

  hit_of :
      (p : Block → ℕ → Bool) (d l : ℕ) (b : Block) (o : Option ℕ)
      → l ≡ d
      → b ≡ s.dev.store d
      → find_slot (p b) 0 128 ≡ o
      → ((k : ℕ) → k < 128 → over_read (s.dev.store d) k ≡ false)
      → Sound (AllHit p s d) (elim o [ none ↦ ok none | some k ↦ hit_at l b k ])
  hit_of p d l b none g e f ends = tt
  hit_of p d l b (some k) g e f ends =
      let first = find_slot-some (p b) 0 128 k f in
      let inside : over_read b k ≡ false = rw e (ends k (omega (arith, first.in_range))) in
      rw inside (record {
        in_block = g;
        as_stored = e;
        slot_fits = omega (arith, first.in_range);
        fits = rw (← e) first.holds;
      })

  -- No name of a directory's entry runs past its block.
  pub dir_inside :
      (i d : ℕ) → kind d ≡ dir_data i → (k : ℕ) → k < 128 → over_read (s.dev.store d) k ≡ false
  dir_inside i d owns k l = elim (Bool-cases (entry_valid (s.dev.store d) k)) [
    | inl v ↦ over_read-ends (s.dev.store d) k l (c.ends i d k owns l v)
    | inr v ↦ rw v refl
  ]

  pub Sound-find_in_dir :
      (p : Block → ℕ → Bool) (n : Inode) (i d : ℕ)
      → IsDirInode kind n i d
      → Sound (AllHit p s d) (find_in_dir p s.dev n)
  unfolding find_in_dir find_from dir_blocks ptr_at
  Sound-find_in_dir p n i d h =
      let read : Sound (λ b. b ≡ s.dev.store d) (block_read s.dev (n.ptrs 0)) =
        rw h.block_is (Sound-meta d (IsMeta-data (kind d) i h.owns)) in
      rw h.one_block (
        Sound-bind (λ b. b ≡ s.dev.store d) (AllHit p s d) _ (block_read s.dev (n.ptrs 0)) read
          (λ b e.
            hit_of p d (n.ptrs 0) b (find_slot (p b) 0 128) h.block_is e refl
              (dir_inside i d h.owns)))

  -- A cursor on inodes, with room on its stack.
  abbrev IsGood : ℕ → Cursor → Type 0
  IsGood rounds cur =
      IsInodeKind (kind cur.inum)
      × ((j : ℕ) → IsInodeKind (kind (cur.stack j)))
      × (cur.stack_pos + rounds ≤ 9)

  Sound-descend :
      (rounds x : ℕ) (cur : Cursor)
      → IsGood (suc rounds) cur
      → IsInodeKind (kind x)
      → Sound (IsGood rounds) (descend cur x)
  unfolding descend
  Sound-descend rounds x cur (at, stack, room) to =
      rw (lt→ltb (cur.stack_pos + 1) 10 (omega arith)) (
        to,
        (λ j. elim (ℕ_discrete j (cur.stack_pos + 1)) [
          | yes e ↦ rw (e, ==_refl (cur.stack_pos + 1)) at
          | no ne ↦ rw (==_ne j (cur.stack_pos + 1) ne) (stack j)
        ]),
        omega arith,
      )

  Sound-go_up : (rounds : ℕ) (cur : Cursor) → IsGood (suc rounds) cur → IsGood rounds (go_up cur)
  unfolding go_up
  Sound-go_up rounds cur (at, stack, room) = elim (Bool-cases (ltb 0 cur.stack_pos)) [
    | inl e ↦ rw e (stack (cur.stack_pos - 1), stack, omega arith)
    | inr e ↦ rw e (at, stack, omega arith)
  ]

  pub hit_names :
      (name : Name) (i d : ℕ) (h : Hit)
      → kind d ≡ dir_data i
      → IsHit (is_named name) s d h
      → IsEntry kind home d h.slot (hit_inode h)
  unfolding is_named
  hit_names name i d h owns hit =
      rw hit.as_stored (c.entries i d h.slot owns hit.slot_fits (ground (arith, hit.fits)))

  Sound-entered :
      (rounds : ℕ) (name : Name) (cur : Cursor)
      → IsGood (suc rounds) cur
      → (i d : ℕ) (o : Option Hit) → kind d ≡ dir_data i
      → AllHit (is_named name) s d o
      → Sound (IsGood rounds) (elim o [ none ↦ err enoent | some h ↦ descend cur (hit_inode h) ])
  Sound-entered rounds name cur good i d none owns hit = tt
  Sound-entered rounds name cur good i d (some x) owns hit =
      Sound-descend rounds (hit_inode x) cur good (hit_names name i d x owns hit).names_inode

  Sound-enter :
      (rounds : ℕ) (name : Name) (cur : Cursor)
      → IsGood (suc rounds) cur
      → Sound (IsGood rounds) (enter s.dev name cur)
  unfolding enter
  Sound-enter rounds name cur good =
      Sound-bind (λ n. n ≡ inode_at s.dev cur.inum) (IsGood rounds) _ (read_inode s.dev cur.inum)
        (Sound-read_inode cur.inum (inode-IsMeta (kind cur.inum) good.0))
        (λ n e. elim (Bool-cases (is_dir n.mode)) [
          | inl dir ↦
              let (d, owns, h) =
                inode-IsDirInode cur.inum good.0
                  (ap (λ (m : Inode). is_dir m.mode) (sym e) ∙ dir) in
              rw dir (
                Sound-bind (AllHit (is_named name) s d) (IsGood rounds) _
                  (find_in_dir (is_named name) s.dev n)
                  (Sound-find_in_dir (is_named name) n cur.inum d (rw e h))
                  (λ o hit. Sound-entered rounds name cur good cur.inum d o h.owns hit))
          | inr dir ↦ rw dir tt
        ])

  Sound-step :
      (rounds : ℕ) (name : Name) (cur : Cursor)
      → IsGood (suc rounds) cur
      → Sound (IsGood rounds) (step s.dev name cur)
  unfolding step
  Sound-step rounds name cur good = elim (Bool-cases (str_eq name dot)) [
    | inl e ↦ rw e (good.0, good.1, omega (arith, good.2))
    | inr e ↦ elim (Bool-cases (str_eq name dotdot)) [
      | inl f ↦ rw (e, f) (Sound-go_up rounds cur good)
      | inr f ↦ rw (e, f) (Sound-enter rounds name cur good)
    ]
  ]

  Sound-walk :
      (names : List Name) (cur : Cursor)
      → IsGood (length names) cur
      → Sound (IsGood 0) (walk s.dev names cur)
  unfolding walk
  Sound-walk [] cur good = good
  Sound-walk (name ∷ names) cur good =
      Sound-bind (IsGood (length names)) (IsGood 0) (walk s.dev names) (step s.dev name cur)
        (Sound-step (length names) name cur good) (Sound-walk names)

  -- Where a path leads.
  abbrev pub LedTo : ℕ × Inode → Type 0
  LedTo (i, n) = IsInodeKind (kind i) × (n ≡ inode_at s.dev i)

  pub Sound-translate :
      (path : List ℕ) → length (pathparse path) ≤ 9 → Sound LedTo (translate s.dev path)
  unfolding translate
  Sound-translate path short =
      let at : IsInodeKind (kind 2) = rw c.root.1 tt in
      Sound-bind (IsGood 0) LedTo _ (walk s.dev (pathparse path) start)
        (Sound-walk (pathparse path) start (at, (λ j. at), omega (arith, short)))
        (λ cur good.
          Sound-bind (λ n. n ≡ inode_at s.dev cur.inum) LedTo (λ n. ok (cur.inum, n))
            (read_inode s.dev cur.inum)
            (Sound-read_inode cur.inum (inode-IsMeta (kind cur.inum) good.0)) (λ n e. (good.0, e)))
