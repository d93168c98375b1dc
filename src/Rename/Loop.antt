-- ===== src/Rename/Loop.antt =====
-- The loop of fs_rename over the blocks of the directory, and the directory after it.
use cs5600_project_3_file_sy.Common.{
  ℕ, zero, suc, ◌+◌, ◌≤◌, ◌<◌, ◌≡◌, ◌≢◌, refl, sym, ap, ◌∙◌, All, take, arith, Bool, true, false,
  some, none, str_eq, str_eq→eq, str_eq_refl, List, ◌-◌, ◌*◌, length, length-take, take_all,
  ℕ_discrete, lt→ltb,
}
use cs5600_project_3_file_sy.Outcome.{ok, within}
use cs5600_project_3_file_sy.Disk.{Block, Device, block_read}
use cs5600_project_3_file_sy.Format.{Inode, set_name}
use cs5600_project_3_file_sy.Format.Strings.{IsChar}
use cs5600_project_3_file_sy.Format.Entries.{set_name_lem, set_name-ne}
use cs5600_project_3_file_sy.Path.{Name}
use cs5600_project_3_file_sy.Dir.{
  Hit, ptr_at, find_slot, find_from, find_in_dir, dir_blocks, is_named,
}
use cs5600_project_3_file_sy.Dir.Slots.{IsFirst, find_slot-none_intro, find_slot-IsFirst}
use cs5600_project_3_file_sy.Dir.Search.{
  dir_block-intro, find_from-miss, find_from-hit, find_from-nowhere,
}
use cs5600_project_3_file_sy.Dir.Erase.{IsOnly}
use cs5600_project_3_file_sy.State.{State, ◌>>=◌, ◌>>◌, lift, reads, write_block}
use cs5600_project_3_file_sy.State.Runs.{reads-to, lift-to, put, IsWritable, write_block-to}
use cs5600_project_3_file_sy.Rename.{
  last_slot, is_other, stays_inside, seen_in, rename_in, rename_from,
}
use cs5600_project_3_file_sy.Rename.Inside.{stays_inside-ends}
use cs5600_project_3_file_sy.Dir.Hits.{over_read-ends, take_short}
use cs5600_project_3_file_sy.Format.Ends.{set_name_self-IsTerminated}

last_slot-none :
    (p : ℕ → Bool) (k n : ℕ) → ((i : ℕ) → k ≤ i → i < k + n → p i ≡ false) → last_slot p k n ≡ none
unfolding last_slot
last_slot-none p k zero h = refl
last_slot-none p k (suc n) h = rw (
  last_slot-none p (k + 1) n (λ i l m. h i (omega arith) (omega arith)),
  h k (omega arith) (omega arith),
)

-- The one slot with the property.
last_slot-only :
    (p : ℕ → Bool) (k n j : ℕ)
    → k ≤ j
    → j < k + n
    → p j ≡ true
    → ((i : ℕ) → k ≤ i → i < k + n → i ≢ j → p i ≡ false)
    → last_slot p k n ≡ some j
unfolding last_slot
last_slot-only p k zero j l m e h = absurd (omega arith)
last_slot-only p k (suc n) j l m e h = elim (ℕ_discrete k j) [
  | yes q ↦
      rw (
        last_slot-none p (k + 1) n (λ i l' m'. h i (omega arith) (omega arith) (omega arith)),
        q,
        e,
      )
  | no ne ↦ rw (
      last_slot-only p (k + 1) n j (omega arith) (omega arith) e
        (λ i l' m' ne'. h i (omega arith) (omega arith) ne'))
]

pub not_true : (c : Bool) → (c ≡ true → ⊥) → c ≡ false
not_true true h = absurd (h refl)
not_true false h = refl

module _ (d : Device) (n : Inode) (src dst : Name) (h : Hit) (only : IsOnly d n src h)
    (in_range : h.slot < 128) (named : is_named src h.block h.slot ≡ true)
    (absent : (j m : ℕ) → j < dir_blocks n.size → m < 128 → is_named dst (only.blocks j) m ≡ false)
    (chars : All IsChar dst) (fits : take 26 dst ≡ dst) (same_dst : str_eq dst dst ≡ true) where
  abbrev after : Block
  after = set_name h.block h.slot dst

  -- The block of the entry, wherever the directory names it.
  pub block_here : (j : ℕ) → j < dir_blocks n.size → n.ptrs j ≡ h.lba → only.blocks j ≡ h.block
  block_here j l e =
      let found : ok (only.blocks j) ≡ ok h.block =
        sym (only.readable j l) ∙ ap (block_read d) e ∙ only.hit_there in
      cc

  no_dst :
      (j : ℕ) → j < dir_blocks n.size → find_slot (is_other src dst (only.blocks j)) 0 128 ≡ none
  unfolding is_other
  no_dst j l =
      find_slot-none_intro (is_other src dst (only.blocks j)) 0 128
        (λ m from to. rw (absent j m l (omega arith)))

  inside : (j : ℕ) → j < dir_blocks n.size → stays_inside src dst (only.blocks j) ≡ true
  inside j l = stays_inside-ends src dst (only.blocks j) (λ m lt v. only.ends j m l lt)

  one_src :
      (j : ℕ)
      → j < dir_blocks n.size
      → n.ptrs j ≡ h.lba
      → last_slot (is_named src (only.blocks j)) 0 128 ≡ some h.slot
  one_src j l e =
      last_slot-only (is_named src (only.blocks j)) 0 128 h.slot (omega arith) (omega arith)
        (rw (block_here j l e) named)
        (λ m from to ne.
          not_true (is_named src (only.blocks j) m) (λ q. ne (only.only j m l (omega arith) q).1))

  no_src :
      (j : ℕ)
      → j < dir_blocks n.size
      → n.ptrs j ≢ h.lba
      → last_slot (is_named src (only.blocks j)) 0 128 ≡ none
  no_src j l ne = last_slot-none (is_named src (only.blocks j)) 0 128 (λ m from to.
      not_true (is_named src (only.blocks j) m) (λ q. ne (only.only j m l (omega arith) q).0))

  -- The loop from block `i` on, if the entry's block is still to come.
  pub rename_from-to :
      (s : State) (i r j : ℕ)
      → s.dev ≡ d
      → IsWritable d h.lba
      → i + r ≤ dir_blocks n.size
      → i ≤ j
      → j < i + r
      → n.ptrs j ≡ h.lba
      → rename_from src dst n false i r s ≡ (ok tt, record s { dev = put d h.lba after })
  unfolding rename_from ptr_at rename_in
  rename_from-to s i zero j same w fits' l m at = absurd (omega arith)
  rename_from-to s i (suc r) j same w fits' l m at =
      let b = only.blocks i in
      let next = λ (seen' : Bool). rename_from src dst n seen' (i + 1) r in
      let renames = λ (lba : ℕ) (b : Block).
        let seen' : Bool = seen_in false (find_slot (is_other src dst b) 0 128) in
        rename_in dst lba b seen' (last_slot (is_named src b) 0 128) (next seen') in
      let act = λ (lba : ℕ) (b : Block). lift (within (stays_inside src dst b)) >> renames lba b in
      let here : i < dir_blocks n.size = omega arith in
      let start : rename_from src dst n false i (suc r) s ≡ act (n.ptrs i) b s =
        lift-to (ptr_at n i) (λ lba. reads (λ s. block_read s.dev lba) >>= act lba) s (n.ptrs i)
          (rw (lt→ltb i 1019 (omega (arith, only.in_array))))
        ∙ reads-to (λ s. block_read s.dev (n.ptrs i)) (act (n.ptrs i)) s b
            (ap (λ x. block_read x (n.ptrs i)) same ∙ only.readable i here) in
      elim (ℕ_discrete (n.ptrs i) h.lba) [
        | yes e ↦
            let seen : act (n.ptrs i) b s ≡ write_block (n.ptrs i) (set_name b h.slot dst) s =
              rw (inside i here, no_dst i here, one_src i here e) in
            let wrote = write_block-to h.lba after s (rw same w) in
            start ∙ seen ∙ rw (e, block_here i here e) (wrote ∙ rw same)
        | no ne ↦
            let passed : act (n.ptrs i) b s ≡ next false s =
              rw (inside i here, no_dst i here, no_src i here ne) in
            let later : i ≢ j = λ q. ne (ap n.ptrs q ∙ at) in
            start
            ∙ passed
            ∙ rename_from-to s (i + 1) r j same w (omega arith) (omega arith) (omega arith) at
      ]

  -- The new name and its NUL have room in the block.
  dst_room : take (4096 - (32 * h.slot + 4)) dst ≡ dst
  dst_room =
      take_all (4096 - (32 * h.slot + 4)) dst
        (omega (arith, ap (λ (x : List ℕ). length x) fits, length-take 26 dst))

  src_other : str_eq dst src ≡ false → str_eq dst (take (4096 - (32 * h.slot + 4)) src) ≡ false
  src_other differ = not_true (str_eq dst (take (4096 - (32 * h.slot + 4)) src)) (λ q.
      let same =
        take_short (4096 - (32 * h.slot + 4)) dst src
          (omega (arith, ap (λ (x : List ℕ). length x) fits, length-take 26 dst))
          (str_eq→eq dst (take (4096 - (32 * h.slot + 4)) src) q) in
      let clash : true ≡ false = sym (str_eq_refl dst) ∙ ap (str_eq dst) same ∙ differ in cc)

  -- What the entries of its block show of the new name and of the old one.
  renamed-IsFirst :
      (j : ℕ) → j < dir_blocks n.size → n.ptrs j ≡ h.lba → IsFirst (is_named dst after) 0 128 h.slot
  unfolding is_named
  renamed-IsFirst j l e =
      let (v, i, s) = set_name_lem h.block h.slot dst in_range chars in
      record {
        from = omega arith;
        in_range = omega arith;
        holds = rw (v, s, fits, dst_room, same_dst) (ground (arith, named));
        first = λ m from less.
            let block = block_here j l e in
            let (v', i', s') =
              set_name-ne h.block h.slot m dst (omega arith) (omega arith)
                (rw block at (only.ends j m l (omega arith))) in
            rw (v', s') (rw block at (absent j m l (omega arith)));
      }

  src_gone :
      (j m : ℕ)
      → j < dir_blocks n.size
      → n.ptrs j ≡ h.lba
      → m < 128
      → str_eq dst src ≡ false
      → is_named src after m ≡ false
  unfolding is_named
  src_gone j m l e lt differ = elim (ℕ_discrete m h.slot) [
    | yes q ↦
        let (v, i, s) = set_name_lem h.block h.slot dst in_range chars in
        rw (q, s, fits, src_other differ) (ground arith)
    | no ne ↦
        let block = block_here j l e in
        let (v, i, s) =
          set_name-ne h.block h.slot m dst (λ q. ne (sym q)) lt
            (rw block at (only.ends j m l lt)) in
        rw (v, s) (not_true (is_named src h.block m) (λ q. ne (only.only j m l lt (rw block q)).1))
  ]

  module _ (d' : Device)
      (same : (j : ℕ)
        → j < dir_blocks n.size
        → n.ptrs j ≢ h.lba
        → block_read d' (n.ptrs j) ≡ block_read d (n.ptrs j))
      (written : block_read d' h.lba ≡ ok after) where
    pub dst_from :
        (i r j : ℕ)
        → i + r ≤ dir_blocks n.size
        → i ≤ j
        → j < i + r
        → n.ptrs j ≡ h.lba
        → find_from (is_named dst) d' n i r
          ≡ ok (some (record { lba = h.lba; block = after; slot = h.slot }))
    dst_from i zero j fits' l m at = absurd (omega arith)
    dst_from i (suc r) j fits' l m at =
        let here : i < dir_blocks n.size = omega arith in
        let small : i < 1019 = omega (arith, only.in_array) in
        elim (ℕ_discrete (n.ptrs i) h.lba) [
          | yes e ↦
              find_from-hit (is_named dst) d' n i r h.lba after h.slot
                (rw e at (dir_block-intro d' n i after small (ap (block_read d') e ∙ written)))
                (find_slot-IsFirst (is_named dst after) 0 128 h.slot (renamed-IsFirst i here e))
                (over_read-ends after h.slot in_range
                  (set_name_self-IsTerminated h.block h.slot dst))
          | no ne ↦
              find_from-miss (is_named dst) d' n i r (n.ptrs i) (only.blocks i)
                (dir_block-intro d' n i (only.blocks i) small
                  (same i here ne ∙ only.readable i here))
                (find_slot-none_intro (is_named dst (only.blocks i)) 0 128
                  (λ m from to. absent i m here (omega arith)))
              ∙ dst_from (i + 1) r j (omega arith)
                  (let later : i ≢ j = λ q. ne (ap n.ptrs q ∙ at) in omega arith) (omega arith) at
        ]

    pub src_nowhere : str_eq dst src ≡ false → find_in_dir (is_named src) d' n ≡ ok none
    unfolding find_in_dir
    src_nowhere differ =
        find_from-nowhere (is_named src) d' n 0 (dir_blocks n.size) (omega (arith, only.in_array))
          (λ j from to.
            let here : j < dir_blocks n.size = omega arith in
            elim (ℕ_discrete (n.ptrs j) h.lba) [
              | yes e ↦
                  (after, ap (block_read d') e ∙ written, λ m lt. src_gone j m here e lt differ)
              | no ne ↦ (
                only.blocks j,
                same j here ne ∙ only.readable j here,
                λ m lt.
                    not_true (is_named src (only.blocks j) m) (λ q. ne (only.only j m here lt q).0),
              )
            ])
