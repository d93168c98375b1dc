-- ===== src/Layout/Queries.antt =====
-- fs_getattr, fs_readdir, fs_statfs and fs_read on a consistent image.
use cs5600_project_3_file_sy.Common.{
  ℕ, zero, suc, ◌+◌, ◌-◌, ◌/◌, ◌^◌, ◌≤◌, ◌<◌, ◌≡◌, ◌≢◌, sym, ap, ◌∙◌, Bool-cases, inl, inr, true,
  false, arith, List, [], lt→ltb, ltb,
}
use cs5600_project_3_file_sy.Outcome.{Outcome, ok, err, crash, ◌>>◌, require, eisdir}
use cs5600_project_3_file_sy.Outcome.Sound.{Sound, Sound-bind, Sound-weaken, Sound-crash}
use cs5600_project_3_file_sy.Disk.{Block, block_read}
use cs5600_project_3_file_sy.Bitmap.Count.{count_used_lem}
use cs5600_project_3_file_sy.Format.{Inode, is_dir, is_reg, entry_valid, entry_inode, entry_name}
use cs5600_project_3_file_sy.Path.{Name}
use cs5600_project_3_file_sy.Dir.{read_inode, ptr_at, dir_blocks}
use cs5600_project_3_file_sy.Translate.{translate}
use cs5600_project_3_file_sy.Query.{
  Listing, setstat, fs_getattr, fill, named_inode, list_slots, list_blocks, list_dir, fs_readdir,
  fs_statfs,
}
use cs5600_project_3_file_sy.Format.Ends.{IsTerminated-name_ends}
use cs5600_project_3_file_sy.Query.Slots.{named_inode-ends}
use cs5600_project_3_file_sy.Read.{chunk, clip, read_loop, read_at, fs_read}
use cs5600_project_3_file_sy.State.{State}
use cs5600_project_3_file_sy.Layout.{
  Kind, unowned, dir_data, file_data, inode_at, IsDirInode, IsFileInode, IsConsistent, Consistent,
}
use cs5600_project_3_file_sy.Layout.Frame.{IsMeta-data}
use cs5600_project_3_file_sy.Layout.Touched.{IsShort}
use cs5600_project_3_file_sy.Layout.Walk.{
  LedTo, Sound-translate, Sound-meta, Sound-block_read, Sound-read_inode, inode-IsDirInode,
  inode-IsFileInode, inode-IsMeta,
}

abbrev Ends : {A : Type 0} → Outcome A → Type 0
Ends = Sound (λ _. Unit {0})

pub is_reg-not_dir : (mode : ℕ) → is_reg mode ≡ true → is_dir mode ≡ false
unfolding is_reg is_dir
is_reg-not_dir mode h = ground arith

Ends-fill :
    (r : Outcome Inode) (name : Name) (more : Listing)
    → Ends r
    → Ends more.1
    → Ends (fill r name more).1
unfolding fill
Ends-fill (ok m) name (fs, r) g h = h
Ends-fill (err e) name more g h = h
Ends-fill crash name more g h = elim g [ ]

module _ (kind : ℕ → Kind) (home : ℕ → ℕ × ℕ) (s : State) (c : IsConsistent kind home s) where
  Ends-list_slots :
      (i d k n : ℕ) (rest : Listing)
      → kind d ≡ dir_data i
      → k + n ≤ 128
      → Ends rest.1
      → Ends (list_slots s.dev (s.dev.store d) k n rest).1
  unfolding list_slots
  Ends-list_slots i d k zero rest owns fits h = h
  Ends-list_slots i d k (suc n) rest owns fits h =
      let more = Ends-list_slots i d (k + 1) n rest owns (omega arith) h in
      elim (Bool-cases (entry_valid (s.dev.store d) k)) [
        | inl e ↦
            let x = entry_inode (s.dev.store d) k in
            let ended =
              IsTerminated-name_ends (s.dev.store d) k (omega arith)
                (c.ends i d k owns (omega arith) e) in
            let named = (c.entries i d k owns (omega arith) e).names_inode in
            rw e (
              Ends-fill (named_inode s.dev (s.dev.store d) k) (entry_name (s.dev.store d) k)
                (list_slots s.dev (s.dev.store d) (k + 1) n rest)
                (rw (named_inode-ends s.dev (s.dev.store d) k ended) (
                  Sound-weaken (λ m. m ≡ inode_at s.dev x) (λ _. Unit {0}) (read_inode s.dev x)
                    (Sound-read_inode kind home s c x (inode-IsMeta (kind x) named)) (λ _ _. tt)))
                more)
        | inr e ↦ rw e more
      ]

  Ends-list_blocks :
      (n : Inode) (i d : ℕ)
      → IsDirInode kind n i d
      → Ends (list_blocks s.dev n 0 (dir_blocks n.size)).1
  unfolding list_blocks dir_blocks ptr_at
  Ends-list_blocks n i d h =
      let read : Sound (λ b. b ≡ s.dev.store d) (block_read s.dev (n.ptrs 0)) =
        rw h.block_is (Sound-meta kind home s c d (IsMeta-data (kind d) i h.owns)) in
      rw h.one_block (listed (block_read s.dev (n.ptrs 0)) read)
    where
      listed :
          (r : Outcome Block)
          → Sound (λ b. b ≡ s.dev.store d) r
          → Ends {A = Unit {0}}
              (elim r as (λ _. Listing) [
                | ok b ↦ list_slots s.dev b 0 128 ([], ok tt)
                | err e ↦ ([], err e)
                | crash ↦ ([], crash)
              ]).1
      listed (ok b) g = rw g (Ends-list_slots i d 0 128 ([], ok tt) h.owns (omega arith) tt)
      listed (err e) g = tt
      listed crash g = elim g [ ]

  Ends-list_dir :
      (r : Outcome (ℕ × Inode)) → Sound (LedTo kind home s c) r → Ends (list_dir s.dev r).1
  unfolding list_dir
  Ends-list_dir (ok (x, n)) (inode, same) = elim (Bool-cases (is_dir n.mode)) [
    | inl e ↦
        let (d, is, h) =
          inode-IsDirInode kind home s c x inode
            (ap (λ (m : Inode). is_dir m.mode) (sym same) ∙ e) in
        rw e (Ends-list_blocks n x d (rw same h))
    | inr e ↦ rw e tt
  ]
  Ends-list_dir (err e) h = tt
  Ends-list_dir crash h = h

  module _ (n : Inode) (x : ℕ) (h : IsFileInode kind n x) where
    Ends-read_loop :
        (at r fuel : ℕ) → at + r ≤ h.size → r ≤ fuel → Ends (read_loop s.dev n at r fuel)
    unfolding read_loop ptr_at
    Ends-read_loop at zero fuel inside enough = tt
    Ends-read_loop at (suc r) zero inside enough = absurd (omega arith)
    Ends-read_loop at (suc r) (suc fuel) inside enough =
        let k : ℕ = chunk at (suc r) in
        let owned = h.owns (at / 4096) (omega arith) in
        let is_owned : kind (n.ptrs (at / 4096)) ≢ unowned =
          λ z. let clash : file_data x (at / 4096) ≡ unowned = sym owned ∙ z in cc in
        let to = (c.in_range (n.ptrs (at / 4096)) is_owned).1 in
        let rest = Ends-read_loop (at + k) (suc r - k) fuel (omega arith) (omega arith) in
        rw (lt→ltb (at / 4096) 1019 (omega (arith, h.small))) (
          Sound-bind (λ b. b ≡ s.dev.store (n.ptrs (at / 4096))) (λ _. Unit {0}) _
            (block_read s.dev (n.ptrs (at / 4096)))
            (Sound-block_read s.dev (n.ptrs (at / 4096)) (omega (arith, c.covered)))
            (λ b _.
              Sound-bind (λ _. Unit {0}) (λ _. Unit {0}) _
                (read_loop s.dev n (at + k) (suc r - k) fuel) rest (λ _ _. tt)))

    Ends-read_at :
        (offset len : ℕ) → offset + len < 2 ^ 64 → Ends (read_at s.dev n n.size offset len)
    unfolding read_at read_loop ptr_at
    Ends-read_at offset len small = elim (Bool-cases (ltb offset h.size)) [
      | inl e ↦
          let l : ℕ = clip h.size offset len in
          rw (h.size_is, e) (Ends-read_loop offset l l (ground arith) (omega arith))
      | inr e ↦ rw (h.size_is, e) tt
    ]

  Ends-fs_getattr : (path : List ℕ) → IsShort path → Ends (fs_getattr s path)
  unfolding fs_getattr
  Ends-fs_getattr path short =
      Sound-bind (LedTo kind home s c) (λ _. Unit {0}) (λ r. ok (setstat r.1))
        (translate s.dev path) (Sound-translate kind home s c path short) (λ _ _. tt)

  Ends-fs_readdir : (path : List ℕ) → IsShort path → Ends (fs_readdir s path).1
  unfolding fs_readdir
  Ends-fs_readdir path short =
      Ends-list_dir (translate s.dev path) (Sound-translate kind home s c path short)

  Ends-fs_statfs : Ends (fs_statfs s)
  unfolding fs_statfs
  Ends-fs_statfs =
      let counted = count_used_lem c.map 0 s.super.disk_size (omega (arith, c.covered)) in
      rw (c.loaded, counted) tt

  Ends-fs_read :
      (path : List ℕ) (len offset : ℕ)
      → IsShort path
      → offset + len < 2 ^ 64
      → Ends (fs_read s path len offset)
  unfolding fs_read
  Ends-fs_read path len offset short small =
      let read = λ (r : ℕ × Inode).
        require (is_reg r.1.mode) eisdir >> read_at s.dev r.1 r.1.size offset len in
      Sound-bind (LedTo kind home s c) (λ _. Unit {0}) read (translate s.dev path)
        (Sound-translate kind home s c path short)
        (λ (x, n) (inode, same). elim (Bool-cases (is_reg n.mode)) [
          | inl e ↦
              let file : is_dir (inode_at s.dev x).mode ≡ false =
                rw (← same) (is_reg-not_dir n.mode e) in
              let (is, h) = inode-IsFileInode kind home s c x inode file in
              rw e (Ends-read_at n x (rw same h) offset len small)
          | inr e ↦ rw e tt
        ])

-- On a consistent image, with a path of at most nine components and a range that does not run past
-- 2^64, none of the calls that change nothing crashes: each returns its result or an error.
pub Consistent-queries :
    (s : State) (path : List ℕ) (len offset : ℕ)
    → Consistent s
    → IsShort path
    → offset + len < 2 ^ 64
    → (fs_getattr s path ≢ crash)
      × ((fs_readdir s path).1 ≢ crash)
      × (fs_statfs s ≢ crash)
      × (fs_read s path len offset ≢ crash)
Consistent-queries s path len offset (kind, home, c) short small = (
  Sound-crash (λ _. Unit {0}) (fs_getattr s path) (Ends-fs_getattr kind home s c path short),
  Sound-crash (λ _. Unit {0}) (fs_readdir s path).1 (Ends-fs_readdir kind home s c path short),
  Sound-crash (λ _. Unit {0}) (fs_statfs s) (Ends-fs_statfs kind home s c),
  Sound-crash (λ _. Unit {0}) (fs_read s path len offset)
      (Ends-fs_read kind home s c path len offset short small),
)
