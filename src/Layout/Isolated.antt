-- ===== src/Layout/Isolated.antt =====
-- On a consistent image, a write to one file leaves what another file reads.
use cs5600_project_3_file_sy.Common.{
  ℕ, zero, suc, ◌+◌, ◌-◌, ◌*◌, ◌/◌, ◌^◌, ◌≤◌, ◌<◌, ◌≡◌, ◌≢◌, refl, inl, inr, sym, ap, ◌∙◌,
  Bool-cases, true, false, some, arith, List, [], ◌∷◌, All, length, ltb,
}
use cs5600_project_3_file_sy.Common.Int.{pos}
use cs5600_project_3_file_sy.Outcome.{Outcome, ok, err, ◌>>=◌, ◌>>◌, >>=-eq-ok, require, enotdir}
use cs5600_project_3_file_sy.Outcome.Sound.{Sound-ok}
use cs5600_project_3_file_sy.Disk.{Block, Device, block_read}
use cs5600_project_3_file_sy.Disk.Access.{readable}
use cs5600_project_3_file_sy.Bitmap.{has_bit}
use cs5600_project_3_file_sy.Bitmap.Count.{used_in}
use cs5600_project_3_file_sy.Format.{Inode, is_dir, is_reg, decode_inode}
use cs5600_project_3_file_sy.Path.{Name, pathparse}
use cs5600_project_3_file_sy.Path.Resolve.{IsReal}
use cs5600_project_3_file_sy.Dir.{read_inode, ptr_at, dir_blocks, find_in_dir, is_named}
use cs5600_project_3_file_sy.Dir.Insert.{find_from-cong}
use cs5600_project_3_file_sy.Translate.{root_inum, translate}
use cs5600_project_3_file_sy.Translate.Frame.{SameOn}
use cs5600_project_3_file_sy.Translate.Lookup.{child, lookup, hit_or_enoent, translate-lookup}
use cs5600_project_3_file_sy.Read.{chunk, clip, read_loop, read_at, fs_read}
use cs5600_project_3_file_sy.Write.{fs_write}
use cs5600_project_3_file_sy.Write.Extend.{IsFile, IsStorage}
use cs5600_project_3_file_sy.Write.Extended.{fs_write-extends}
use cs5600_project_3_file_sy.Write.ReadBack.{IsElsewhere, same-IsElsewhere}
use cs5600_project_3_file_sy.Create.Findable.{lookup-translate}
use cs5600_project_3_file_sy.State.{State, Env}
use cs5600_project_3_file_sy.Layout.{
  Kind, unowned, file_inode, dir_inode, dir_data, file_data, IsInodeKind, inode_at, IsFileInode,
  IsConsistent, Consistent,
}
use cs5600_project_3_file_sy.Layout.Agreement.{hit_from}
use cs5600_project_3_file_sy.Layout.Frame.{IsMeta-dir, IsMeta-data}
use cs5600_project_3_file_sy.Layout.Queries.{is_reg-not_dir}
use cs5600_project_3_file_sy.Layout.Touched.{IsShort}
use cs5600_project_3_file_sy.Layout.Walk.{
  AllHit, LedTo, Sound-translate, Sound-read_inode, Sound-find_in_dir, inode-IsFileInode,
  inode-IsDirInode, inode-IsMeta, hit_names,
}

-- Reads that succeeded, where each block of the file still reads the same.
read_loop-same :
    (d d' : Device) (n : Inode) (blocks : ℕ)
    → ((i : ℕ) (b : Block)
        → i < blocks
        → block_read d (n.ptrs i) ≡ ok b
        → block_read d' (n.ptrs i) ≡ ok b)
    → (fuel at r : ℕ) (bytes : List ℕ) → at + r ≤ blocks * 4096
    → read_loop d n at r fuel ≡ ok bytes
    → read_loop d' n at r fuel ≡ ok bytes
unfolding read_loop ptr_at
read_loop-same d d' n blocks same zero at zero bytes l h = h
read_loop-same d d' n blocks same (suc fuel) at zero bytes l h = h
read_loop-same d d' n blocks same zero at (suc r) bytes l h = h
read_loop-same d d' n blocks same (suc fuel) at (suc r) bytes l h =
    let c = chunk at (suc r) in
    let (lba, p, g) = >>=-eq-ok (ptr_at n (at / 4096)) _ h in
    let is : n.ptrs (at / 4096) ≡ lba = ground arith in
    let (b, read, g2) = >>=-eq-ok (block_read d lba) _ g in
    let (rest, more, g3) = >>=-eq-ok (read_loop d n (at + c) (suc r - c) fuel) _ g2 in
    let read' : block_read d' lba ≡ ok b =
      ap (block_read d') (sym is)
      ∙ same (at / 4096) b (omega arith) (ap (block_read d) is ∙ read) in
    let more' =
      read_loop-same d d' n blocks same fuel (at + c) (suc r - c) rest (omega arith) more in
    rw (p, read', more') g3

read_at-same :
    (d d' : Device) (n : Inode) (size offset len : ℕ) (bytes : List ℕ)
    → ((i : ℕ) (b : Block)
        → i < (size + 4095) / 4096
        → block_read d (n.ptrs i) ≡ ok b
        → block_read d' (n.ptrs i) ≡ ok b)
    → offset + len < 2 ^ 64
    → read_at d n (pos size) offset len ≡ ok bytes
    → read_at d' n (pos size) offset len ≡ ok bytes
unfolding read_at
read_at-same d d' n size offset len bytes same small h = elim (Bool-cases (ltb offset size)) [
  | inl e ↦
      let inside : offset + clip size offset len ≤ (size + 4095) / 4096 * 4096 = ground arith in
      rw e (
        read_loop-same d d' n ((size + 4095) / 4096) same (clip size offset len) offset
          (clip size offset len) bytes inside (rw e at h))
  | inr e ↦ rw e (rw e at h)
]

file_at :
    (kind : ℕ → Kind) (home : ℕ → ℕ × ℕ) (t : State) (c : IsConsistent kind home t) (path : List ℕ)
    (x : ℕ) (n : Inode)
    → IsShort path
    → translate t.dev path ≡ ok (x, n)
    → is_dir n.mode ≡ false
    → (kind x ≡ file_inode) × IsFileInode kind n x
file_at kind home t c path x n short e file =
    let (inode, same) =
      Sound-ok (LedTo kind home t c) (translate t.dev path) (x, n)
        (Sound-translate kind home t c path short) e in
    let (is, h) = inode-IsFileInode kind home t c x inode (rw (← same) file) in (is, rw same h)

-- The file of inode `x`, and a device on which the blocks that are elsewhere read the same.
module _ (kind : ℕ → Kind) (home : ℕ → ℕ × ℕ) (s : State) (c : IsConsistent kind home s)
    (map : Block) (loaded : s.bitmap ≡ some map) (x : ℕ) (n : Inode) (is : kind x ≡ file_inode)
    (h : IsFileInode kind n x) (d' : Device)
    (same : SameOn (IsElsewhere s map ((h.size + 4095) / 4096) x n) s.dev d') where
  elsewhere :
      (k : ℕ)
      → k < s.dev.blocks
      → kind k ≢ unowned
      → k ≢ x
      → ((j : ℕ) → kind k ≢ file_data x j)
      → block_read d' k ≡ block_read s.dev k
  elsewhere k inside owned ne other =
      let map_is : c.map ≡ map = cc (loaded, c.loaded) in
      let from = (c.in_range k owned).0 in
      same k (
        inside,
        ap (λ (m : Block). has_bit m k) (sym map_is) ∙ c.marked k owned,
        omega arith,
        ne,
        λ j l e. other j (ap kind (sym e) ∙ h.owns j l),
      )

  dir_read : (i d : ℕ) → kind i ≡ dir_inode d → block_read d' i ≡ block_read s.dev i
  dir_read i d e =
      elsewhere i (c.there i (IsMeta-dir (kind i) d e))
        (λ z. let clash : dir_inode d ≡ unowned = sym e ∙ z in cc)
        (λ z. let clash : dir_inode d ≡ file_inode = sym e ∙ ap kind z ∙ is in cc)
        (λ j z. let clash : dir_inode d ≡ file_data x j = sym e ∙ z in cc)

  data_read : (i d : ℕ) → kind d ≡ dir_data i → block_read d' d ≡ block_read s.dev d
  data_read i d e =
      elsewhere d (c.there d (IsMeta-data (kind d) i e))
        (λ z. let clash : dir_data i ≡ unowned = sym e ∙ z in cc)
        (λ z. let clash : dir_data i ≡ file_inode = sym e ∙ ap kind z ∙ is in cc)
        (λ j z. let clash : dir_data i ≡ file_data x j = sym e ∙ z in cc)

  -- A step down from a directory.
  child-same :
      (i z : ℕ) (name : Name)
      → IsInodeKind (kind i)
      → child s.dev i name ≡ ok z
      → (child d' i name ≡ ok z) × IsInodeKind (kind z)
  unfolding child
  child-same i z name inode e =
      let goes = λ (dev : Device) (m : Inode).
        require (is_dir m.mode) enotdir >> (find_in_dir (is_named name) dev m >>= hit_or_enoent) in
      let (m, r, g) = >>=-eq-ok (read_inode s.dev i) (goes s.dev) e in
      elim (Bool-cases (is_dir m.mode)) [
        | inr no_dir ↦ let clash : ◌≡◌ {A = Outcome ℕ} (err enotdir) (ok z) = rw no_dir at g in cc
        | inl dir ↦
            let stored =
              Sound-ok (λ m. m ≡ inode_at s.dev i) (read_inode s.dev i) m
                (Sound-read_inode kind home s c i (inode-IsMeta (kind i) inode)) r in
            let (d, at, q) =
              inode-IsDirInode kind home s c i inode
                (ap (λ (m : Inode). is_dir m.mode) (sym stored) ∙ dir) in
            let (hit, found, named) =
              hit_from (find_in_dir (is_named name) s.dev m) z (rw dir at g) in
            let is_hit =
              Sound-ok (AllHit (is_named name) s d) (find_in_dir (is_named name) s.dev m) (some hit)
                (Sound-find_in_dir kind home s c (is_named name) m i d (rw stored q)) found in
            let read : read_inode d' i ≡ ok m =
              unfold read_inode in
              (ap (λ o. o >>= λ b. ok (decode_inode b)) (dir_read i d at) ∙ r) in
            let one : dir_blocks m.size ≡ 1 =
              unfold dir_blocks in
              (ap (λ (m : Inode). dir_blocks m.size) stored ∙ ap dir_blocks q.one_block) in
            let first : m.ptrs 0 ≡ d = ap (λ (m : Inode). m.ptrs 0) stored ∙ q.block_is in
            let search : find_in_dir (is_named name) d' m ≡ ok (some hit) =
              unfold find_in_dir in
              (find_from-cong (is_named name) s.dev d' m 0 (dir_blocks m.size) (λ j l k.
                  let zeroth : j ≡ 0 = omega (arith, one) in
                  rw (zeroth, first) (data_read i d q.owns))
                ∙ found) in
            (
              rw (read, dir, search) (ap ok named),
              rw named at ((hit_names kind home s c name i d hit q.owns is_hit).names_inode),
            )
      ]

  lookup-same :
      (names : List Name) (i z : ℕ)
      → IsInodeKind (kind i)
      → lookup s.dev i names ≡ ok z
      → lookup d' i names ≡ ok z
  unfolding lookup
  lookup-same [] i z inode e = e
  lookup-same (name ∷ names) i z inode e =
      let (j, f, g) = >>=-eq-ok (child s.dev i name) (λ k. lookup s.dev k names) e in
      let (f', inode') = child-same i j name inode f in rw f' (lookup-same names j z inode' g)

  -- Another file, by its path.
  other_read :
      (path : List ℕ) (y len offset : ℕ) (m : Inode) (bytes : List ℕ) (t : State)
      → t.dev ≡ d'
      → All IsReal (pathparse path)
      → IsShort path
      → translate s.dev path ≡ ok (y, m)
      → is_reg m.mode ≡ true
      → y ≢ x
      → s.dev.blocks ≤ d'.blocks
      → offset + len < 2 ^ 64
      → fs_read s path len offset ≡ ok bytes
      → fs_read t path len offset ≡ ok bytes
  unfolding fs_read
  other_read path y len offset m bytes t dev real short led reg ne grows small e =
      let (way, read) = lookup-translate s.dev path y m real short led in
      let root : IsInodeKind (kind root_inum) = rw c.root.1 tt in
      let way' = lookup-same (pathparse path) root_inum y root way in
      let (its, g) = file_at kind home s c path y m short led (is_reg-not_dir m.mode reg) in
      let inode_inside : y < s.dev.blocks = c.there y (rw its tt) in
      let inode_read =
        elsewhere y inode_inside (λ z. let clash : file_inode ≡ unowned = sym its ∙ z in cc) ne
          (λ j z. let clash : file_inode ≡ file_data x j = sym its ∙ z in cc) in
      let read' : read_inode d' y ≡ ok m =
        unfold read_inode in (ap (λ o. o >>= λ b. ok (decode_inode b)) inode_read ∙ read) in
      let led' : translate t.dev path ≡ ok (y, m) = rw dev (
        translate-lookup d' path real short
        ∙ ap (λ r. r >>= λ i. read_inode d' i >>= λ n. ok (i, n)) way'
        ∙ ap (λ r. r >>= λ n. ok (y, n)) read') in
      let before : read_at s.dev m (pos g.size) offset len ≡ ok bytes =
        ap (λ z. read_at s.dev m z offset len) (sym g.size_is) ∙ (rw (led, reg) at e) in
      let after =
        read_at-same s.dev d' m g.size offset len bytes
          (λ i b l r.
            let owned = g.owns i l in
            elsewhere (m.ptrs i) (readable s.dev (m.ptrs i) b r).0
              (λ z. let clash : file_data y i ≡ unowned = sym owned ∙ z in cc)
              (λ z. let clash : file_data y i ≡ file_inode = sym owned ∙ ap kind z ∙ is in cc)
              (λ j z. let clash : file_data y i ≡ file_data x j = sym owned ∙ z in ne cc)
            ∙ r)
          small before in
      rw (led', reg, dev) (ap (λ z. read_at d' m z offset len) g.size_is ∙ after)

-- On a consistent image, a write at a path of at most nine components to a file whose blocks and
-- bitmap are sound, with as many free blocks as it needs, that starts inside the file or at its end
-- and leaves it with no fewer blocks than it has, and at most 1019, succeeds, and what could be read
-- of another regular file by a path of at most nine components without dots reads the same afterwards.
pub fs_write-fs_read_other :
    (env : Env) (path path' buf bytes : List ℕ) (x y offset size m0 m len at : ℕ) (n n' : Inode)
    (map : Block) (s : State)
    → Consistent s
    → IsShort path
    → IsShort path'
    → All IsReal (pathparse path')
    → translate s.dev path ≡ ok (x, n)
    → translate s.dev path' ≡ ok (y, n')
    → y ≢ x
    → is_dir n.mode ≡ false
    → is_reg n'.mode ≡ true
    → n.size ≡ pos size
    → size < 2 ^ 31
    → offset ≤ size
    → (size + 4095) / 4096 ≡ m0
    → (offset + length buf + 4095) / 4096 ≡ m
    → m0 ≤ m
    → m ≤ 1019
    → IsFile x m0 n map s
    → IsStorage map s
    → used_in map 2 (s.super.disk_size - 2) + (m - m0) ≤ s.super.disk_size - 2
    → at + len < 2 ^ 64
    → fs_read s path' len at ≡ ok bytes
    → (t : State) × (fs_write env path buf offset s ≡ (ok (length buf), t))
      × (fs_read t path' len at ≡ ok bytes)
fs_write-fs_read_other env path path' buf bytes x y offset size m0 m len at n n' map s
      (kind, home, c) short short' real led led' ne file reg size_is fits at_most old inside more
      few sound storage room small e =
    let (t, ran, up) =
      fs_write-extends env path buf x offset size m0 m n map s led file size_is fits at_most old
        inside more few sound storage room in
    let (is, h) = file_at kind home s c path x n short led file in
    let sizes : pos h.size ≡ pos size = sym h.size_is ∙ size_is in
    let size_same : h.size ≡ size = cc in
    let count : (h.size + 4095) / 4096 ≡ m0 = omega arith in
    let same = same-IsElsewhere env x offset size m0 m n buf map s t more up in
    (
      t,
      ran,
      other_read kind home s c map storage.loaded x n is h t.dev (rw count same) path' y len at n'
          bytes t refl real short' led' reg ne up.grows small e,
    )
