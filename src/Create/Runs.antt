-- ===== src/Create/Runs.antt =====
-- The parts of fs_create run forward, and fs_create as a whole where nothing stops it.
use cs5600_project_3_file_sy.Common.{
  ℕ, ◌≤◌, ◌<◌, ◌≡◌, ◌≢◌, inl, inr, sym, ap, ◌∙◌, List, All, length, arith, true, false, not, some,
  none, ◌==◌, ==_ne,
}
use cs5600_project_3_file_sy.Outcome.{ok, enospc, eexist}
use cs5600_project_3_file_sy.Disk.{Block, Device, block_write}
use cs5600_project_3_file_sy.Disk.Access.{block_read-block_write_ne}
use cs5600_project_3_file_sy.Bitmap.{has_bit, with_bit, first_free}
use cs5600_project_3_file_sy.Bitmap.Free.{first_free_lem}
use cs5600_project_3_file_sy.Format.{Inode, encode_inode, set_entry}
use cs5600_project_3_file_sy.Format.Strings.{IsChar}
use cs5600_project_3_file_sy.Path.{Name}
use cs5600_project_3_file_sy.Dir.{Hit, find_in_dir, dir_blocks, is_named, is_unused}
use cs5600_project_3_file_sy.Dir.Insert.{find_from-cong}
use cs5600_project_3_file_sy.State.{
  State, Env, M, ◌>>=◌, ◌>>◌, require, reads, lift, ignore, on_error, put_device, clear_bit,
  write_block, set_bit, save_bitmap,
}
use cs5600_project_3_file_sy.State.Steps.{next}
use cs5600_project_3_file_sy.State.Runs.{
  bind-to, set_bit-to, reads-to, put, IsWritable, block_write-put, write_block-to,
}
use cs5600_project_3_file_sy.Create.{
  parent_dir, is_none, write_entry, require_absent, take_block, write_or_undo, add_entry, new_file,
  fs_create,
}
use cs5600_project_3_file_sy.Create.Parts.{taken}
use cs5600_project_3_file_sy.Create.Entry.{IsSound, used-ne_free}
use cs5600_project_3_file_sy.Create.Created.{Created, fs_create-Created}

pub absent-passes :
    (parent : Inode) (name : Name) (s : State)
    → find_in_dir (is_named name) s.dev parent ≡ ok none
    → require_absent parent name s ≡ (ok tt, s)
unfolding require_absent
absent-passes parent name s h = ap (λ r. next (λ found. require (is_none found) eexist) (r, s)) h

saves :
    (s : State) (map : Block) (i : ℕ) (d : Device)
    → block_write s.dev 1 (with_bit map i) ≡ ok d
    → save_bitmap (record s { bitmap = some (with_bit map i) }) ≡ (ok tt, taken s map i d)
unfolding save_bitmap write_block
saves s map i d w = ap (put_device (record s { bitmap = some (with_bit map i) })) w

pub takes :
    (s : State) (map : Block) (i : ℕ) (d : Device)
    → s.bitmap ≡ some map
    → first_free (some map) s.super.disk_size ≡ ok i
    → i ≢ 0
    → i < 32768
    → block_write s.dev 1 (with_bit map i) ≡ ok d
    → take_block s ≡ (ok i, taken s map i d)
unfolding take_block
takes s map i d b found z small w =
    let marked : State = record s { bitmap = some (with_bit map i) } in
    let finish = λ (inum : ℕ). save_bitmap >> lift (ok inum) in
    let mark = λ (inum : ℕ). set_bit inum >> finish inum in
    bind-to (reads (λ u. first_free u.bitmap u.super.disk_size))
      (λ inum. require (not (inum == 0)) enospc >> mark inum) s s i
      (ap (λ m. (first_free m s.super.disk_size, s)) b ∙ ap (λ r. (r, s)) found)
    ∙ bind-to (require (not (i == 0)) enospc) (λ _. mark i) s s tt (rw (==_ne i 0 z))
    ∙ bind-to (set_bit i) (λ _. finish i) s marked tt (set_bit-to i map s b small)
    ∙ bind-to save_bitmap (λ _. lift (ok i)) marked (taken s map i d) tt (saves s map i d w)

pub writes :
    (i : ℕ) (b : Block) (undo : M (Unit {0})) (s : State) (d : Device)
    → block_write s.dev i b ≡ ok d
    → write_or_undo i b undo s ≡ (ok tt, record s { dev = d })
unfolding write_or_undo write_block
writes i b undo s d w = ap (λ r. on_error (λ _. put_device s r) (undo >> ignore save_bitmap) s) w

adds :
    (parent : Inode) (name : Name) (i : ℕ) (s : State) (h : Hit)
    → find_in_dir is_unused s.dev parent ≡ ok (some h)
    → IsWritable s.dev h.lba
    → (t : State) × (add_entry parent name i enospc s ≡ (ok tt, t))
unfolding add_entry
adds parent name i s h e w = (
  _,
  reads-to (λ s. find_in_dir is_unused s.dev parent) (write_entry i name enospc) s (some h) e
      ∙ write_block-to h.lba (set_entry h.block h.slot i name) s w,
)

-- A free block of the disk is enough for the search to find one.
pub finds_free :
    (map : Block) (disk_size free : ℕ)
    → disk_size ≤ 32768
    → 2 ≤ free
    → free < disk_size
    → has_bit map free ≡ false
    → (i : ℕ) × (first_free (some map) disk_size ≡ ok i)
      × (2 ≤ i)
      × (i < disk_size)
      × (has_bit map i ≡ false)
finds_free map disk_size free d l m f =
    let (i, e, r) = first_free_lem map disk_size d in
    elim r [
      | inl (z, all) ↦ let clash : true ≡ false = sym (all free l m) ∙ f in cc
      | inr (from, to, clear, all) ↦ (i, e, from, to, clear)
    ]

-- In a sound directory that does not have the name and has an unused entry, with a free block on a
-- disk that the bitmap covers, where the bitmap block, the free blocks and the block of the entry can
-- be written, fs_create succeeds, for a name of at most 26 bytes.
pub fs_create-runs :
    (env : Env) (path : List ℕ) (mode free : ℕ) (s : State) (map : Block) (parent : Inode)
    (name : Name) (h : Hit)
    → parent_dir path s ≡ (ok (parent, name), s)
    → s.bitmap ≡ some map
    → s.super.disk_size ≤ 32768
    → IsSound s map parent
    → All IsChar name
    → length name ≤ 26
    → find_in_dir (is_named name) s.dev parent ≡ ok none
    → find_in_dir is_unused s.dev parent ≡ ok (some h)
    → 2 ≤ free
    → free < s.super.disk_size
    → has_bit map free ≡ false
    → IsWritable s.dev 1
    → ((k : ℕ) → 2 ≤ k → k < s.super.disk_size → has_bit map k ≡ false → IsWritable s.dev k)
    → IsWritable s.dev h.lba
    → (t : State) × (fs_create env path mode s ≡ (ok tt, t)) × Created env mode parent name map s t
unfolding fs_create find_in_dir
fs_create-runs env path mode free s map parent name h p b disk sound chars fits absent unused two
      below clear map_ok free_ok entry_ok =
    let (i, found, from, to, is_free) =
      finds_free map s.super.disk_size free disk two below clear in
    let d1 = put s.dev 1 (with_bit map i) in
    let inode = encode_inode (new_file env mode) in
    let d2 = put d1 i inode in
    let w1 = block_write-put s.dev 1 (with_bit map i) map_ok in
    let i_ok = free_ok i from to is_free in
    let w2 =
      block_write-put d1 i inode
        (record { positive = i_ok.positive; addressable = i_ok.addressable; good = i_ok.good }) in
    let mid : State = taken s map i d1 in
    let last : State = record mid { dev = d2 } in
    let same : find_in_dir is_unused d2 parent ≡ ok (some h) =
      find_from-cong is_unused s.dev d2 parent 0 (dir_blocks parent.size) (λ j l m.
        block_read-block_write_ne d1 d2 i (parent.ptrs j) inode w2
          (used-ne_free map (parent.ptrs j) i (sound.used j (omega arith)) is_free)
          (omega (arith, sound.inside j (omega arith)))
        ∙ block_read-block_write_ne s.dev d1 1 (parent.ptrs j) (with_bit map i) w1
            (omega (arith, sound.apart j (omega arith))) (sound.inside j (omega arith)))
      ∙ unused in
    let (t, added) = adds parent name i last h same (record {
      positive = entry_ok.positive;
      addressable = entry_ok.addressable;
      good = entry_ok.good;
    }) in
    let link = λ (r : Inode × Name) (inum : ℕ). add_entry r.0 r.1 inum enospc in
    let file = λ (r : Inode × Name) (inum : ℕ).
      write_or_undo inum (encode_inode (new_file env mode)) (clear_bit inum) >> link r inum in
    let whole : fs_create env path mode s ≡ (ok tt, t) =
      bind-to (parent_dir path) (λ r. require_absent r.0 r.1 >> (take_block >>= file r)) s s
        (parent, name) p
      ∙ bind-to (require_absent parent name) (λ _. take_block >>= file (parent, name)) s s tt
          (absent-passes parent name s absent)
      ∙ bind-to take_block (file (parent, name)) s mid i
          (takes s map i d1 b found (omega arith) (omega arith) w1)
      ∙ bind-to (write_or_undo i inode (clear_bit i)) (λ _. link (parent, name) i) mid last tt
          (writes i inode (clear_bit i) mid d2 w2)
      ∙ added in
    (t, whole, fs_create-Created env path mode s t map parent name p b disk sound chars fits whole)
