-- ===== src/Create/Errors.antt =====
-- fs_create and fs_mkdir where the name is taken, and fs_create where the directory is full.
use cs5600_project_3_file_sy.Common.{
  ℕ, ◌≤◌, ◌<◌, ◌≡◌, ◌≢◌, refl, List, true, false, not, some, none, ap, ◌∙◌, arith,
}
use cs5600_project_3_file_sy.Outcome.{Errno, ok, err, eexist, enospc, eopnotsupp}
use cs5600_project_3_file_sy.Disk.{Block, zero_block}
use cs5600_project_3_file_sy.Disk.Access.{block_read-block_write_ne}
use cs5600_project_3_file_sy.Bitmap.{has_bit, with_bit}
use cs5600_project_3_file_sy.Format.{Inode, encode_inode, is_dir, entry_valid, entry_name}
use cs5600_project_3_file_sy.Path.{Name, parent_of}
use cs5600_project_3_file_sy.Dir.{Hit, find_in_dir, dir_blocks, is_named, is_unused}
use cs5600_project_3_file_sy.Dir.Hits.{
  IsOpen, named_entry, other_entry, find_in_dir-open, find_in_dir-nowhere,
}
use cs5600_project_3_file_sy.Dir.Insert.{find_from-cong}
use cs5600_project_3_file_sy.Translate.{translate}
use cs5600_project_3_file_sy.Write.Loop.{stored_self, stored_ne}
use cs5600_project_3_file_sy.State.{State, Env, ◌>>=◌, ◌>>◌, require, clear_bit}
use cs5600_project_3_file_sy.State.Steps.{next}
use cs5600_project_3_file_sy.State.Runs.{bind-to, bind-fails, put, IsWritable, block_write-put}
use cs5600_project_3_file_sy.Create.{
  parent_dir, is_none, write_entry, require_absent, take_block, write_or_undo, add_entry, new_file,
  new_dir, take_two, fs_create, fs_mkdir,
}
use cs5600_project_3_file_sy.Create.Parts.{taken}
use cs5600_project_3_file_sy.Create.Runs.{absent-passes, takes, writes, finds_free}
use cs5600_project_3_file_sy.Create.Entry.{IsSound, used-ne_free}
use cs5600_project_3_file_sy.Create.Findable.{parent_dir-to}

absent-stops :
    (parent : Inode) (name : Name) (s : State) (hit : Hit)
    → find_in_dir (is_named name) s.dev parent ≡ ok (some hit)
    → require_absent parent name s ≡ (err eexist, s)
unfolding require_absent
absent-stops parent name s hit h = ap (λ r. next (λ found. require (is_none found) eexist) (r, s)) h

-- Where an entry of the directory has the name, fs_create and fs_mkdir return -EEXIST and change
-- nothing: the path leads to a directory whose blocks can be read, and the names of whose valid
-- entries end inside their blocks.
pub create_mkdir-eexist :
    (env : Env) (path pp : List ℕ) (name : Name) (mode pinum : ℕ) (parent : Inode) (s : State)
    (j m : ℕ)
    → parent_of path ≡ ok (pp, name)
    → translate s.dev pp ≡ ok (pinum, parent)
    → is_dir parent.mode ≡ true
    → (dir : IsOpen s.dev parent) → j < dir_blocks parent.size
    → m < 128
    → entry_valid (dir.blocks j) m ≡ true
    → entry_name (dir.blocks j) m ≡ name
    → (fs_create env path mode s ≡ (err eexist, s)) × (fs_mkdir env path mode s ≡ (err eexist, s))
unfolding fs_create fs_mkdir
create_mkdir-eexist env path pp name mode pinum parent s j m parts led is dir l small v e =
    let (hit, there) =
      find_in_dir-open (is_named name) s.dev parent dir j m l small
        (named_entry name (dir.blocks j) m v (dir.ends j m l small v) e) in
    let p = parent_dir-to path pp name pinum parent s parts led is in
    let stop = absent-stops parent name s hit there in
    let file = λ (r : Inode × Name). take_block >>= λ inum.
    write_or_undo inum (encode_inode (new_file env mode)) (clear_bit inum)
    >> add_entry r.0 r.1 inum enospc in
    let made = λ (r : Inode × Name). take_two >>= λ x.
    write_or_undo x.0 (encode_inode (new_dir env mode x.1)) (clear_bit x.0 >> clear_bit x.1)
    >> (write_or_undo x.1 zero_block (clear_bit x.0 >> clear_bit x.1)
        >> add_entry r.0 r.1 x.0 eopnotsupp) in
    (
      bind-to (parent_dir path) (λ r. require_absent r.0 r.1 >> file r) s s (parent, name) p
          ∙ bind-fails (require_absent parent name) (λ _. file (parent, name)) s s eexist stop,
      bind-to (parent_dir path) (λ r. require_absent r.0 r.1 >> made r) s s (parent, name) p
          ∙ bind-fails (require_absent parent name) (λ _. made (parent, name)) s s eexist stop,
    )

add-stops :
    (parent : Inode) (name : Name) (i : ℕ) (e : Errno) (s : State)
    → find_in_dir is_unused s.dev parent ≡ ok none
    → add_entry parent name i e s ≡ (err e, s)
unfolding add_entry
add-stops parent name i e s h = ap (λ r. next (write_entry i name e) (r, s)) h

-- What fs_create leaves when it finds no entry: the first free block is marked, in memory and on the
-- disk, and holds the inode.
pub record Leaked (env : Env) (mode : ℕ) (map : Block) (s t : State) : Type 0 where
  pub inum : ℕ
  pub from : 2 ≤ inum
  pub to : inum < s.super.disk_size
  pub was_free : has_bit map inum ≡ false
  pub stored : t.dev.store inum ≡ encode_inode (new_file env mode)
  pub marked : t.bitmap ≡ some (with_bit map inum)
  pub saved : t.dev.store 1 ≡ with_bit map inum

-- In a directory whose blocks can be read and are in use, that does not have the name and whose
-- entries are all valid, with a free block on a disk that the bitmap covers, where the bitmap block
-- and the free blocks can be written, fs_create returns -ENOSPC and takes nothing back: a block that
-- was free is marked in memory and on the disk, and holds the inode.
pub fs_create-enospc :
    (env : Env) (path pp : List ℕ) (name : Name) (mode pinum free : ℕ) (s : State) (map : Block)
    (parent : Inode)
    → parent_of path ≡ ok (pp, name)
    → translate s.dev pp ≡ ok (pinum, parent)
    → is_dir parent.mode ≡ true
    → s.bitmap ≡ some map
    → s.super.disk_size ≤ 32768
    → IsSound s map parent
    → (dir : IsOpen s.dev parent)
    → ((j m : ℕ)
        → j < dir_blocks parent.size
        → m < 128
        → (entry_valid (dir.blocks j) m ≡ true) × (entry_name (dir.blocks j) m ≢ name))
    → 2 ≤ free
    → free < s.super.disk_size
    → has_bit map free ≡ false
    → IsWritable s.dev 1
    → ((k : ℕ) → 2 ≤ k → k < s.super.disk_size → has_bit map k ≡ false → IsWritable s.dev k)
    → (t : State) × (fs_create env path mode s ≡ (err enospc, t)) × Leaked env mode map s t
unfolding fs_create find_in_dir is_unused
fs_create-enospc env path pp name mode pinum free s map parent parts led is b disk sound dir full
      two below clear map_ok free_ok =
    let (i, found, from, to, is_free) =
      finds_free map s.super.disk_size free disk two below clear in
    let inode = encode_inode (new_file env mode) in
    let d1 = put s.dev 1 (with_bit map i) in
    let d2 = put d1 i inode in
    let w1 = block_write-put s.dev 1 (with_bit map i) map_ok in
    let i_ok = free_ok i from to is_free in
    let w2 =
      block_write-put d1 i inode
        (record { positive = i_ok.positive; addressable = i_ok.addressable; good = i_ok.good }) in
    let mid : State = taken s map i d1 in
    let last : State = record mid { dev = d2 } in
    let absent = find_in_dir-nowhere (is_named name) s.dev parent dir (λ j m l small.
      other_entry name (dir.blocks j) m (λ v. (dir.ends j m l small v, (full j m l small).1))) in
    let none_unused =
      find_in_dir-nowhere is_unused s.dev parent dir (λ j m l small. ap not (full j m l small).0) in
    let same : find_in_dir is_unused d2 parent ≡ ok none =
      find_from-cong is_unused s.dev d2 parent 0 (dir_blocks parent.size) (λ j l m.
        block_read-block_write_ne d1 d2 i (parent.ptrs j) inode w2
          (used-ne_free map (parent.ptrs j) i (sound.used j (omega arith)) is_free)
          (omega (arith, sound.inside j (omega arith)))
        ∙ block_read-block_write_ne s.dev d1 1 (parent.ptrs j) (with_bit map i) w1
            (omega (arith, sound.apart j (omega arith))) (sound.inside j (omega arith)))
      ∙ none_unused in
    let link = λ (r : Inode × Name) (inum : ℕ). add_entry r.0 r.1 inum enospc in
    let file = λ (r : Inode × Name) (inum : ℕ).
      write_or_undo inum (encode_inode (new_file env mode)) (clear_bit inum) >> link r inum in
    (
      last,
      bind-to (parent_dir path) (λ r. require_absent r.0 r.1 >> (take_block >>= file r)) s s
            (parent, name) (parent_dir-to path pp name pinum parent s parts led is)
          ∙ bind-to (require_absent parent name) (λ _. take_block >>= file (parent, name)) s s tt
              (absent-passes parent name s absent)
          ∙ bind-to take_block (file (parent, name)) s mid i
              (takes s map i d1 b found (omega arith) (omega arith) w1)
          ∙ bind-to (write_or_undo i inode (clear_bit i)) (λ _. link (parent, name) i) mid last tt
              (writes i inode (clear_bit i) mid d2 w2)
          ∙ add-stops parent name i enospc last same,
      record {
        inum = i;
        from = from;
        to = to;
        was_free = is_free;
        stored = stored_self d1 i inode;
        marked = refl;
        saved =
            stored_ne d1 i 1 inode (omega arith) (omega arith)
            ∙ stored_self s.dev 1 (with_bit map i);
      },
    )
