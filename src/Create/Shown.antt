-- ===== src/Create/Shown.antt =====
-- fs_create and then fs_readdir of the parent.
use mathlib.Core.List.{Memᴰ}
use cs5600_project_3_file_sy.Common.{
  ℕ, ◌^◌, ◌≤◌, ◌<◌, ◌≡◌, sym, ap, ◌∙◌, List, All, true, false, arith, length, some, str_eq,
  str_eq→eq, ◌-◌, ◌*◌, ◌+◌, take_all,
}
use cs5600_project_3_file_sy.Outcome.{ok, ◌>>=◌}
use cs5600_project_3_file_sy.Disk.{Block, block_read}
use cs5600_project_3_file_sy.Bitmap.{has_bit}
use cs5600_project_3_file_sy.Format.{Inode, is_dir, decode_inode, entry_valid, entry_name}
use cs5600_project_3_file_sy.Format.Strings.{IsChar}
use cs5600_project_3_file_sy.Path.{Name, pathparse, parent_of}
use cs5600_project_3_file_sy.Dir.{read_inode, dir_blocks, is_named, find_in_dir}
use cs5600_project_3_file_sy.Dir.Search.{dir_block-ok, find_from-Found}
use cs5600_project_3_file_sy.Translate.{start, translate}
use cs5600_project_3_file_sy.Translate.Frame.{Trail, translate-frame}
use cs5600_project_3_file_sy.State.{State, Env}
use cs5600_project_3_file_sy.Query.{setstat, fs_readdir}
use cs5600_project_3_file_sy.Query.Slots.{IsListed}
use cs5600_project_3_file_sy.Query.Listed.{IsReadable, fs_readdir_lem}
use cs5600_project_3_file_sy.Create.{new_file, fs_create}
use cs5600_project_3_file_sy.Create.Entry.{IsSound}
use cs5600_project_3_file_sy.Create.Created.{Created, fs_create-Created}
use cs5600_project_3_file_sy.Create.Findable.{IsAside, parent_dir-to, same-IsAside, new_inode}
use cs5600_project_3_file_sy.Write.Reread.{translate-inode}

named_parts :
    (name : Name) (b : Block) (m : ℕ)
    → m < 128
    → length name ≤ 26
    → is_named name b m ≡ true
    → (entry_valid b m ≡ true) × (str_eq (entry_name b m) name ≡ true)
unfolding is_named
named_parts name b m l fits h =
    let room = take_all (4096 - (32 * m + 4)) name (omega arith) in ground (arith, room)

-- The new entry is one that fs_readdir shows.
entry_shown :
    (env : Env) (mode : ℕ) (parent : Inode) (name : Name) (map : Block) (s t : State)
    (done : Created env mode parent name map s t) (dir : IsReadable t.dev parent)
    → length name ≤ 26
    → read_inode t.dev done.inum ≡ ok (new_file env mode)
    → (j m : ℕ) × (j < dir_blocks parent.size)
      × (m < 128)
      × IsListed t.dev (dir.blocks j) m (name, setstat (new_file env mode))
unfolding find_in_dir
entry_shown env mode parent name map s t done dir fits inode =
    let hit =
      find_from-Found (is_named name) t.dev parent 0 (dir_blocks parent.size) done.hit done.found in
    let (in_array, at, read) =
      dir_block-ok t.dev parent hit.index done.hit.lba done.hit.block hit.block_there in
    let here : hit.index < dir_blocks parent.size = omega (arith, hit.index_to) in
    let block : ok (dir.blocks hit.index) ≡ ok done.hit.block =
      sym (dir.reads hit.index here) ∙ ap (block_read t.dev) at ∙ read in
    let same : done.hit.block ≡ dir.blocks hit.index = cc in
    let (valid, eq) =
      named_parts name done.hit.block done.hit.slot (omega (arith, hit.slot_first.in_range)) fits
        hit.slot_first.holds in
    let is_name : entry_name done.hit.block done.hit.slot ≡ name =
      str_eq→eq (entry_name done.hit.block done.hit.slot) name eq in
    (
      hit.index,
      done.hit.slot,
      here,
      omega (arith, hit.slot_first.in_range),
      rw (← same) (
        valid,
        (
          new_file env mode,
          ap (read_inode t.dev) done.leads_there ∙ inode,
          ap (λ (x : Name). (x, setstat (new_file env mode))) (sym is_name),
        ),
      ),
    )

-- If fs_create with a mode of 32 bits succeeds in a sound directory, with a name of at most 26
-- bytes, on a disk that the bitmap covers, with free blocks that can be read, and where the way to
-- the directory runs over blocks in use that are not the directory's own, and if the blocks of the
-- directory can be read afterwards and its valid entries hold inode numbers below 2^19 and names
-- that end inside the block, then fs_readdir of the parent path returns 0 and hands out the name
-- with the attributes of the new file.
pub fs_create-fs_readdir :
    (env : Env) (path pp : List ℕ) (name : Name) (mode pinum : ℕ) (parent : Inode) (map : Block)
    (s t : State)
    → parent_of path ≡ ok (pp, name)
    → All IsChar name
    → length name ≤ 26
    → translate s.dev pp ≡ ok (pinum, parent)
    → is_dir parent.mode ≡ true
    → s.bitmap ≡ some map
    → s.super.disk_size ≤ 32768
    → IsSound s map parent
    → Trail (IsAside s map parent) s.dev (pathparse pp) start
    → IsAside s map parent pinum
    → ((k : ℕ) → has_bit map k ≡ false → s.dev.bad_read k ≡ false)
    → mode < 2 ^ 32
    → fs_create env path mode s ≡ (ok tt, t)
    → IsReadable t.dev parent
    → ((fs_readdir t pp).1 ≡ ok tt) × Memᴰ (name, setstat (new_file env mode)) (fs_readdir t pp).0
fs_create-fs_readdir env path pp name mode pinum parent map s t p chars fits e dir b disk sound
      trail aside good small h there =
    let done =
      fs_create-Created env path mode s t map parent name
        (parent_dir-to path pp name pinum parent s p e dir) b disk sound chars fits h in
    let same = same-IsAside env mode parent name map s t done in
    let (old, read, is) = translate-inode s.dev pp pinum parent e in
    let again : read_inode t.dev pinum ≡ ok parent =
      unfold read_inode in
      (ap (λ r. r >>= λ b. ok (decode_inode b)) (same pinum aside ∙ read) ∙ ap ok (sym is)) in
    let found =
      translate-frame (IsAside s map parent) s.dev t.dev pp pinum parent parent same trail e
        again in
    let (ends, listed, items) = fs_readdir_lem pp pinum parent t found dir there in
    (
      ends,
      (listed (name, setstat (new_file env mode))).1 (
          entry_shown env mode parent name map s t done there fits
            (new_inode env mode parent name map s t done small good)),
    )
