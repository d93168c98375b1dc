-- ===== src/Rename/Renamed.antt =====
-- fs_rename where nothing stops it.
use cs5600_project_3_file_sy.Common.{
  ℕ, ◌≤◌, ◌<◌, ◌≡◌, ◌≢◌, refl, ap, ◌∙◌, List, All, length, arith, true, false, some, none, ◌==◌,
  ==_refl, str_eq, str_eq→eq, str_eq_refl, take_all,
}
use cs5600_project_3_file_sy.Outcome.{ok, einval, enotdir}
use cs5600_project_3_file_sy.Disk.Access.{
  block_read-block_write_ne, block_read-block_write_self, store-block_write_ne, readable,
}
use cs5600_project_3_file_sy.Format.{Inode, is_dir, set_name}
use cs5600_project_3_file_sy.Format.Strings.{IsChar}
use cs5600_project_3_file_sy.Format.Entries.{set_name_lem}
use cs5600_project_3_file_sy.Path.{Name, parent_of}
use cs5600_project_3_file_sy.Dir.{Hit, hit_inode, find_in_dir, dir_blocks, is_named}
use cs5600_project_3_file_sy.Dir.Search.{
  dir_block-intro, dir_block-ok, find_from-none, find_from-Found,
}
use cs5600_project_3_file_sy.Dir.Erase.{IsOnly}
use cs5600_project_3_file_sy.Translate.{translate}
use cs5600_project_3_file_sy.State.{State, ◌>>=◌, ◌>>◌, reads, lift, require}
use cs5600_project_3_file_sy.State.Runs.{
  reads-to, lift-to, require-to, put, IsWritable, block_write-put,
}
use cs5600_project_3_file_sy.Rename.{or_enoent, rename_from, fs_rename}
use cs5600_project_3_file_sy.Rename.Loop.{
  not_true, block_here, rename_from-to, dst_from, src_nowhere,
}

-- The old name is not in the directory any more, and the new one leads where it led; beside the block
-- of the entry the image is as it was, and so is all that is in memory.
pub record Renamed (parent : Inode) (src dst : Name) (h : Hit) (s t : State) : Type 0 where
  pub src_gone : find_in_dir (is_named src) t.dev parent ≡ ok none
  pub hit : Hit
  pub dst_found : find_in_dir (is_named dst) t.dev parent ≡ ok (some hit)
  pub same_inode : hit_inode hit ≡ hit_inode h
  pub others : (k : ℕ) → k ≢ h.lba → k < s.dev.blocks → t.dev.store k ≡ s.dev.store k
  pub bitmap_same : t.bitmap ≡ s.bitmap
  pub super_same : t.super ≡ s.super

-- Up to the loop.
fs_rename-loop :
    (src_path dst_path pp pp' : List ℕ) (src dst : Name) (found : ℕ × Inode) (pinum : ℕ)
    (parent : Inode) (s : State)
    → translate s.dev src_path ≡ ok found
    → parent_of src_path ≡ ok (pp, src)
    → parent_of dst_path ≡ ok (pp', dst)
    → translate s.dev pp ≡ ok (pinum, parent)
    → translate s.dev pp' ≡ ok (pinum, parent)
    → is_dir parent.mode ≡ true
    → fs_rename src_path dst_path s ≡ rename_from src dst parent false 0 (dir_blocks parent.size) s
unfolding fs_rename
fs_rename-loop src_path dst_path pp pp' src dst found pinum parent s e ps pd es ed dir =
    let loops = λ (src dst : Name) (parent : Inode).
      rename_from src dst parent false 0 (dir_blocks parent.size) in
    let guards = λ (src dst : Name) (a b : ℕ × Inode).
      require (a.0 == b.0) einval >> (require (is_dir b.1.mode) enotdir >> loops src dst b.1) in
    let dst_dir = λ (x y : List ℕ × Name) (a : ℕ × Inode).
      reads (λ s. or_enoent (translate s.dev y.0)) >>= guards x.1 y.1 a in
    let src_dir =
      λ (x y : List ℕ × Name). reads (λ s. or_enoent (translate s.dev x.0)) >>= dst_dir x y in
    let dst_name = λ (x : List ℕ × Name). lift (parent_of dst_path) >>= src_dir x in
    let src_name = λ (f : ℕ × Inode). lift (parent_of src_path) >>= dst_name in
    reads-to (λ s. or_enoent (translate s.dev src_path)) src_name s found (ap or_enoent e)
    ∙ lift-to (parent_of src_path) dst_name s (pp, src) ps
    ∙ lift-to (parent_of dst_path) (src_dir (pp, src)) s (pp', dst) pd
    ∙ reads-to (λ s. or_enoent (translate s.dev pp)) (dst_dir (pp, src) (pp', dst)) s
        (pinum, parent) (ap or_enoent es)
    ∙ reads-to (λ s. or_enoent (translate s.dev pp')) (guards src dst (pinum, parent)) s
        (pinum, parent) (ap or_enoent ed)
    ∙ require-to (pinum == pinum) einval
        (require (is_dir parent.mode) enotdir >> loops src dst parent) s (==_refl pinum)
    ∙ require-to (is_dir parent.mode) enotdir (loops src dst parent) s dir

-- Where both paths resolve to names in the same directory, which can be read, the entry of the old
-- name is its only one there, the new name, of at most 26 bytes, is not there, and the block of
-- the entry can be written, fs_rename succeeds: the new name leads to the inode that the old one
-- led to, the old one is gone, and no other block of the image and nothing in memory changes.
pub fs_rename-runs :
    (src_path dst_path pp pp' : List ℕ) (src dst : Name) (found : ℕ × Inode) (pinum : ℕ)
    (parent : Inode) (h : Hit) (s : State)
    → translate s.dev src_path ≡ ok found
    → parent_of src_path ≡ ok (pp, src)
    → parent_of dst_path ≡ ok (pp', dst)
    → translate s.dev pp ≡ ok (pinum, parent)
    → translate s.dev pp' ≡ ok (pinum, parent)
    → is_dir parent.mode ≡ true
    → find_in_dir (is_named src) s.dev parent ≡ ok (some h)
    → IsOnly s.dev parent src h
    → find_in_dir (is_named dst) s.dev parent ≡ ok none
    → All IsChar dst
    → length dst ≤ 26
    → IsWritable s.dev h.lba
    → (t : State) × (fs_rename src_path dst_path s ≡ (ok tt, t)) × Renamed parent src dst h s t
unfolding find_in_dir
fs_rename-runs src_path dst_path pp pp' src dst found pinum parent h s e ps pd es ed dir there only
      none_there chars short w =
    let hit = find_from-Found (is_named src) s.dev parent 0 (dir_blocks parent.size) h there in
    let slot : h.slot < 128 = omega (arith, hit.slot_first.in_range) in
    let (in_array, at, read) = dir_block-ok s.dev parent hit.index h.lba h.block hit.block_there in
    let absent = λ (j m : ℕ) (l : j < dir_blocks parent.size) (lt : m < 128).
      find_from-none (is_named dst) s.dev parent 0 (dir_blocks parent.size) none_there j
        (parent.ptrs j) (only.blocks j) (omega arith) (omega arith)
        (dir_block-intro s.dev parent j (only.blocks j) (omega (arith, only.in_array))
          (only.readable j l))
        m lt in
    let hit_in : hit.index < dir_blocks parent.size = omega (arith, hit.index_to) in
    let fits = take_all 26 dst short in
    let new = set_name h.block h.slot dst in
    let d' = put s.dev h.lba new in
    let t : State = record s { dev = d' } in
    let w1 = block_write-put s.dev h.lba new w in
    let (inside, good) = readable s.dev h.lba h.block only.hit_there in
    let written = block_read-block_write_self s.dev d' h.lba new w1 good in
    let same = λ (j : ℕ) (l : j < dir_blocks parent.size) (ne : parent.ptrs j ≢ h.lba).
      block_read-block_write_ne s.dev d' h.lba (parent.ptrs j) new w1 ne
        (readable s.dev (parent.ptrs j) (only.blocks j) (only.readable j l)).0 in
    let differ : str_eq dst src ≡ false = not_true (str_eq dst src) (λ q.
      let block =
        block_here s.dev parent src dst h only slot hit.slot_first.holds absent chars fits
          (str_eq_refl dst) hit.index hit_in at in
      let clash : is_named dst h.block h.slot ≡ false =
        rw block at (absent hit.index h.slot hit_in slot) in
      let is_src : is_named dst h.block h.slot ≡ true =
        ap (λ x. is_named x h.block h.slot) (str_eq→eq dst src q) ∙ hit.slot_first.holds in
      cc) in
    let runs : fs_rename src_path dst_path s ≡ (ok tt, t) =
      fs_rename-loop src_path dst_path pp pp' src dst found pinum parent s e ps pd es ed dir
      ∙ rename_from-to s.dev parent src dst h only slot hit.slot_first.holds absent chars fits
          (str_eq_refl dst) s 0 (dir_blocks parent.size) hit.index refl w (omega arith)
          (omega arith) (omega arith) at in
    (
      t,
      runs,
      record {
        src_gone =
            src_nowhere s.dev parent src dst h only slot hit.slot_first.holds absent chars fits
              (str_eq_refl dst) d' same written differ;
        hit = record { lba = h.lba; block = new; slot = h.slot };
        dst_found =
            dst_from s.dev parent src dst h only slot hit.slot_first.holds absent chars fits
              (str_eq_refl dst) d' same written 0 (dir_blocks parent.size) hit.index (omega arith)
              (omega arith) (omega arith) at;
        same_inode = (set_name_lem h.block h.slot dst slot chars).1;
        others = λ k ne l. store-block_write_ne s.dev d' h.lba k new w1 ne l;
        bitmap_same = refl;
        super_same = refl;
      },
    )
