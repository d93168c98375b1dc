-- ===== src/Create/Made.antt =====
-- fs_mkdir where nothing stops it.
use cs5600_project_3_file_sy.Common.{ℕ, ◌≤◌, ◌<◌, ◌≡◌, All, length, false, some, none}
use cs5600_project_3_file_sy.Outcome.{ok}
use cs5600_project_3_file_sy.Disk.{Block, Device, zero_block}
use cs5600_project_3_file_sy.Bitmap.{has_bit, with_bit}
use cs5600_project_3_file_sy.Format.{Inode, encode_inode, set_entry}
use cs5600_project_3_file_sy.Format.Strings.{IsChar}
use cs5600_project_3_file_sy.Path.{Name}
use cs5600_project_3_file_sy.Dir.{Hit, find_in_dir, is_named, is_unused, hit_inode}
use cs5600_project_3_file_sy.State.{State, Env}
use cs5600_project_3_file_sy.State.Runs.{put, IsWritable}
use cs5600_project_3_file_sy.Create.{new_dir}
use cs5600_project_3_file_sy.Create.Entry.{IsSound}

-- What a successful call has done.
pub record Made (env : Env) (mode : ℕ) (parent : Inode) (name : Name) (map : Block) (s t : State)
    : Type 0 where
  pub dir_inum : ℕ
  pub data_block : ℕ
  pub inum_free : has_bit map dir_inum ≡ false
  pub data_free : has_bit map data_block ≡ false
  pub from : 2 ≤ dir_inum
  pub different : dir_inum < data_block
  pub to : data_block < s.super.disk_size
  pub marked : t.bitmap ≡ some (with_bit (with_bit map dir_inum) data_block)
  pub saved : t.dev.store 1 ≡ with_bit (with_bit map dir_inum) data_block
  pub inode_there : t.dev.store dir_inum ≡ encode_inode (new_dir env mode data_block)
  pub entries_there : t.dev.store data_block ≡ zero_block
  pub hit : Hit
  pub found : find_in_dir (is_named name) t.dev parent ≡ ok (some hit)
  pub leads_there : hit_inode hit ≡ dir_inum

module _ (env : Env) (mode : ℕ) (s : State) (map : Block) (parent : Inode) (name : Name) (a b : ℕ)
    (h : Hit) (sound : IsSound s map parent) (from : 2 ≤ a) (below : a < b)
    (to : b < s.super.disk_size) (disk : s.super.disk_size ≤ 32768) (free_a : has_bit map a ≡ false)
    (free_b : has_bit map b ≡ false) (chars : All IsChar name) (fits : length name ≤ 26)
    (map_ok : IsWritable s.dev 1) (a_ok : IsWritable s.dev a) (b_ok : IsWritable s.dev b)
    (entry_ok : IsWritable s.dev h.lba)
    (absent : find_in_dir (is_named name) s.dev parent ≡ ok none)
    (unused : find_in_dir is_unused s.dev parent ≡ ok (some h)) where
  abbrev bits : Block
  bits = with_bit (with_bit map a) b

  abbrev inode : Block
  inode = encode_inode (new_dir env mode b)

  abbrev d1 : Device
  d1 = put s.dev 1 bits

  abbrev d2 : Device
  d2 = put d1 a inode

  abbrev d3 : Device
  d3 = put d2 b zero_block

  abbrev d4 : Device
  d4 = put d3 h.lba (set_entry h.block h.slot a name)
