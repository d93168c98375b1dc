-- ===== src/Layout.antt =====
-- Who owns which block of an image, and when an image is consistent: each block has one owner, what
-- is owned is marked in the bitmap, and what an inode or an entry names is owned by it.
pub mod Frame
pub mod Owners
pub mod Walk
pub mod Entry
pub mod Resaved
pub mod Steps
pub mod Parent
pub mod Taken
pub mod Linked
pub mod Created
pub mod Two
pub mod Made
pub mod Modes
pub mod Touched
pub mod Disowned
pub mod Released
pub mod Emptied
pub mod Agreement
pub mod Erased
pub mod Unlinked
pub mod Renamed
pub mod Grown
pub mod Filled
pub mod Written
pub mod Session
pub mod Isolated
pub mod Queries
use cs5600_project_3_file_sy.Common.{ℕ, ◌+◌, ◌*◌, ◌/◌, ◌≤◌, ◌<◌, ◌≡◌, ◌≢◌, Bool, true, false, some}
use cs5600_project_3_file_sy.Common.Int.{pos}
use cs5600_project_3_file_sy.Disk.{Block, Device}
use cs5600_project_3_file_sy.Bitmap.{has_bit}
use cs5600_project_3_file_sy.Format.{Inode, decode_inode, is_dir, entry_valid, entry_inode}
use cs5600_project_3_file_sy.Format.Entries.{IsTerminated}
use cs5600_project_3_file_sy.State.{State}

-- The use of a block: a directory's inode with its one block of entries, that block, a file's inode,
-- or the data block at an index of a file.
pub data Kind : Type 0 where
  unowned file_inode : Kind
  dir_inode dir_data : ℕ → Kind
  file_data : ℕ → ℕ → Kind

-- An inode that an entry can name.
abbrev pub IsInodeKind : Kind → Type 0
IsInodeKind unowned = ⊥
IsInodeKind file_inode = Unit
IsInodeKind (dir_inode d) = Unit
IsInodeKind (dir_data i) = ⊥
IsInodeKind (file_data i j) = ⊥

-- A block whose contents matter.
abbrev pub IsMeta : Kind → Type 0
IsMeta unowned = ⊥
IsMeta file_inode = Unit
IsMeta (dir_inode d) = Unit
IsMeta (dir_data i) = Unit
IsMeta (file_data i j) = ⊥

-- The inode in a block.
abbrev pub inode_at : Device → ℕ → Inode
inode_at d i = decode_inode (d.store i)

pub record IsDirInode (kind : ℕ → Kind) (n : Inode) (i d : ℕ) : Type 0 where
  pub is_directory : is_dir n.mode ≡ true
  pub one_block : n.size ≡ pos 4096
  pub block_is : n.ptrs 0 ≡ d
  pub owns : kind d ≡ dir_data i

pub record IsFileInode (kind : ℕ → Kind) (n : Inode) (i : ℕ) : Type 0 where
  pub no_directory : is_dir n.mode ≡ false
  pub size : ℕ
  pub size_is : n.size ≡ pos size
  pub small : size ≤ 1019 * 4096
  pub owns : (j : ℕ) → j < (size + 4095) / 4096 → kind (n.ptrs j) ≡ file_data i j

-- Entry `k` of block `b` names `x`.
pub record IsEntry (kind : ℕ → Kind) (home : ℕ → ℕ × ℕ) (b k x : ℕ) : Type 0 where
  pub names_inode : IsInodeKind (kind x)
  pub at_home : home x ≡ (b, k)
  pub not_root : x ≢ 2

-- `home` is the block and the slot of the one entry that can name an inode.
pub record IsConsistent (kind : ℕ → Kind) (home : ℕ → ℕ × ℕ) (s : State) : Type 0 where
  pub map : Block
  pub loaded : s.bitmap ≡ some map
  pub covered : s.super.disk_size ≤ 32768
  pub in_range : (k : ℕ) → kind k ≢ unowned → (2 ≤ k) × (k < s.super.disk_size)
  pub marked : (k : ℕ) → kind k ≢ unowned → has_bit map k ≡ true
  pub there : (k : ℕ) → IsMeta (kind k) → k < s.dev.blocks
  pub root : (d : ℕ) × (kind 2 ≡ dir_inode d)
  pub dirs : (i d : ℕ) → kind i ≡ dir_inode d → IsDirInode kind (inode_at s.dev i) i d
  pub files : (i : ℕ) → kind i ≡ file_inode → IsFileInode kind (inode_at s.dev i) i
  pub entries :
      (i b k : ℕ)
      → kind b ≡ dir_data i
      → k < 128
      → entry_valid (s.dev.store b) k ≡ true
      → IsEntry kind home b k (entry_inode (s.dev.store b) k)
  pub ends :
      (i b k : ℕ)
      → kind b ≡ dir_data i
      → k < 128
      → entry_valid (s.dev.store b) k ≡ true
      → IsTerminated (s.dev.store b) k

-- The same for some owners.
abbrev pub Consistent : State → Type 0
Consistent s = (kind : ℕ → Kind) × (home : ℕ → ℕ × ℕ) × IsConsistent kind home s
