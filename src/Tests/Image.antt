-- ===== src/Tests/Image.antt =====
-- A file system of 16 blocks: /a and /a/b are directories, /f is a file of 5000 bytes.
use Prim.Native.Char.{code}
use Prim.Native.String.{String}
use cs5600_project_3_file_sy.Common.{ℕ, ◌+◌, ◌%◌, false, List, [], ◌∷◌, some, ◌==◌, if◌then◌else◌}
use cs5600_project_3_file_sy.Common.Int.{pos}
use cs5600_project_3_file_sy.Disk.{Block, Device, zero_block}
use cs5600_project_3_file_sy.Format.{Inode, encode_inode, set_entry, s_ifdir, s_ifreg}
use cs5600_project_3_file_sy.Init.{fs_magic}
use cs5600_project_3_file_sy.State.{State, Env}

-- The bytes of an ASCII text.
abbrev pub codes : String → List ℕ
codes String.[] = []
codes (String.◌∷◌ c s) = code c ∷ codes s

abbrev pub env : Env
env = record { uid = 500; gid = 600; now = 1_000_000 }

-- Of a regular file or a directory, with one or two blocks.
abbrev pub inode : ℕ → ℕ → ℕ → ℕ → Inode
inode mode size p q = record {
  uid = 100;
  gid = 200;
  mode = mode;
  ctime = 7;
  mtime = 9;
  size = pos size;
  ptrs = λ i. if i == 0 then p else if i == 1 then q else 0;
}

abbrev pub dir_inode : ℕ → Inode
dir_inode p = inode (s_ifdir + 0o755) 4096 p 0

abbrev pub file_inode : Inode
file_inode = inode (s_ifreg + 0o644) 5000 7 9

abbrev pub super_block : Block
super_block o =
    if o == 0
    then 0x35
    else if o == 1
    then 0x36
    else if o == 2
    then 0x30
    else if o == 3
    then 0x30
    else if o == 4
    then 16
    else 0

abbrev pub map_block : Block
map_block o = if o == 0 then 255 else if o == 1 then 7 else 0

unfoldable pub root_entries : Block
unfolding set_entry
root_entries = set_entry (set_entry zero_block 0 4 (codes "a")) 3 6 (codes "f")

-- What the blocks hold.
unfoldable pub contents : ℕ → Block
unfolding encode_inode set_entry
contents k =
    if k == 0
    then super_block
    else if k == 1
    then map_block
    else if k == 2
    then encode_inode (dir_inode 3)
    else if k == 3
    then root_entries
    else if k == 4
    then encode_inode (dir_inode 5)
    else if k == 5
    then set_entry zero_block 1 8 (codes "b")
    else if k == 6
    then encode_inode file_inode
    else if k == 7
    then (λ o. o % 251)
    else if k == 8
    then encode_inode (dir_inode 10)
    else if k == 9
    then (λ o. (o + 4096) % 251)
    else zero_block

abbrev pub device : Device
device = record { blocks = 16; store = contents; bad_read = λ k. false; bad_write = λ k. false }

abbrev pub state : State
state = record {
  dev = device;
  super = record { magic = fs_magic; disk_size = 16 };
  bitmap = some map_block;
}
