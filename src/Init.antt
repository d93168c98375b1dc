-- ===== src/Init.antt =====
-- homework.c: fs_init, which FUSE calls once. It returns NULL on every branch; what it does is to
-- the globals. That `malloc` finds 4096 bytes is assumed.
use cs5600_project_3_file_sy.Common.{ℕ, List, Option, none, some, ◌==◌, if◌then◌else◌}
use cs5600_project_3_file_sy.Outcome.{ok, err, crash}
use cs5600_project_3_file_sy.Disk.{Device, block_read}
use cs5600_project_3_file_sy.Disk.Open.{block_init}
use cs5600_project_3_file_sy.Format.{decode_super}
use cs5600_project_3_file_sy.State.{State}

-- FS_MAGIC
abbrev pub fs_magic : ℕ
fs_magic = 0x30303635

-- The bitmap block, once the superblock is there.
unfoldable pub load_bitmap : State → State
load_bitmap s = elim (block_read s.dev 1) [
  | ok b ↦ record s { bitmap = some b }
  | err e ↦ s
  | crash ↦ s
]

-- `bitmap` is null before the call, as a static is, and stays so where the call stops early.
unfoldable pub fs_init : State → State
fs_init s = elim (block_read s.dev 0) [
  | ok b ↦
      let t : State = record s { super = decode_super b } in
      if t.super.magic == fs_magic then load_bitmap t else t
  | err e ↦ s
  | crash ↦ s
]

-- The globals of a process that has just opened the image: statics are zero.
abbrev pub fresh : Device → State
fresh d = record { dev = d; super = record { magic = 0; disk_size = 0 }; bitmap = none }

-- `block_init(image_name)`, and then the call of `init` by FUSE.
unfoldable pub start_up : (List ℕ → Option Device) → List ℕ → Option State
start_up open_image file = elim (block_init open_image file) [
  | none ↦ none
  | some d ↦ some (fs_init (fresh d))
]
