-- ===== src/Tests/Entries.antt =====
-- fs_create and fs_mkdir of a name in /a, on the test image.
use cs5600_project_3_file_sy.Common.{
  ℕ, ◌+◌, ◌≤◌, ◌<◌, ◌≡◌, ◌≢◌, refl, ◌∷◌, length, arith, true, false, none, some,
}
use cs5600_project_3_file_sy.Outcome.{ok}
use cs5600_project_3_file_sy.Disk.{block_read}
use cs5600_project_3_file_sy.Bitmap.{has_bit}
use cs5600_project_3_file_sy.Format.{
  decode_inode, encode_inode, set_entry, set_name, set_word, is_dir, c_string, entry_valid,
  entry_inode, entry_name, s_ifreg,
}
use cs5600_project_3_file_sy.Path.{
  slash, skip_slashes, cut, strtok, tokens, pathparse, resolve_step, resolve_from, resolve_path,
  join, split_last, parent_of,
}
use cs5600_project_3_file_sy.Dir.{
  Hit, dir_blocks, ptr_at, find_slot, find_from, find_in_dir, is_named, is_unused,
}
use cs5600_project_3_file_sy.Translate.{start}
use cs5600_project_3_file_sy.Translate.Frame.{Trail}
use cs5600_project_3_file_sy.State.{State}
use cs5600_project_3_file_sy.Query.{fs_getattr, setstat}
use cs5600_project_3_file_sy.Create.{fs_create, new_file}
use cs5600_project_3_file_sy.Create.Created.{Created}
use cs5600_project_3_file_sy.Create.Runs.{fs_create-runs}
use cs5600_project_3_file_sy.Create.Made.{Made}
use cs5600_project_3_file_sy.Create.Findable.{IsAside, fs_create-fs_getattr}
use cs5600_project_3_file_sy.Tests.Calls.{
  dir_a, a_parent, a_ptr, a-IsSound, a_found, after_create, create_succeeds,
}
use cs5600_project_3_file_sy.Tests.Growth.{
  block-IsWritable, IsKept-at, root_read, root_one, root_ptr,
}
use cs5600_project_3_file_sy.Tests.Refusals.{root_inode}
use cs5600_project_3_file_sy.Tests.Image.{
  codes, env, device, contents, root_entries, map_block, state,
}

-- The first entry of /a is unused.
abbrev first_entry : Hit
first_entry = record { lba = 5; block = contents 5; slot = 0 }

new_absent : find_in_dir (is_named (codes "new")) device dir_a ≡ ok none
unfolding find_in_dir find_from dir_blocks ptr_at find_slot is_named entry_valid entry_inode
    entry_name c_string contents root_entries encode_inode decode_inode set_entry set_name set_word
    block_read
new_absent = refl

entry_unused : find_in_dir is_unused device dir_a ≡ ok (some first_entry)
unfolding find_in_dir find_from dir_blocks ptr_at find_slot is_unused entry_valid contents
    root_entries encode_inode decode_inode set_entry set_name set_word block_read
entry_unused = refl

eleven_free : has_bit map_block 11 ≡ false
unfolding has_bit
eleven_free = refl

fs_create-runs_example :
    (t : State) × (fs_create env (codes "/a/new") (s_ifreg + 0o644) state ≡ (ok tt, t))
    × Created env (s_ifreg + 0o644) dir_a (codes "new") map_block state t
fs_create-runs_example =
    fs_create-runs env (codes "/a/new") (s_ifreg + 0o644) 11 state map_block dir_a (codes "new")
      first_entry a_parent refl (omega arith) a-IsSound
      ((omega arith, omega arith), ((omega arith, omega arith), ((omega arith, omega arith), tt)))
      (omega arith) new_absent entry_unused (omega arith) (omega arith) eleven_free
      (block-IsWritable 1 (omega arith) (omega arith))
      (λ k from to free. block-IsWritable k (omega arith) to)
      (block-IsWritable 5 (omega arith) (omega arith))

pub parted : parent_of (codes "/a/new") ≡ ok (codes "/a", codes "new")
unfolding parent_of resolve_path resolve_from resolve_step split_last join pathparse tokens strtok
    cut skip_slashes
parted = refl

two_names : length (resolve_path (pathparse (codes "/a/new"))) ≡ 2
unfolding resolve_path resolve_from resolve_step pathparse tokens strtok cut skip_slashes
two_names = refl

pub a_is_dir : is_dir dir_a.mode ≡ true
unfolding is_dir decode_inode contents encode_inode
a_is_dir = refl

not_a : (k : ℕ) → k < 5 → (j : ℕ) → j < dir_blocks dir_a.size → dir_a.ptrs j ≢ k
not_a k l j m e = omega (arith, a_ptr j m)

pub aside : (k : ℕ) → has_bit map_block k ≡ true → 2 ≤ k → k < 5 → IsAside state map_block dir_a k
aside k used from to = (used, from, omega arith, not_a k to)

pub used_below :
    (has_bit map_block 2 ≡ true) × (has_bit map_block 3 ≡ true) × (has_bit map_block 4 ≡ true)
unfolding has_bit
used_below = (refl, refl, refl)

pub a-Trail : Trail (IsAside state map_block dir_a) device (pathparse (codes "/a")) start
unfolding pathparse tokens strtok cut skip_slashes
a-Trail = (
  IsKept-at (IsAside state map_block dir_a) 2 3 root_inode root_read root_one root_ptr
      (aside 2 used_below.0 (omega arith) (omega arith))
      (aside 3 used_below.1 (omega arith) (omega arith)),
  λ c e. tt,
)

fs_create-fs_getattr_example :
    fs_getattr after_create (slash ∷ join (resolve_path (pathparse (codes "/a/new"))))
    ≡ ok (setstat (new_file env (s_ifreg + 0o644)))
fs_create-fs_getattr_example =
    fs_create-fs_getattr env (codes "/a/new") (codes "/a") (codes "new") (s_ifreg + 0o644) 4 dir_a
      map_block state after_create
      (
        (omega arith, omega arith),
        (
          (omega arith, omega arith),
          (
            (omega arith, omega arith),
            (
              (omega arith, omega arith),
              ((omega arith, omega arith), ((omega arith, omega arith), tt)),
            ),
          ),
        ),
      )
      parted (omega (arith, two_names)) (omega arith) a_found a_is_dir refl (omega arith) a-IsSound
      a-Trail (aside 4 used_below.2 (omega arith) (omega arith)) (λ k free. refl) (omega arith)
      create_succeeds
