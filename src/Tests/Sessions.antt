-- ===== src/Tests/Sessions.antt =====
-- Sessions on the test image, which is consistent.
use cs5600_project_3_file_sy.Remove.{file_blocks}
use cs5600_project_3_file_sy.Attr.Truncated.{fs_truncate-eio}
use cs5600_project_3_file_sy.Remove.Blocks.{owns}
use cs5600_project_3_file_sy.Translate.{translate, walk, step, enter, descend}
use cs5600_project_3_file_sy.Dir.{
  read_inode, dir_blocks, ptr_at, find_slot, find_from, find_in_dir, is_named,
}
use cs5600_project_3_file_sy.Bitmap.{has_bit}
use cs5600_project_3_file_sy.Disk.{Block, block_read}
use cs5600_project_3_file_sy.Common.{
  ℕ, ◌+◌, ◌≡◌, ◌≢◌, refl, false, arith, All, some, not, ◌&&◌, ◌==◌,
}
use cs5600_project_3_file_sy.Outcome.{ok, crash, err, eio}
use cs5600_project_3_file_sy.Format.{
  is_dir, s_ifreg, decode_inode, encode_inode, c_string, entry_valid, entry_inode, entry_name,
  set_entry, set_name, set_word,
}
use cs5600_project_3_file_sy.Path.{skip_slashes, cut, strtok, tokens, pathparse}
use cs5600_project_3_file_sy.Path.Resolve.{IsReal}
use cs5600_project_3_file_sy.Attr.{fs_truncate}
use cs5600_project_3_file_sy.Query.{fs_getattr, fs_readdir, fs_statfs}
use cs5600_project_3_file_sy.Read.{fs_read}
use cs5600_project_3_file_sy.State.{State}
use cs5600_project_3_file_sy.Calls.{create, unlink, call}
use cs5600_project_3_file_sy.Layout.{Consistent}
use cs5600_project_3_file_sy.Layout.Queries.{Consistent-queries}
use cs5600_project_3_file_sy.Layout.Session.{outcome, start, next, calls, Reach-call}
use cs5600_project_3_file_sy.Layout.Parent.{IsEntryPath}
use cs5600_project_3_file_sy.Layout.Touched.{IsShort}
use cs5600_project_3_file_sy.Layout.Erased.{IsPlainPath}
use cs5600_project_3_file_sy.Tests.Changes.{f_parted, g_parted}
use cs5600_project_3_file_sy.Tests.Consistency.{state-Consistent}
use cs5600_project_3_file_sy.Tests.Files.{stored_inode, f_inside}
use cs5600_project_3_file_sy.Tests.Growth.{f_is_file}
use cs5600_project_3_file_sy.Tests.Image.{
  codes, env, contents, state, device, root_entries, map_block,
}
use cs5600_project_3_file_sy.Tests.Removal.{f_blocks_two}

f-IsEntryPath : IsEntryPath (codes "/f")
f-IsEntryPath = record {
  bytes = ((omega arith, omega arith), ((omega arith, omega arith), tt));
  parent = codes "/";
  name = codes "f";
  parts = f_parted;
}

g-IsEntryPath : IsEntryPath (codes "/g")
g-IsEntryPath = record {
  bytes = ((omega arith, omega arith), ((omega arith, omega arith), tt));
  parent = codes "/";
  name = codes "g";
  parts = g_parted;
}

f-IsShort : IsShort (codes "/f")
unfolding pathparse tokens strtok cut skip_slashes
f-IsShort = omega arith

f-IsReal : All IsReal (pathparse (codes "/f"))
unfolding pathparse tokens strtok cut skip_slashes
f-IsReal = ((refl, refl), tt)

f-IsPlainPath : IsPlainPath (codes "/f")
f-IsPlainPath = record { entry = f-IsEntryPath; real = f-IsReal; short = f-IsShort }

regular : is_dir (s_ifreg + 0o644) ≡ false
unfolding is_dir
regular = refl

-- /g was made, and now /f is removed.
abbrev after_create : State
after_create = call env (create (codes "/g") (s_ifreg + 0o644)) state

Reach-call_example :
    Consistent (call env (unlink (codes "/f")) after_create)
    × (outcome env (unlink (codes "/f")) after_create ≢ crash)
Reach-call_example =
    Reach-call state after_create env (unlink (codes "/f")) state-Consistent
      (next start (
        calls env (create (codes "/g") (s_ifreg + 0o644)) state
          (g-IsEntryPath, omega arith, regular)))
      f-IsPlainPath

Consistent-queries_example :
    (fs_getattr state (codes "/f") ≢ crash)
    × ((fs_readdir state (codes "/f")).1 ≢ crash)
    × (fs_statfs state ≢ crash)
    × (fs_read state (codes "/f") 4097 10 ≢ crash)
Consistent-queries_example =
    Consistent-queries state (codes "/f") 4097 10 state-Consistent f-IsShort (omega arith)

-- The same image on a medium that fails to write the inode of /f.
abbrev worn : State
worn = record state { dev = record device { bad_write = λ k. k == 6 } }

worn_found : translate worn.dev (codes "/f") ≡ ok (6, stored_inode)
unfolding translate walk step enter descend pathparse tokens strtok cut skip_slashes read_inode
    block_read decode_inode is_dir find_in_dir find_from dir_blocks ptr_at find_slot is_named
    entry_valid entry_inode entry_name c_string contents root_entries encode_inode set_entry
    set_name set_word
worn_found = refl

fs_truncate-eio_example :
    (map' : Block) × (fs_truncate env (codes "/f") 0 worn
      ≡ (err eio, record worn { bitmap = some map' }))
    × ((k : ℕ)
        → has_bit map' k
          ≡ (not (owns stored_inode 0 (file_blocks stored_inode.size) k) && has_bit map_block k))
fs_truncate-eio_example =
    fs_truncate-eio env (codes "/f") 6 stored_inode map_block worn worn_found f_is_file refl
      (omega (arith, f_blocks_two)) (λ j l. omega (arith, f_blocks_two, f_inside j)) (omega arith)
      (omega arith) refl
