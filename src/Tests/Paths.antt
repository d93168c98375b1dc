-- ===== src/Tests/Paths.antt =====
-- The theorems on paths and translate, at concrete paths of the test image.
use cs5600_project_3_file_sy.Common.{
  ℕ, List, if◌then◌else◌, ◌==◌, ◌≤◌, ◌≡◌, refl, [], ◌∷◌, take, All, length, arith, some, none, ◌⊎◌,
}
use cs5600_project_3_file_sy.Outcome.{ok, crash, ◌>>=◌}
use cs5600_project_3_file_sy.Disk.{Device, zero_block, block_read}
use cs5600_project_3_file_sy.Format.{
  Inode, decode_inode, encode_inode, set_entry, set_name, set_word, is_dir, c_string, entry_valid,
  entry_inode, entry_name,
}
use cs5600_project_3_file_sy.Path.{
  dotdot, skip_slashes, cut, strtok, tokens, pathparse, resolve_step, resolve_from, resolve_path,
  join, split_last, parent_of,
}
use cs5600_project_3_file_sy.Path.Split.{parts, nonempty, pathparse-parts, IsPlain}
use cs5600_project_3_file_sy.Path.Resolve.{IsReal}
use cs5600_project_3_file_sy.Path.Parent.{IsPath, Parted, parent_of-Parted}
use cs5600_project_3_file_sy.Dir.{
  Hit, read_inode, dir_blocks, ptr_at, find_slot, find_from, find_in_dir, is_named,
}
use cs5600_project_3_file_sy.Dir.Search.{IsNowhere, Found, find_in_dir_lem}
use cs5600_project_3_file_sy.Translate.{root_inum, start, walk, translate}
use cs5600_project_3_file_sy.Translate.Lookup.{child, lookup, inum_of, translate-lookup}
use cs5600_project_3_file_sy.Translate.Dots.{dotdot_skips, translate_overflow}
use cs5600_project_3_file_sy.Tests.Image.{codes, device, contents, root_entries}

pathparse-parts_example : pathparse (codes "//a//b/") ≡ take 10 (nonempty (parts (codes "//a//b/")))
pathparse-parts_example = pathparse-parts (codes "//a//b/")

names-IsPlain : All IsPlain (codes "a" ∷ codes "b" ∷ [])
names-IsPlain = (
  (λ e. cc, ((omega arith, omega arith, omega arith), tt)),
  ((λ e. cc, ((omega arith, omega arith, omega arith), tt)), tt),
)

slash_a_n : IsPath (codes "/a/./n")
slash_a_n = grind arith

parent_of_example : Parted (codes "/a/./n") (codes "/a") (codes "n")
unfolding parent_of resolve_path resolve_from resolve_step pathparse tokens strtok cut skip_slashes
    split_last join
parent_of_example = parent_of-Parted (codes "/a/./n") (codes "/a") (codes "n") slash_a_n refl

components-IsReal : All IsReal (pathparse (codes "/a/b"))
unfolding pathparse tokens strtok cut skip_slashes
components-IsReal = ((refl, refl), ((refl, refl), tt))

two_components : length (pathparse (codes "/a/b")) ≤ 9
unfolding pathparse tokens strtok cut skip_slashes
two_components = omega arith

translate-lookup_example : translate device (codes "/a/b") ≡ (
    lookup device root_inum (pathparse (codes "/a/b")) >>= λ i.
    read_inode device i >>= λ n. ok (i, n))
translate-lookup_example = translate-lookup device (codes "/a/b") components-IsReal two_components

child_a : child device root_inum (codes "a") ≡ ok 4
unfolding child read_inode block_read decode_inode is_dir find_in_dir find_from dir_blocks ptr_at
    find_slot is_named entry_valid entry_inode entry_name c_string contents root_entries
    encode_inode set_entry set_name set_word
child_a = refl

child_b : child device 4 (codes "b") ≡ ok 8
unfolding child read_inode block_read decode_inode is_dir find_in_dir find_from dir_blocks ptr_at
    find_slot is_named entry_valid entry_inode entry_name c_string contents root_entries
    encode_inode set_entry set_name set_word
child_b = refl

dotdot_skips_example :
    (inum_of (walk device (codes "a" ∷ codes "b" ∷ dotdot ∷ []) start) ≡ ok 2)
    × (resolve_path (codes "a" ∷ codes "b" ∷ dotdot ∷ []) ≡ codes "a" ∷ [])
dotdot_skips_example =
    dotdot_skips device (codes "a") (codes "b") start 4 8 (refl, refl) (refl, refl) (omega arith)
      child_a child_b

abbrev root_inode : Inode
unfolding contents
root_inode = decode_inode (contents 2)

-- The entry of /f.
abbrev f_entry : Hit
f_entry = record { lba = 3; block = root_entries; slot = 3 }

f_entry_found : find_in_dir (is_named (codes "f")) device root_inode ≡ ok (some f_entry)
unfolding block_read find_in_dir find_from dir_blocks ptr_at find_slot is_named entry_valid
    entry_inode entry_name c_string decode_inode contents root_entries encode_inode set_entry
    set_name set_word
f_entry_found = refl

find_in_dir_example :
    ((h : Hit) × (some f_entry ≡ some h)
      × Found (is_named (codes "f")) device root_inode 0 (dir_blocks root_inode.size) h)
    ⊎ ((some f_entry ≡ none) × IsNowhere (is_named (codes "f")) device root_inode)
find_in_dir_example =
    find_in_dir_lem (is_named (codes "f")) device root_inode (some f_entry) f_entry_found

-- The root directory holds itself under the name "a".
abbrev ring : Device
ring = record device {
  store = λ k. if k == 3 then set_entry zero_block 0 2 (codes "a") else contents k;
}

abbrev ten : List ℕ
ten = codes "/a/a/a/a/a/a/a/a/a/a"

ten-IsReal : All IsReal (pathparse ten)
unfolding pathparse tokens strtok cut skip_slashes
ten-IsReal =
    let r : IsReal (codes "a") = (refl, refl) in
    (r, (r, (r, (r, (r, (r, (r, (r, (r, (r, tt))))))))))

ten_components : length (pathparse ten) ≡ 10
unfolding pathparse tokens strtok cut skip_slashes
ten_components = refl

ten_found : lookup ring root_inum (pathparse ten) ≡ ok 2
unfolding lookup child read_inode block_read decode_inode is_dir find_in_dir find_from dir_blocks
    ptr_at find_slot is_named entry_valid entry_inode entry_name c_string contents root_entries
    encode_inode set_entry set_name set_word pathparse tokens strtok cut skip_slashes
ten_found = refl

translate_overflow_example : translate ring ten ≡ crash
translate_overflow_example = translate_overflow ring ten 2 ten-IsReal ten_components ten_found
