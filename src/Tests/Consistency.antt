-- ===== src/Tests/Consistency.antt =====
-- The test image is consistent.
use cs5600_project_3_file_sy.Common.{
  ℕ, ◌≤◌, ◌<◌, ◌≡◌, ◌≢◌, ◌⊎◌, inl, inr, refl, Bool, true, not, arith, leb, ◌==◌, ◌&&◌, ◌||◌,
  if◌then◌else◌, dec_lt, ltb, length, ◌+◌, ◌*◌,
}
use cs5600_project_3_file_sy.Common.Byte.{all_below, all_below_sound}
use cs5600_project_3_file_sy.Bitmap.{has_bit}
use cs5600_project_3_file_sy.Format.{
  decode_inode, encode_inode, is_dir, entry_valid, entry_inode, set_entry, set_name, set_word,
  c_string,
}
use cs5600_project_3_file_sy.Layout.{
  Kind, unowned, file_inode, dir_inode, dir_data, file_data, inode_at, IsDirInode, IsFileInode,
  IsEntry, IsConsistent, Consistent,
}
use cs5600_project_3_file_sy.Tests.Image.{state, contents, root_entries, map_block}

abbrev owners : ℕ → Kind
owners k =
    if leb 11 k
    then unowned
    else if k == 2
    then dir_inode 3
    else if k == 3
    then dir_data 2
    else if k == 4
    then dir_inode 5
    else if k == 5
    then dir_data 4
    else if k == 6
    then file_inode
    else if k == 7
    then file_data 6 0
    else if k == 8
    then dir_inode 10
    else if k == 9
    then file_data 6 1
    else if k == 10
    then dir_data 8
    else unowned

abbrev places : ℕ → ℕ × ℕ
places x = if x == 4 then (3, 0) else if x == 6 then (3, 3) else (5, 1)

owned_below : (k : ℕ) → owners k ≢ unowned → (2 ≤ k) × (k < 11)
owned_below k o = elim (dec_lt k 11) [
  | yes l ↦ elim (dec_lt k 2) [ yes m ↦ absurd (o (ground arith)) | no m ↦ (omega arith, l) ]
  | no l ↦ absurd (o (ground arith))
]

dirs_are :
    (i d : ℕ)
    → owners i ≡ dir_inode d
    → ((i ≡ 2) × (d ≡ 3)) ⊎ ((i ≡ 4) × (d ≡ 5)) ⊎ ((i ≡ 8) × (d ≡ 10))
dirs_are i d h = ground arith

files_are : (i : ℕ) → owners i ≡ file_inode → i ≡ 6
files_are i h = ground arith

data_are : (b i : ℕ) → owners b ≡ dir_data i → (b ≡ 3) ⊎ (b ≡ 5) ⊎ (b ≡ 10)
data_are b i h = ground arith

-- An entry of block `b` is not valid, or one of the three.
abbrev is_known : ℕ → ℕ → ℕ → Bool
is_known b k x =
    (b == 3 && k == 0 && x == 4) || (b == 3 && k == 3 && x == 6) || (b == 5 && k == 1 && x == 8)

abbrev known : ℕ → ℕ → Bool
known b k = not (entry_valid (contents b) k) || is_known b k (entry_inode (contents b) k)

known_below :
    (all_below 128 (known 3) ≡ true)
    × (all_below 128 (known 5) ≡ true)
    × (all_below 128 (known 10) ≡ true)
unfolding contents root_entries encode_inode set_entry set_name set_word entry_valid entry_inode
known_below = (refl, refl, refl)

abbrev ended : ℕ → ℕ → Bool
ended b k =
    not (entry_valid (contents b) k) || ltb (length (c_string (contents b) (32 * k + 4) 28)) 28

ended_below :
    (all_below 128 (ended 3) ≡ true)
    × (all_below 128 (ended 5) ≡ true)
    × (all_below 128 (ended 10) ≡ true)
unfolding contents root_entries encode_inode set_entry set_name set_word entry_valid c_string
ended_below = (refl, refl, refl)

ended_at : (b i k : ℕ) → owners b ≡ dir_data i → k < 128 → ended b k ≡ true
ended_at b i k h l = elim (data_are b i h) [
  | inl e ↦ rw e (all_below_sound 128 (ended 3) k ended_below.0 l)
  | inr (inl e) ↦ rw e (all_below_sound 128 (ended 5) k ended_below.1 l)
  | inr (inr e) ↦ rw e (all_below_sound 128 (ended 10) k ended_below.2 l)
]

known_IsEntry : (b k x : ℕ) → is_known b k x ≡ true → IsEntry owners places b k x
known_IsEntry b k x h =
    let cases : (b ≡ 3) × (k ≡ 0) × (x ≡ 4)
        ⊎ (b ≡ 3) × (k ≡ 3) × (x ≡ 6)
        ⊎ (b ≡ 5) × (k ≡ 1) × (x ≡ 8) =
      ground arith in
    elim cases [
      | inl (p, q, r) ↦
          rw (p, q, r) (record { names_inode = tt; at_home = refl; not_root = λ e. omega arith })
      | inr (inl (p, q, r)) ↦
          rw (p, q, r) (record { names_inode = tt; at_home = refl; not_root = λ e. omega arith })
      | inr (inr (p, q, r)) ↦
          rw (p, q, r) (record { names_inode = tt; at_home = refl; not_root = λ e. omega arith })
    ]

known_at : (b i k : ℕ) → owners b ≡ dir_data i → k < 128 → known b k ≡ true
known_at b i k h l = elim (data_are b i h) [
  | inl e ↦ rw e (all_below_sound 128 (known 3) k known_below.0 l)
  | inr (inl e) ↦ rw e (all_below_sound 128 (known 5) k known_below.1 l)
  | inr (inr e) ↦ rw e (all_below_sound 128 (known 10) k known_below.2 l)
]

dir_at_two : IsDirInode owners (inode_at state.dev 2) 2 3
unfolding contents decode_inode encode_inode is_dir
dir_at_two = record { is_directory = refl; one_block = refl; block_is = refl; owns = refl }

dir_at_four : IsDirInode owners (inode_at state.dev 4) 4 5
unfolding contents decode_inode encode_inode is_dir
dir_at_four = record { is_directory = refl; one_block = refl; block_is = refl; owns = refl }

dir_at_eight : IsDirInode owners (inode_at state.dev 8) 8 10
unfolding contents decode_inode encode_inode is_dir
dir_at_eight = record { is_directory = refl; one_block = refl; block_is = refl; owns = refl }

file_at_six : IsFileInode owners (inode_at state.dev 6) 6
unfolding contents decode_inode encode_inode is_dir
file_at_six = record {
  no_directory = refl;
  size = 5000;
  size_is = refl;
  small = omega arith;
  owns = λ j l.
      let cases : (j ≡ 0) ⊎ (j ≡ 1) = omega arith in
      elim cases [ inl e ↦ rw e refl | inr e ↦ rw e refl ];
}

abbrev used : ℕ → Bool
used k = has_bit map_block k

used_below : all_below 11 used ≡ true
unfolding has_bit
used_below = refl

pub state-IsConsistent : IsConsistent owners places state
state-IsConsistent = record {
  map = map_block;
  loaded = refl;
  covered = omega arith;
  in_range = λ k o. let (l, m) = owned_below k o in (l, omega arith);
  marked = λ k o. all_below_sound 11 used k used_below (owned_below k o).1;
  there = λ k m. omega (arith, (owned_below k (λ e. rw e at m)).1);
  root = (3, refl);
  dirs = λ i d e. elim (dirs_are i d e) [
    | inl (p, q) ↦ rw (p, q) dir_at_two
    | inr (inl (p, q)) ↦ rw (p, q) dir_at_four
    | inr (inr (p, q)) ↦ rw (p, q) dir_at_eight
  ];
  files = λ i e. rw (files_are i e) file_at_six;
  entries = λ i b k e l v.
      known_IsEntry b k (entry_inode (contents b) k)
        (let h = known_at b i k e l in ground (arith, h, v));
  ends = λ i b k e l v. let h = ended_at b i k e l in ground (arith, h, v);
}

pub state-Consistent : Consistent state
state-Consistent = (owners, places, state-IsConsistent)
