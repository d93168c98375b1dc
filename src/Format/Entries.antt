-- ===== src/Format/Entries.antt =====
-- Directory entries as bytes of a block, written and read.
use cs5600_project_3_file_sy.Common.{
  ℕ, ◌+◌, ◌*◌, ◌/◌, ◌%◌, ◌^◌, ◌-◌, ◌<◌, ◌≤◌, ◌≡◌, ◌≢◌, sym, ap, ◌∙◌, All-take, length-take, dec_lt,
  arith, true, false, ◌⊎◌, List, length, take, get_or, All,
}
use cs5600_project_3_file_sy.Disk.{Block, block_size}
use cs5600_project_3_file_sy.Format.Strings.{
  IsChar, c_string-holds, c_string-short, c_string-cong, get_or-take, get_or-past,
}
use cs5600_project_3_file_sy.Format.{
  u32, c_string, entry_valid, entry_inode, entry_name, set_name, set_word, set_entry, clear_entry,
}

pub set_word_at : (b : Block) (k w : ℕ) → w < 2 ^ 32 → u32 (set_word b k w) (32 * k) ≡ w
unfolding set_word
set_word_at b k w h = ground arith

pub set_word_off :
    (b : Block) (k w o : ℕ) → (o < 32 * k) ⊎ (32 * k + 4 ≤ o) → set_word b k w o ≡ b o
unfolding set_word
set_word_off b k w o h = ground arith

pub set_name_off :
    (b : Block) (k : ℕ) (s : List ℕ) (o : ℕ)
    → (o < 32 * k + 4) ⊎ (32 * k + 31 ≤ o)
    → set_name b k s o ≡ b o
unfolding set_name
set_name_off b k s o h = ground arith

set_name_at :
    (b : Block) (k : ℕ) (s : List ℕ) (j : ℕ)
    → j < 26
    → set_name b k s (32 * k + 4 + j) ≡ get_or s j 0
unfolding set_name
set_name_at b k s j h =
    let e : 32 * k + 4 + j - (32 * k + 4) ≡ j = omega arith in rw e (ground arith)

pub set_name_end : (b : Block) (k : ℕ) (s : List ℕ) → set_name b k s (32 * k + 30) ≡ 0
unfolding set_name
set_name_end b k s = ground arith

-- The name of entry `k` ends inside its own 28 bytes.
abbrev pub IsTerminated : Block → ℕ → Type 0
IsTerminated b k = length (c_string b (32 * k + 4) 28) < 28

module _ (b c : Block) (k : ℕ) (g : (j : ℕ) → j < 32 → c (32 * k + j) ≡ b (32 * k + j)) where
  same_word : u32 c (32 * k) ≡ u32 b (32 * k)
  same_word =
      let e : c (32 * k) ≡ b (32 * k) =
        ap c (omega arith) ∙ g 0 (omega arith) ∙ ap b (omega arith) in
      rw (e, g 1 (omega arith), g 2 (omega arith), g 3 (omega arith))

  same_string : c_string c (32 * k + 4) 28 ≡ c_string b (32 * k + 4) 28
  same_string =
      c_string-cong b c (32 * k + 4) 28
        (λ j lt. ap c (omega arith) ∙ g (4 + j) (omega arith) ∙ ap b (omega arith))

  -- Two blocks that agree on the 32 bytes of entry `k`, where its name ends there, agree on it.
  pub same_entry :
      k < 128
      → IsTerminated b k
      → (entry_valid c k ≡ entry_valid b k)
        × (entry_inode c k ≡ entry_inode b k)
        × (entry_name c k ≡ entry_name b k)
  unfolding entry_valid entry_inode entry_name
  same_entry h t = (
    rw same_word,
    rw same_word,
    c_string-short c (32 * k + 4) 28 (block_size - (32 * k + 4)) (rw same_string t) (omega arith)
        ∙ same_string
        ∙ sym (c_string-short b (32 * k + 4) 28 (block_size - (32 * k + 4)) t (omega arith)),
  )

-- Bytes that two entries do not share.
pub apart : (k m j : ℕ) → k ≢ m → j < 32 → (32 * m + j < 32 * k) ⊎ (32 * k + 32 ≤ 32 * m + j)
apart k m j h l = grind arith

-- Writing one entry leaves another one as it was, if the name of that one ends in its own 28
-- bytes.
pub set_entry-ne :
    (b : Block) (k m inum : ℕ) (s : List ℕ)
    → k ≢ m
    → m < 128
    → IsTerminated b m
    → (entry_valid (set_entry b k inum s) m ≡ entry_valid b m)
      × (entry_inode (set_entry b k inum s) m ≡ entry_inode b m)
      × (entry_name (set_entry b k inum s) m ≡ entry_name b m)
unfolding set_entry
set_entry-ne b k m inum s h l =
    same_entry b (set_entry b k inum s) m
      (λ j lt.
        set_name_off (set_word b k (inum % 2 ^ 31 * 2 + 1)) k s (32 * m + j)
          (grind (arith, apart k m j h lt))
        ∙ set_word_off b k (inum % 2 ^ 31 * 2 + 1) (32 * m + j) (grind (arith, apart k m j h lt)))
      l

pub clear_entry-ne :
    (b : Block) (k m : ℕ)
    → k ≢ m
    → m < 128
    → IsTerminated b m
    → (entry_valid (clear_entry b k) m ≡ entry_valid b m)
      × (entry_inode (clear_entry b k) m ≡ entry_inode b m)
      × (entry_name (clear_entry b k) m ≡ entry_name b m)
unfolding clear_entry
clear_entry-ne b k m h l =
    same_entry b (clear_entry b k) m
      (λ j lt.
        set_word_off b k (entry_inode b k * 2) (32 * m + j) (grind (arith, apart k m j h lt)))
      l

-- A cleared entry is not valid.
pub clear_entry-invalid : (b : Block) (k : ℕ) → entry_valid (clear_entry b k) k ≡ false
unfolding clear_entry entry_valid entry_inode
clear_entry-invalid b k =
    let e : u32 (set_word b k (u32 b (32 * k) / 2 * 2)) (32 * k) ≡ u32 b (32 * k) / 2 * 2 =
      set_word_at b k (u32 b (32 * k) / 2 * 2) (omega arith) in
    rw e (ground arith)

pub set_name_word :
    (b : Block) (k : ℕ) (s : List ℕ) → u32 (set_name b k s) (32 * k) ≡ u32 b (32 * k)
set_name_word b k s = rw (
  set_name_off b k s (32 * k) (omega arith),
  set_name_off b k s (32 * k + 1) (omega arith),
  set_name_off b k s (32 * k + 2) (omega arith),
  set_name_off b k s (32 * k + 3) (omega arith),
)

set_name_string :
    (b : Block) (k : ℕ) (s : List ℕ)
    → k < 128
    → All IsChar s
    → entry_name (set_name b k s) k ≡ take 26 s
unfolding entry_name
set_name_string b k s h chars =
    c_string-holds (take 26 s) (set_name b k s) (32 * k + 4) (block_size - (32 * k + 4))
      (All-take IsChar 26 s chars) bytes (omega (arith, length-take 26 s))
  where
    bytes :
        (j : ℕ) → j ≤ length (take 26 s) → set_name b k s (32 * k + 4 + j) ≡ get_or (take 26 s) j 0
    bytes j le = elim (dec_lt j 26) [
      | yes lt ↦ set_name_at b k s j lt ∙ sym (get_or-take 26 s j lt)
      | no ge ↦
          let e : j ≡ 26 = omega (arith, length-take 26 s) in
          rw e (
            ap (set_name b k s) (omega arith)
            ∙ set_name_end b k s
            ∙ sym (get_or-past (take 26 s) 26 (omega (arith, length-take 26 s))))
    ]

-- A new entry, with a number below 2^31 and a name without NUL, is valid, and holds the number and
-- the first 26 bytes of the name.
pub set_entry_lem :
    (b : Block) (k inum : ℕ) (s : List ℕ)
    → k < 128
    → inum < 2 ^ 31
    → All IsChar s
    → (entry_valid (set_entry b k inum s) k ≡ true)
      × (entry_inode (set_entry b k inum s) k ≡ inum)
      × (entry_name (set_entry b k inum s) k ≡ take 26 s)
unfolding set_entry entry_valid entry_inode
set_entry_lem b k inum s h i chars =
    let w = inum % 2 ^ 31 * 2 + 1 in
    let e : u32 (set_name (set_word b k w) k s) (32 * k) ≡ w =
      set_name_word (set_word b k w) k s ∙ set_word_at b k w (omega arith) in
    (rw e (ground arith), rw e (omega arith), set_name_string (set_word b k w) k s h chars)

-- A new name changes the name of its entry only, to the first 26 bytes.
pub set_name_lem :
    (b : Block) (k : ℕ) (s : List ℕ)
    → k < 128
    → All IsChar s
    → (entry_valid (set_name b k s) k ≡ entry_valid b k)
      × (entry_inode (set_name b k s) k ≡ entry_inode b k)
      × (entry_name (set_name b k s) k ≡ take 26 s)
unfolding entry_valid entry_inode
set_name_lem b k s h chars =
    (rw (set_name_word b k s), rw (set_name_word b k s), set_name_string b k s h chars)

pub set_name-ne :
    (b : Block) (k m : ℕ) (s : List ℕ)
    → k ≢ m
    → m < 128
    → IsTerminated b m
    → (entry_valid (set_name b k s) m ≡ entry_valid b m)
      × (entry_inode (set_name b k s) m ≡ entry_inode b m)
      × (entry_name (set_name b k s) m ≡ entry_name b m)
set_name-ne b k m s h l =
    same_entry b (set_name b k s) m
      (λ j lt. set_name_off b k s (32 * m + j) (grind (arith, apart k m j h lt))) l
