-- ===== src/Format/Marks.antt =====
-- Whether an entry is valid and which inode it names, where its own or another entry is written.
-- The names play no part, so they may be of any length.
use cs5600_project_3_file_sy.Common.{
  ℕ, ◌+◌, ◌*◌, ◌%◌, ◌^◌, ◌<◌, ◌≡◌, ◌≢◌, ◌∙◌, List, true, arith, ap, sym,
}
use cs5600_project_3_file_sy.Disk.{Block}
use cs5600_project_3_file_sy.Format.{
  u32, entry_valid, entry_inode, set_name, set_word, set_entry, clear_entry,
}
use cs5600_project_3_file_sy.Format.Entries.{
  set_word_at, set_word_off, set_name_off, set_name_word, apart,
}

abbrev pub SameMark : Block → Block → ℕ → Type 0
SameMark b c m = (entry_valid c m ≡ entry_valid b m) × (entry_inode c m ≡ entry_inode b m)

word-SameMark :
    (b c : Block) (m : ℕ) → ((j : ℕ) → j < 4 → c (32 * m + j) ≡ b (32 * m + j)) → SameMark b c m
unfolding entry_valid entry_inode
word-SameMark b c m h =
    let at : 32 * m ≡ 32 * m + 0 = omega arith in
    let zeroth : c (32 * m) ≡ b (32 * m) = ap c at ∙ h 0 (omega arith) ∙ ap b (sym at) in
    let word : u32 c (32 * m) ≡ u32 b (32 * m) =
      rw (zeroth, h 1 (omega arith), h 2 (omega arith), h 3 (omega arith)) in
    (rw word, rw word)

pub set_name-SameMark : (b : Block) (k m : ℕ) (s : List ℕ) → SameMark b (set_name b k s) m
set_name-SameMark b k m s =
    word-SameMark b (set_name b k s) m (λ j l. set_name_off b k s (32 * m + j) (grind arith))

pub set_entry-SameMark :
    (b : Block) (k m inum : ℕ) (s : List ℕ) → k ≢ m → SameMark b (set_entry b k inum s) m
unfolding set_entry
set_entry-SameMark b k m inum s h = word-SameMark b (set_entry b k inum s) m (λ j l.
    set_name_off (set_word b k (inum % 2 ^ 31 * 2 + 1)) k s (32 * m + j)
      (grind (arith, apart k m j h (omega arith)))
    ∙ set_word_off b k (inum % 2 ^ 31 * 2 + 1) (32 * m + j)
        (grind (arith, apart k m j h (omega arith))))

pub clear_entry-SameMark : (b : Block) (k m : ℕ) → k ≢ m → SameMark b (clear_entry b k) m
unfolding clear_entry
clear_entry-SameMark b k m h = word-SameMark b (clear_entry b k) m (λ j l.
    set_word_off b k (entry_inode b k * 2) (32 * m + j)
      (grind (arith, apart k m j h (omega arith))))

pub set_entry_mark :
    (b : Block) (k inum : ℕ) (s : List ℕ)
    → inum < 2 ^ 31
    → (entry_valid (set_entry b k inum s) k ≡ true) × (entry_inode (set_entry b k inum s) k ≡ inum)
unfolding set_entry entry_valid entry_inode
set_entry_mark b k inum s i =
    let w = inum % 2 ^ 31 * 2 + 1 in
    let e : u32 (set_name (set_word b k w) k s) (32 * k) ≡ w =
      set_name_word (set_word b k w) k s ∙ set_word_at b k w (omega arith) in
    (rw e (ground arith), rw e (omega arith))
