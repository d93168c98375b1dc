-- ===== src/Format/Ends.antt =====
-- Names that end in the 28 bytes of their own entry, where that or another entry is written.
use cs5600_project_3_file_sy.Common.{
  ℕ, zero, suc, ◌+◌, ◌*◌, ◌%◌, ◌^◌, ◌≤◌, ◌<◌, ◌≡◌, ap, ◌∙◌, List, length, true, arith, lt→ltb,
  ℕ_discrete,
}
use cs5600_project_3_file_sy.Disk.{Block}
use cs5600_project_3_file_sy.Format.{
  c_string, entry_inode, entry_name, name_ends, name_room, set_name, set_word, set_entry,
  clear_entry,
}
use cs5600_project_3_file_sy.Format.Strings.{c_string-cong, c_string-short}
use cs5600_project_3_file_sy.Format.Entries.{
  IsTerminated, apart, set_name_end, set_name_off, set_word_off,
}

-- A string ends at a NUL.
c_string-le : (b : Block) (o n j : ℕ) → j < n → b (o + j) ≡ 0 → length (c_string b o n) ≤ j
unfolding c_string
c_string-le b o zero j l e = absurd (omega arith)
c_string-le b o (suc n) zero l e =
    let here : b o ≡ 0 = ap b (omega arith) ∙ e in rw here (omega arith)
c_string-le b o (suc n) (suc j) l e =
    let rest = c_string-le b (o + 1) n j (omega arith) (ap b (omega arith) ∙ e) in
    ground (arith, rest)

-- A name that ends in its own 28 bytes can be read to its end.
pub IsTerminated-name_ends : (b : Block) (k : ℕ) → k < 128 → IsTerminated b k → name_ends b k ≡ true
unfolding entry_name
IsTerminated-name_ends b k l h =
    let same = c_string-short b (32 * k + 4) 28 (name_room k) h (omega arith) in
    lt→ltb (length (entry_name b k)) (name_room k) (rw same (omega arith))

-- An entry whose bytes stay.
same-IsTerminated :
    (b c : Block) (m : ℕ)
    → ((j : ℕ) → j < 28 → c (32 * m + 4 + j) ≡ b (32 * m + 4 + j))
    → IsTerminated b m
    → IsTerminated c m
same-IsTerminated b c m h t = rw (c_string-cong b c (32 * m + 4) 28 h) t

-- A name that was written ends, and the others end where they did.
pub set_name-IsTerminated :
    (b : Block) (k m : ℕ) (s : List ℕ) → IsTerminated b m → IsTerminated (set_name b k s) m
set_name-IsTerminated b k m s t = elim (ℕ_discrete k m) [
  | yes e ↦
      let nul : set_name b k s (32 * m + 4 + 26) ≡ 0 =
        ap (set_name b k s) (omega arith) ∙ set_name_end b k s in
      omega (arith, c_string-le (set_name b k s) (32 * m + 4) 28 26 (omega arith) nul)
  | no ne ↦
      same-IsTerminated b (set_name b k s) m
        (λ j l.
          set_name_off b k s (32 * m + 4 + j) (grind (arith, apart k m (4 + j) ne (omega arith))))
        t
]

pub set_name_self-IsTerminated : (b : Block) (k : ℕ) (s : List ℕ) → IsTerminated (set_name b k s) k
set_name_self-IsTerminated b k s =
    let nul : set_name b k s (32 * k + 4 + 26) ≡ 0 =
      ap (set_name b k s) (omega arith) ∙ set_name_end b k s in
    omega (arith, c_string-le (set_name b k s) (32 * k + 4) 28 26 (omega arith) nul)

set_word-IsTerminated : (b : Block) (k m w : ℕ) → IsTerminated b m → IsTerminated (set_word b k w) m
set_word-IsTerminated b k m w =
    same-IsTerminated b (set_word b k w) m
      (λ j l. set_word_off b k w (32 * m + 4 + j) (grind arith))

pub set_entry-IsTerminated :
    (b : Block) (k m x : ℕ) (s : List ℕ) → IsTerminated b m → IsTerminated (set_entry b k x s) m
unfolding set_entry
set_entry-IsTerminated b k m x s t =
    set_name-IsTerminated (set_word b k (x % 2 ^ 31 * 2 + 1)) k m s
      (set_word-IsTerminated b k m (x % 2 ^ 31 * 2 + 1) t)

pub set_entry_self-IsTerminated :
    (b : Block) (k x : ℕ) (s : List ℕ) → IsTerminated (set_entry b k x s) k
unfolding set_entry
set_entry_self-IsTerminated b k x s =
    set_name_self-IsTerminated (set_word b k (x % 2 ^ 31 * 2 + 1)) k s

pub clear_entry-IsTerminated :
    (b : Block) (k m : ℕ) → IsTerminated b m → IsTerminated (clear_entry b k) m
unfolding clear_entry
clear_entry-IsTerminated b k m = set_word-IsTerminated b k m (entry_inode b k * 2)
