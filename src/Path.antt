-- ===== src/Path.antt =====
-- homework.c: pathparse, resolve_path, and the parent path and file name that each operation on a
-- directory entry makes from them. A path is the bytes before its NUL.
pub mod Split
pub mod Resolve
pub mod Parent
use cs5600_project_3_file_sy.Common.{
  ℕ, zero, suc, List, [], ◌∷◌, ◌++◌, Option, none, some, length, ltb, ◌==◌, if◌then◌else◌, str_eq,
}
use mathlib.Core.List.{reverse}
use cs5600_project_3_file_sy.Outcome.{Outcome, ok, crash}

abbrev pub Name : Type 0
Name = List ℕ

abbrev pub slash : ℕ
slash = b'/'

abbrev pub dot : Name
dot = b'.' ∷ []

abbrev pub dotdot : Name
dotdot = b'.' ∷ b'.' ∷ []

abbrev pub max_path_len : ℕ
max_path_len = 10

-- `strtok(s, "/")`: delimiters in front are skipped, and the one behind the token is dropped.
unfoldable pub skip_slashes : List ℕ → List ℕ
skip_slashes [] = []
skip_slashes (c ∷ s) = if c == slash then skip_slashes s else c ∷ s

unfoldable pub cut : List ℕ → Name × List ℕ
cut [] = ([], [])
cut (c ∷ s) = let (t, rest) = cut s in if c == slash then ([], s) else (c ∷ t, rest)

unfoldable pub strtok : List ℕ → Option (Name × List ℕ)
strtok s = elim (skip_slashes s) [ [] ↦ none | c ∷ t ↦ some (cut (c ∷ t)) ]

-- The loop of pathparse, with room for `n` more components.
unfoldable pub tokens : ℕ → List ℕ → List Name
tokens zero s = []
tokens (suc n) s = elim (strtok s) [ none ↦ [] | some (t, rest) ↦ t ∷ tokens n rest ]

unfoldable pub pathparse : List ℕ → List Name
pathparse path = tokens max_path_len path

-- `if (resolved_index > 0) resolved_index--;`
abbrev pub drop_last : List Name → List Name
drop_last [] = []
drop_last (x ∷ xs) = xs

-- One round: "." is skipped, ".." drops the last item, and any other component is copied.
unfoldable pub resolve_step : Name → List Name → List Name
resolve_step c resolved =
    if str_eq c dot then resolved else if str_eq c dotdot then drop_last resolved else c ∷ resolved

-- The loop of resolve_path. `resolved` is the array filled so far, its last item first.
unfoldable pub resolve_from : List Name → List Name → List Name
resolve_from [] resolved = resolved
resolve_from (c ∷ cs) resolved = resolve_from cs (resolve_step c resolved)

unfoldable pub resolve_path : List Name → List Name
resolve_path components = reverse (resolve_from components [])

-- `strcat` of the components with a slash between them.
unfoldable pub join : List Name → List ℕ
join [] = []
join (c ∷ []) = c
join (c ∷ d ∷ cs) = c ++ (slash ∷ join (d ∷ cs))

-- All but the last of the components, and the last.
unfoldable pub split_last : List Name → Option (List Name × Name)
split_last [] = none
split_last (c ∷ []) = some ([], c)
split_last (c ∷ d ∷ cs) = elim (split_last (d ∷ cs)) [
  | none ↦ none
  | some (front, last) ↦ some (c ∷ front, last)
]

-- `char parent_path[256] = "/"` and the loop of `strcat`, and `resolved[resolved_count - 1]`. With
-- no component that is an access at -1; a parent path of 256 bytes or more overflows its buffer.
unfoldable pub parent_of : List ℕ → Outcome (List ℕ × Name)
parent_of path = elim (split_last (resolve_path (pathparse path))) [
  | none ↦ crash
  | some (front, last) ↦
      if ltb (length (slash ∷ join front)) 256 then ok (slash ∷ join front, last) else crash
]
