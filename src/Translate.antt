-- ===== src/Translate.antt =====
-- homework.c: translate, from a path to the inode number and the inode that it leads to.
pub mod Lookup
pub mod Frame
pub mod Dots
use cs5600_project_3_file_sy.Common.{
  ℕ, ◌+◌, ◌-◌, List, [], ◌∷◌, none, some, ltb, ◌==◌, if◌then◌else◌, str_eq,
}
use cs5600_project_3_file_sy.Outcome.{
  Outcome, ok, err, ◌>>=◌, ◌>>◌, require, within, enoent, enotdir,
}
use cs5600_project_3_file_sy.Disk.{Device}
use cs5600_project_3_file_sy.Format.{Inode, is_dir}
use cs5600_project_3_file_sy.Path.{Name, pathparse, dot, dotdot, max_path_len}
use cs5600_project_3_file_sy.Dir.{read_inode, find_in_dir, is_named, hit_inode}

-- `current_inum`, `parent_stack` and `stack_pos`.
pub record Cursor : Type 0 where
  pub inum : ℕ
  pub stack : ℕ → ℕ
  pub stack_pos : ℕ

-- The root is inode 2, and its own parent.
abbrev pub root_inum : ℕ
root_inum = 2

abbrev pub start : Cursor
start = record { inum = root_inum; stack = λ _. root_inum; stack_pos = 0 }

-- `parent_stack[stack_pos + 1] = current_inum; stack_pos++; current_inum = child;` on an array of
-- MAX_PATH_LEN items.
unfoldable pub descend : Cursor → ℕ → Outcome Cursor
descend c child =
    within (ltb (c.stack_pos + 1) max_path_len)
    >> ok (record {
      inum = child;
      stack = λ j. if j == c.stack_pos + 1 then c.inum else c.stack j;
      stack_pos = c.stack_pos + 1;
    })

-- `if (stack_pos > 0) { stack_pos--; current_inum = parent_stack[stack_pos]; }`
unfoldable pub go_up : Cursor → Cursor
go_up c =
    if ltb 0 c.stack_pos
    then record c { inum = c.stack (c.stack_pos - 1); stack_pos = c.stack_pos - 1 }
    else c

-- The search for one component in the current directory.
unfoldable pub enter : Device → Name → Cursor → Outcome Cursor
enter d name c = read_inode d c.inum >>= λ n.
    require (is_dir n.mode) enotdir
    >> (find_in_dir (is_named name) d n >>= λ hit. elim hit [
      | none ↦ err enoent
      | some h ↦ descend c (hit_inode h)
    ])

-- One round of the loop over the components.
unfoldable pub step : Device → Name → Cursor → Outcome Cursor
step d name c =
    if str_eq name dot then ok c else if str_eq name dotdot then ok (go_up c) else enter d name c

unfoldable pub walk : Device → List Name → Cursor → Outcome Cursor
walk d [] c = ok c
walk d (name ∷ names) c = step d name c >>= walk d names

unfoldable pub translate : Device → List ℕ → Outcome (ℕ × Inode)
translate d path =
    walk d (pathparse path) start >>= λ c. read_inode d c.inum >>= λ n. ok (c.inum, n)
