-- ===== src/Disk/Open.antt =====
-- misc.c: block_init, which opens the image file.
use cs5600_project_3_file_sy.Common.{
  ℕ, ◌-◌, Bool, not, ◌&&◌, List, [], ◌∷◌, Option, none, ltb, length, drop, str_eq, if◌then◌else◌,
}
use cs5600_project_3_file_sy.Disk.{Device}

-- ".img"
abbrev pub dot_img : List ℕ
dot_img = 46 ∷ 105 ∷ 109 ∷ 103 ∷ []

-- The test that the file's name ends in ".img".
unfoldable pub is_image_name : List ℕ → Bool
is_image_name file = not (ltb (length file) 4) && str_eq (drop (length file - 4) file) dot_img

-- `open_image` stands for `open(file, O_RDWR)`, with `none` for a negative result. Here `none` stands
-- for `exit(1)`.
unfoldable pub block_init : (List ℕ → Option Device) → List ℕ → Option Device
block_init open_image file = if is_image_name file then open_image file else none
