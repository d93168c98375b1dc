-- ===== src/Write/ReadBack.antt =====
-- fs_write and then fs_read of the same path.
use cs5600_project_3_file_sy.Common.{
  ℕ, ◌+◌, ◌-◌, ◌*◌, ◌/◌, ◌%◌, ◌^◌, ◌≤◌, ◌<◌, ◌≡◌, ◌≢◌, sym, ap, ◌∙◌, List, All, arith, true, false,
  Bool, dec_lt, length, max, min, lt→ltb, ltb, leb,
}
use cs5600_project_3_file_sy.Common.Int.{pos, signed32}
use cs5600_project_3_file_sy.Outcome.{ok}
use cs5600_project_3_file_sy.Disk.{Block}
use cs5600_project_3_file_sy.Format.{Inode, is_dir, is_reg}
use cs5600_project_3_file_sy.Format.Inodes.{
  IsInode, decode_inode-IsInode, decode_inode-encode_inode,
}
use cs5600_project_3_file_sy.Path.{pathparse}
use cs5600_project_3_file_sy.Dir.{read_inode}
use cs5600_project_3_file_sy.Translate.{start, translate}
use cs5600_project_3_file_sy.Translate.Frame.{SameOn, Trail, translate-frame}
use cs5600_project_3_file_sy.State.{State, Env}
use cs5600_project_3_file_sy.State.Runs.{read_good}
use cs5600_project_3_file_sy.Read.{fs_read}
use cs5600_project_3_file_sy.Read.Contents.{file_slice, Holds, fs_read_lem}
use cs5600_project_3_file_sy.Write.{fs_write, resized, size_t_of}
use cs5600_project_3_file_sy.Bitmap.{has_bit}
use cs5600_project_3_file_sy.Bitmap.Count.{used_in}
use cs5600_project_3_file_sy.Write.Extend.{IsFile, IsStorage, Extended}
use cs5600_project_3_file_sy.Write.Extended.{fs_write-extends}
use cs5600_project_3_file_sy.Write.Reread.{
  block_read-same, read_again, translate-inode, file_slice-list, get_or-byte, Grown-IsInode,
  resized-IsInode,
}

-- A block of the image that is in use and is neither the bitmap, nor the inode, nor one of the first `m`
-- blocks of the file.
abbrev pub IsElsewhere : State → Block → ℕ → ℕ → Inode → ℕ → Type 0
IsElsewhere s map m inum n lba =
    (lba < s.dev.blocks)
    × (has_bit map lba ≡ true)
    × (lba ≢ 1)
    × (lba ≢ inum)
    × ((j : ℕ) → j < m → n.ptrs j ≢ lba)

module _ (env : Env) (inum offset size m0 m : ℕ) (n : Inode) (buf : List ℕ) (map : Block)
    (s t : State) (more : m0 ≤ m) (up : Extended env inum offset m0 m n buf map s t) where
  -- No block of the file, with the new ones, is elsewhere.
  not_file : (lba : ℕ) → IsElsewhere s map m0 inum n lba → (j : ℕ) → j < m → up.file.ptrs j ≢ lba
  not_file lba (l, used, ne1, ne, file) j h same = elim (dec_lt j m0) [
    | yes a ↦ file j a (sym (up.grown.before j a) ∙ same)
    | no a ↦
        let (x, y, z) = up.grown.fresh j (omega arith) (omega arith) in
        let clash : true ≡ false = sym used ∙ ap (has_bit map) (sym same) ∙ z in cc
  ]

  pub same-IsElsewhere : SameOn (IsElsewhere s map m0 inum n) s.dev t.dev
  same-IsElsewhere k e =
      block_read-same s.dev t.dev k e.0 up.grows (up.others k e.0 e.2 e.3 (not_file k e))
        (ap (λ (f : ℕ → Bool). f k) up.bad_read_same)

  written_inode :
      (path : List ℕ)
      → translate s.dev path ≡ ok (inum, n)
      → s.super.disk_size ≤ 32768
      → read_inode t.dev inum ≡ ok (resized env (offset + length buf) up.file)
  unfolding read_inode
  written_inode path e disk =
      let (b, read, is) = translate-inode s.dev path inum n e in
      let n' = resized env (offset + length buf) up.file in
      let fits : IsInode n = rw is (decode_inode-IsInode b) in
      let grown =
        Grown-IsInode n up.file m0 (m - m0) map up.map_after s.super.disk_size up.grown disk fits in
      rw
        (
          read_again s.dev t.dev inum b read up.grows
              (ap (λ (f : ℕ → Bool). f inum) up.bad_read_same),
          up.inode,
        )
        (ap ok
          (decode_inode-encode_inode n' (resized-IsInode env (offset + length buf) up.file grown)))

  -- The size of the file after the write.
  new_size :
      (size_is : n.size ≡ pos size)
      → size < 2 ^ 31
      → offset + length buf < 2 ^ 31
      → (resized env (offset + length buf) up.file).size ≡ pos (max size (offset + length buf))
  new_size size_is fits l =
      let small : max size (offset + length buf) % 2 ^ 32 ≡ max size (offset + length buf) =
        omega arith in
      let below : max size (offset + length buf) < 2 ^ 31 = omega arith in
      let same : up.file.size ≡ pos size =
        ap (λ (g : Inode). g.size) up.grown.rest_same ∙ size_is in
      ap (λ z. signed32 (max (size_t_of z) (offset + length buf) % 2 ^ 32)) same
      ∙ rw (small, lt→ltb (max size (offset + length buf)) (2 ^ 31) below)

  same_mode : is_reg up.file.mode ≡ is_reg n.mode
  same_mode = ap (λ (g : Inode). is_reg g.mode) up.grown.rest_same

  file-Holds :
      max size (offset + length buf) ≤ m * 4096
      → Holds t.dev
          (resized env (offset + length buf) up.file)
          (λ j. t.dev.store (up.file.ptrs j))
          0
          (max size (offset + length buf))
  file-Holds most p l h =
      let j = p / 4096 in
      let here : j < m = omega arith in
      (
        omega (arith, up.ready.in_array),
        read_good t.dev (up.file.ptrs j) (omega (arith, up.ready.inside j here, up.grows))
            (omega (arith, (up.ready.writable j here).addressable))
            (ap (λ (f : ℕ → Bool). f (up.file.ptrs j)) up.bad_read_same ∙ up.ready.readable j here),
      )

  buffer_there :
      All (λ x. x < 256) buf
      → (offset + length buf + 4095) / 4096 ≡ m
      → file_slice (λ j. t.dev.store (up.file.ptrs j)) offset (length buf) ≡ buf
  buffer_there bytes inside =
      file_slice-list (λ j. t.dev.store (up.file.ptrs j)) offset buf
        (λ i l.
          let from : leb offset (offset + i) ≡ true = ground arith in
          let to : ltb (offset + i) (offset + length buf) ≡ true =
            lt→ltb (offset + i) (offset + length buf) (omega arith) in
          let at : offset + i - offset ≡ i = omega arith in
          up.contents (offset + i) (omega arith) ∙ rw (from, to, at) (get_or-byte buf i bytes))

-- On a sound image with as many free blocks as the write needs, where the blocks on the way to a
-- regular file of less than 2^31 bytes are in use and are not the file's own: a write of bytes
-- that starts inside the file or at its end and leaves it with no fewer blocks than it has, and at
-- most 1019, succeeds, and a read of the same path and range then returns the buffer.
pub fs_write-fs_read :
    (env : Env) (path buf : List ℕ) (inum offset size m0 m : ℕ) (n : Inode) (map : Block)
    (s : State)
    → translate s.dev path ≡ ok (inum, n)
    → is_dir n.mode ≡ false
    → is_reg n.mode ≡ true
    → n.size ≡ pos size
    → size < 2 ^ 31
    → offset ≤ size
    → (size + 4095) / 4096 ≡ m0
    → (offset + length buf + 4095) / 4096 ≡ m
    → m0 ≤ m
    → m ≤ 1019
    → IsFile inum m0 n map s
    → IsStorage map s
    → used_in map 2 (s.super.disk_size - 2) + (m - m0) ≤ s.super.disk_size - 2
    → Trail (IsElsewhere s map m0 inum n) s.dev (pathparse path) start
    → All (λ x. x < 256) buf
    → (t : State) × (fs_write env path buf offset s ≡ (ok (length buf), t))
      × (fs_read t path (length buf) offset ≡ ok buf)
fs_write-fs_read env path buf inum offset size m0 m n map s e file reg size_is fits at_most old
      inside more few is storage room trail bytes =
    let (t, ran, up) =
      fs_write-extends env path buf inum offset size m0 m n map s e file size_is fits at_most old
        inside more few is storage room in
    let n' = resized env (offset + length buf) up.file in
    let there =
      translate-frame (IsElsewhere s map m0 inum n) s.dev t.dev path inum n n'
        (same-IsElsewhere env inum offset size m0 m n buf map s t more up) trail e
        (written_inode env inum offset size m0 m n buf map s t more up path e storage.covered) in
    let small : offset + length buf < 2 ^ 31 = omega arith in
    let least : min (length buf) (max size (offset + length buf) - offset) ≡ length buf =
      omega arith in
    (
      t,
      ran,
      fs_read_lem t path (length buf) offset inum (max size (offset + length buf)) n'
            (λ j. t.dev.store (up.file.ptrs j)) there
            (same_mode env inum offset size m0 m n buf map s t more up ∙ reg)
            (new_size env inum offset size m0 m n buf map s t more up size_is fits small)
            (omega arith) (file-Holds env inum offset size m0 m n buf map s t more up (omega arith))
          ∙ ap ok (
              ap (file_slice (λ j. t.dev.store (up.file.ptrs j)) offset) least
              ∙ buffer_there env inum offset size m0 m n buf map s t more up bytes inside),
    )
