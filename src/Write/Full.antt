-- ===== src/Write/Full.antt =====
-- fs_write where there are not as many free blocks as it needs.
use cs5600_project_3_file_sy.Common.{
  ℕ, zero, suc, ◌+◌, ◌-◌, ◌/◌, ◌%◌, ◌^◌, ◌≤◌, ◌<◌, ◌≡◌, inl, inr, refl, ap, ◌∙◌, List, arith, false,
  not, some, length, ltb, ◌==◌, ==_ne, lt→ltb,
}
use cs5600_project_3_file_sy.Common.Int.{pos}
use cs5600_project_3_file_sy.Outcome.{ok, err, enospc}
use cs5600_project_3_file_sy.Disk.{Block}
use cs5600_project_3_file_sy.Bitmap.{with_bit, first_free}
use cs5600_project_3_file_sy.Bitmap.Free.{AllUsed, first_free_lem}
use cs5600_project_3_file_sy.Bitmap.Count.{used_in, used_in-le, used_in-with_bit}
use cs5600_project_3_file_sy.Format.{Inode, encode_inode, is_dir}
use cs5600_project_3_file_sy.Translate.{translate}
use cs5600_project_3_file_sy.State.{State, Env, M, ◌>>=◌, ◌>>◌, lift, require, set_bit, write_block}
use cs5600_project_3_file_sy.State.Runs.{
  bind-to, bind-fails, reads-to, lift-to, require-to, set_bit-to,
}
use cs5600_project_3_file_sy.Write.{
  set_ptr, grow, write_loop, blocks_of, blocks_needed, size_t_of, resized, save_if, write_at,
  fs_write,
}
use cs5600_project_3_file_sy.Write.Grow.{with_ptr}
use cs5600_project_3_file_sy.Write.Runs.{write_counts, fs_write-to}

-- With fewer free blocks than there are rounds, the loop takes them all and fails.
pub grow-enospc :
    (n : Inode) (i r : ℕ) (map : Block) (s : State)
    → s.bitmap ≡ some map
    → s.super.disk_size ≤ 32768
    → i + r ≤ 1019
    → s.super.disk_size - 2 < used_in map 2 (s.super.disk_size - 2) + r
    → (map' : Block) × (grow n i r s ≡ (err enospc, record s { bitmap = some map' }))
      × AllUsed map' 2 s.super.disk_size
unfolding grow set_ptr
grow-enospc n i zero map s b disk fits full =
    absurd (omega (arith, used_in-le map 2 (s.super.disk_size - 2)))
grow-enospc n i (suc r) map s b disk fits full =
    let (a, found, is) = first_free_lem map s.super.disk_size disk in
    let next = λ (m : Inode). grow m (i + 1) r in
    let assign = λ (x : ℕ). lift (set_ptr n i x) >>= next in
    let mark = λ (x : ℕ). set_bit x >> assign x in
    let start =
      reads-to (λ s. first_free s.bitmap s.super.disk_size)
        (λ x. require (not (x == 0)) enospc >> mark x) s a
        (ap (λ m. first_free m s.super.disk_size) b ∙ found) in
    elim is [
      | inl (z, all) ↦ (map, start ∙ rw (z, b), all)
      | inr (from, to, clear, before) ↦
          let map1 = with_bit map a in
          let u : State = record s { bitmap = some map1 } in
          let count = used_in-with_bit map a 2 (s.super.disk_size - 2) clear from (omega arith) in
          let (map', later, all) =
            grow-enospc (with_ptr n i a) (i + 1) r map1 u refl disk (omega arith)
              (omega (arith, count)) in
          (
            map',
            start
                ∙ require-to (not (a == 0)) enospc (mark a) s (ap not (==_ne a 0 (omega arith)))
                ∙ bind-to (set_bit a) (λ _. assign a) s u tt (set_bit-to a map s b (omega arith))
                ∙ lift-to (set_ptr n i a) next u (with_ptr n i a) (rw (lt→ltb i 1019 (omega arith)))
                ∙ later,
            all,
          )
    ]

-- Where a write that starts inside a file of less than 2^31 bytes or at its end would leave it
-- with at most 1019 blocks, no fewer than it has, and needs more blocks than are free, on a disk
-- that the bitmap covers, fs_write returns -ENOSPC and leaves the image as it was, with all blocks
-- from 2 on marked as used in memory.
pub fs_write-enospc :
    (env : Env) (path buf : List ℕ) (inum offset size m0 m : ℕ) (n : Inode) (map : Block)
    (s : State)
    → translate s.dev path ≡ ok (inum, n)
    → is_dir n.mode ≡ false
    → n.size ≡ pos size
    → size < 2 ^ 31
    → offset ≤ size
    → (size + 4095) / 4096 ≡ m0
    → (offset + length buf + 4095) / 4096 ≡ m
    → m0 ≤ m
    → m ≤ 1019
    → s.bitmap ≡ some map
    → s.super.disk_size ≤ 32768
    → s.super.disk_size - 2 < used_in map 2 (s.super.disk_size - 2) + (m - m0)
    → (map' : Block) × (fs_write env path buf offset s
        ≡ (err enospc, record s { bitmap = some map' }))
      × AllUsed map' 2 s.super.disk_size
unfolding write_at
fs_write-enospc env path buf inum offset size m0 m n map s e file size_is fits at_most old inside
      more few b disk full =
    let new_size = (offset + length buf) % 2 ^ 64 in
    let new_blocks = blocks_of new_size in
    let current_blocks = blocks_of (size_t_of n.size) in
    let (current, needed) = write_counts offset size m0 m n buf size_is fits old inside more few in
    let (map', fails, all) = grow-enospc n m0 (m - m0) map s b disk (omega arith) full in
    let start : grow n current_blocks (blocks_needed new_blocks current_blocks) s
        ≡ (err enospc, record s { bitmap = some map' }) =
      ap (λ c. grow n c (blocks_needed new_blocks current_blocks) s) current
      ∙ ap (λ k. grow n m0 k s) needed
      ∙ fails in
    let save : M ℕ = save_if (ltb current_blocks new_blocks) >> lift (ok (length buf)) in
    let fill = λ (g : Inode).
      write_loop g offset buf (length buf) (length buf)
      >> (write_block inum (encode_inode (resized env new_size g)) >> save) in
    (
      map',
      fs_write-to env path buf inum offset size n s e file size_is at_most
          ∙ bind-fails (grow n current_blocks (blocks_needed new_blocks current_blocks)) fill s
              (record s { bitmap = some map' }) enospc start,
      all,
    )
