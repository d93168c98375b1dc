-- ===== src/Write/Extended.antt =====
-- fs_write run forward, with the blocks that it allocates.
use cs5600_project_3_file_sy.Common.{
  ℕ, ◌+◌, ◌-◌, ◌/◌, ◌%◌, ◌^◌, ◌≤◌, ◌<◌, ◌≡◌, ap, ◌∙◌, List, arith, true, false, ltb, lt→ltb, le→ltb,
  length, some,
}
use cs5600_project_3_file_sy.Common.Int.{pos}
use cs5600_project_3_file_sy.Outcome.{ok}
use cs5600_project_3_file_sy.Disk.{Block}
use cs5600_project_3_file_sy.Bitmap.Count.{used_in}
use cs5600_project_3_file_sy.Format.{Inode, encode_inode, is_dir}
use cs5600_project_3_file_sy.Translate.{translate}
use cs5600_project_3_file_sy.State.{State, Env, M, ◌>>◌, lift, write_block}
use cs5600_project_3_file_sy.State.Runs.{bind-to}
use cs5600_project_3_file_sy.Write.{
  write_loop, grow, blocks_of, blocks_needed, size_t_of, resized, save_if, write_at, fs_write,
}
use cs5600_project_3_file_sy.Write.Runs.{write_loop-runs, write_counts, fs_write-to}
use cs5600_project_3_file_sy.Write.Grow.{grow-runs}
use cs5600_project_3_file_sy.Write.Extend.{IsFile, IsStorage, Extended, grown-Ready}
use cs5600_project_3_file_sy.Write.Saved.{final, finish-to, final-Extended}

module _ (env : Env) (inum offset size m0 m : ℕ) (n : Inode) (buf : List ℕ) (map : Block)
    (s : State) (size_is : n.size ≡ pos size) (size_fits : size < 2 ^ 31)
    (old : (size + 4095) / 4096 ≡ m0) (inside : (offset + length buf + 4095) / 4096 ≡ m)
    (more : m0 ≤ m) (few : m ≤ 1019) (file : IsFile inum m0 n map s) (storage : IsStorage map s)
    (room : used_in map 2 (s.super.disk_size - 2) + (m - m0) ≤ s.super.disk_size - 2) where
  exact : (offset + length buf) % 2 ^ 64 ≡ offset + length buf
  exact = omega arith

  write_at-extends :
      (t : State) × (write_at env inum n buf offset s ≡ (ok (length buf), t))
      × Extended env inum offset m0 m n buf map s t
  unfolding write_at
  write_at-extends =
      let (current, needed) =
        write_counts offset size m0 m n buf size_is size_fits old inside more few in
      let new_size = (offset + length buf) % 2 ^ 64 in
      let new_blocks = blocks_of new_size in
      let current_blocks = blocks_of (size_t_of n.size) in
      let (g, map', grew, grown) =
        grow-runs n m0 (m - m0) map s storage.loaded storage.covered (omega arith) room in
      let u : State = record s { bitmap = some map' } in
      let ready = grown-Ready inum m0 m n g map map' s file storage more few grown in
      let (last, looped) =
        write_loop-runs m g (length buf) offset (length buf) buf u
          (record {
            in_array = ready.in_array;
            inside = ready.inside;
            readable = ready.readable;
            writable = ready.writable;
          })
          (omega arith) (omega arith) in
      let flag = ltb current_blocks new_blocks in
      let flag_is : m0 < m → flag ≡ true =
        λ l. lt→ltb current_blocks new_blocks (omega (arith, current)) in
      let flag_not : m0 ≡ m → flag ≡ false =
        λ e. le→ltb current_blocks new_blocks (omega (arith, current)) in
      let t =
        final env inum offset size m0 m n g buf map map' s last file storage more few grown looped
          inside flag flag_is flag_not in
      let done : M ℕ = lift (ok (length buf)) in
      let save : M ℕ = save_if flag >> done in
      let store = λ (g : Inode). write_block inum (encode_inode (resized env new_size g)) >> save in
      let start : grow n current_blocks (blocks_needed new_blocks current_blocks) s ≡ (ok g, u) =
        ap (λ c. grow n c (blocks_needed new_blocks current_blocks) s) current
        ∙ ap (λ k. grow n m0 k s) needed
        ∙ grew in
      (
        t,
        bind-to (grow n current_blocks (blocks_needed new_blocks current_blocks))
              (λ g. write_loop g offset buf (length buf) (length buf) >> store g) s u g start
            ∙ bind-to (write_loop g offset buf (length buf) (length buf)) (λ _. store g) u last tt
                looped
            ∙ ap (λ z. (write_block inum (encode_inode (resized env z g)) >> save) last) exact
            ∙ finish-to env inum offset size m0 m n g buf map map' s last file storage more few
                grown looped inside flag flag_is flag_not,
        final-Extended env inum offset size m0 m n g buf map map' s last file storage more few grown
            looped inside flag flag_is flag_not,
      )

-- On a sound image with as many free blocks as the write needs, a write that starts inside a file
-- of less than 2^31 bytes or at its end, and leaves it with no fewer blocks than it has, and at
-- most 1019, succeeds: it returns the length of the buffer. The file has then got its new blocks
-- from the free ones, they are marked in the bitmap, which is saved if there are any and is not written if there are none, the file
-- holds the buffer at `offset` and its old bytes elsewhere, its inode has the larger of the old
-- and the new size, and all other blocks are as before.
pub fs_write-extends :
    (env : Env) (path buf : List ℕ) (inum offset size m0 m : ℕ) (n : Inode) (map : Block)
    (s : State)
    → translate s.dev path ≡ ok (inum, n)
    → is_dir n.mode ≡ false
    → n.size ≡ pos size
    → size < 2 ^ 31
    → offset ≤ size
    → (size + 4095) / 4096 ≡ m0
    → (offset + length buf + 4095) / 4096 ≡ m
    → m0 ≤ m
    → m ≤ 1019
    → IsFile inum m0 n map s
    → IsStorage map s
    → used_in map 2 (s.super.disk_size - 2) + (m - m0) ≤ s.super.disk_size - 2
    → (t : State) × (fs_write env path buf offset s ≡ (ok (length buf), t))
      × Extended env inum offset m0 m n buf map s t
fs_write-extends env path buf inum offset size m0 m n map s e file size_is fits at_most old inside
      more few is storage room =
    let (t, ran, done) =
      write_at-extends env inum offset size m0 m n buf map s size_is fits old inside more few is
        storage room in
    (t, fs_write-to env path buf inum offset size n s e file size_is at_most ∙ ran, done)
