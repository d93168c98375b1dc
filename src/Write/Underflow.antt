-- ===== src/Write/Underflow.antt =====
-- The number of blocks that fs_write adds, where the file has more than the write needs.
use cs5600_project_3_file_sy.Common.{
  ℕ, zero, suc, ◌+◌, ◌-◌, ◌/◌, ◌%◌, ◌^◌, ◌≤◌, ◌<◌, ◌≡◌, ◌≢◌, inl, inr, refl, sym, ap, ◌∙◌, List,
  arith, not, some, length, ltb, ◌==◌,
}
use cs5600_project_3_file_sy.Common.Int.{pos}
use cs5600_project_3_file_sy.Outcome.{ok, enospc}
use cs5600_project_3_file_sy.Disk.{Block}
use cs5600_project_3_file_sy.Bitmap.{first_free, with_bit, has_bit}
use cs5600_project_3_file_sy.Bitmap.Free.{first_free_lem}
use cs5600_project_3_file_sy.Bitmap.Count.{used_in, used_in-le, used_in-with_bit}
use cs5600_project_3_file_sy.Format.{Inode, encode_inode}
use cs5600_project_3_file_sy.State.{State, Env, ◌>>=◌, ◌>>◌, lift, require, set_bit, write_block}
use cs5600_project_3_file_sy.State.Steps.{
  bind-ok, lift-then, reads-then, require-then, set_bit-then,
}
use cs5600_project_3_file_sy.Write.{
  set_ptr, grow, write_loop, resized, save_if, write_at, blocks_of, blocks_needed, size_t_of,
}

-- The block that an allocation takes was free, so one more is used.
took_free :
    (map : Block) (disk_size r : ℕ)
    → disk_size ≤ 32768
    → first_free (some map) disk_size ≡ ok r
    → r ≢ 0
    → used_in (with_bit map r) 2 (disk_size - 2) ≡ used_in map 2 (disk_size - 2) + 1
took_free map disk_size r h e z =
    let (r', e', found) = first_free_lem map disk_size h in
    let same : ok r ≡ ok r' = sym e ∙ e' in
    let same_r : r ≡ r' = cc in
    elim found [
      | inl (z', all) ↦ absurd (z (same_r ∙ z'))
      | inr (l, m, free, all) ↦
          used_in-with_bit map r 2 (disk_size - 2) (ap (has_bit map) same_r ∙ free) (omega arith)
            (omega arith)
    ]

-- A loop that succeeds has found a free block in each round.
pub grow_bound :
    (rounds : ℕ) (n g : Inode) (i : ℕ) (map : Block) (s t : State)
    → s.super.disk_size ≤ 32768
    → s.bitmap ≡ some map
    → grow n i rounds s ≡ (ok g, t)
    → rounds + used_in map 2 (s.super.disk_size - 2) ≤ s.super.disk_size - 2
unfolding grow
grow_bound zero n g i map s t h e k = omega (arith, used_in-le map 2 (s.super.disk_size - 2))
grow_bound (suc rounds) n g i map s t h e k =
    let next = λ (m : Inode). grow m (i + 1) rounds in
    let (r, e1, k1) =
      reads-then (λ s. first_free s.bitmap s.super.disk_size)
        (λ new_block.
          require (not (new_block == 0)) enospc
          >> (set_bit new_block >> (lift (set_ptr n i new_block) >>= next)))
        s k in
    let (z, k2) =
      require-then (not (r == 0)) enospc (set_bit r >> (lift (set_ptr n i r) >>= next)) s k1 in
    let (l, k3) = set_bit-then r map (lift (set_ptr n i r) >>= next) s e k2 in
    let (m, e4, k4) =
      lift-then (set_ptr n i r) next (record s { bitmap = some (with_bit map r) }) k3 in
    let nonzero : r ≢ 0 = ground arith in
    let rest =
      grow_bound rounds m g (i + 1) (with_bit map r) (record s { bitmap = some (with_bit map r) }) t
        h refl k4 in
    omega (
      arith,
      rest,
      took_free map s.super.disk_size r h (ap (λ o. first_free o s.super.disk_size) (sym e) ∙ e1)
          nonzero,
    )

wraps :
    (new_blocks current_blocks : ℕ)
    → new_blocks < current_blocks
    → current_blocks ≤ 2 ^ 31
    → 32768 < blocks_needed new_blocks current_blocks
unfolding blocks_needed
wraps new_blocks current_blocks h l = omega arith

-- A write that would leave the file with fewer blocks than it has never succeeds.
pub write_at_underflow :
    (env : Env) (inum offset size : ℕ) (n : Inode) (buf : List ℕ) (map : Block) (s t : State)
    (k : ℕ)
    → n.size ≡ pos size
    → size < 2 ^ 31
    → s.super.disk_size ≤ 32768
    → s.bitmap ≡ some map
    → (offset + length buf + 4095) / 4096 < (size + 4095) / 4096
    → write_at env inum n buf offset s ≢ (ok k, t)
unfolding write_at
write_at_underflow env inum offset size n buf map s t k e small disk b less h =
    let new_size = (offset + length buf) % 2 ^ 64 in
    let new_blocks = blocks_of new_size in
    let current_blocks = blocks_of (size_t_of n.size) in
    let cur : current_blocks ≡ (size + 4095) / 4096 =
      ap (λ z. blocks_of (size_t_of z)) e ∙ omega arith in
    let (g, u, grown, rest) =
      bind-ok (grow n current_blocks (blocks_needed new_blocks current_blocks))
        (λ g.
          write_loop g offset buf (length buf) (length buf)
          >> (write_block inum (encode_inode (resized env new_size g))
              >> (save_if (ltb current_blocks new_blocks) >> lift (ok (length buf)))))
        s h in
    omega (
      arith,
      grow_bound (blocks_needed new_blocks current_blocks) n g current_blocks map s u disk b grown,
      wraps new_blocks current_blocks (omega arith) (omega arith),
    )
