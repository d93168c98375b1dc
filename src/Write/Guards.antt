-- ===== src/Write/Guards.antt =====
-- fs_write up to its guards, and what follows them, taken apart where the call succeeds.
use cs5600_project_3_file_sy.Common.{
  ℕ, ◌+◌, ◌%◌, ◌^◌, ◌≡◌, sym, ap, ◌∙◌, List, arith, false, not, ltb, length,
}
use cs5600_project_3_file_sy.Outcome.{Outcome, ok, eisdir, einval}
use cs5600_project_3_file_sy.Disk.{Device, block_write}
use cs5600_project_3_file_sy.Format.{Inode, encode_inode, is_dir}
use cs5600_project_3_file_sy.Translate.{translate}
use cs5600_project_3_file_sy.State.{State, Env, M, ◌>>◌, lift, require, write_block}
use cs5600_project_3_file_sy.State.Steps.{bind-ok, reads-then, require-then, write_block-then}
use cs5600_project_3_file_sy.Write.{
  grow, write_loop, resized, save_if, write_at, fs_write, past_end, blocks_of, blocks_needed,
  size_t_of,
}

-- A successful call has passed its guards.
pub fs_write-write_at :
    (env : Env) (path buf : List ℕ) (offset : ℕ) (s t : State) (k inum : ℕ) (n : Inode)
    → translate s.dev path ≡ ok (inum, n)
    → fs_write env path buf offset s ≡ (ok k, t)
    → (is_dir n.mode ≡ false)
      × (past_end offset n.size ≡ false)
      × (write_at env inum n buf offset s ≡ (ok k, t))
unfolding fs_write
fs_write-write_at env path buf offset s t k inum n e h =
    let after = λ (r : ℕ × Inode).
      require (not (is_dir r.1.mode)) eisdir
      >> (require (not (past_end offset r.1.size)) einval >> write_at env r.0 r.1 buf offset) in
    let (r, f, h1) = reads-then (λ s. translate s.dev path) after s h in
    let same : ok (inum, n) ≡ ok r = sym e ∙ f in
    let same_r : (inum, n) ≡ r = cc in
    let h2 : after (inum, n) s ≡ (ok k, t) = ap (λ (x : ℕ × Inode). after x s) same_r ∙ h1 in
    let (a, h3) =
      require-then (not (is_dir n.mode)) eisdir
        (require (not (past_end offset n.size)) einval >> write_at env inum n buf offset) s h2 in
    let (b, h4) =
      require-then (not (past_end offset n.size)) einval (write_at env inum n buf offset) s h3 in
    (ground arith, ground arith, h4)

-- What the rest of a successful call consists of.
pub record Written (env : Env) (inum offset : ℕ) (n : Inode) (buf : List ℕ) (s t : State)
    : Type 0 where
  pub grown : Inode
  pub middle : State
  pub last : State
  pub grew :
      grow n
        (blocks_of (size_t_of n.size))
        (blocks_needed (blocks_of ((offset + length buf) % 2 ^ 64)) (blocks_of (size_t_of n.size)))
        s
      ≡ (ok grown, middle)
  pub wrote : write_loop grown offset buf (length buf) (length buf) middle ≡ (ok tt, last)
  pub dev : Device
  pub inode_written :
      block_write last.dev inum (encode_inode (resized env ((offset + length buf) % 2 ^ 64) grown))
      ≡ ok dev
  pub saved :
      save_if
        (ltb (blocks_of (size_t_of n.size)) (blocks_of ((offset + length buf) % 2 ^ 64)))
        (record last { dev = dev })
      ≡ (ok tt, t)

pub write_at-Written :
    (env : Env) (inum offset : ℕ) (n : Inode) (buf : List ℕ) (s t : State) (k : ℕ)
    → write_at env inum n buf offset s ≡ (ok k, t)
    → (k ≡ length buf) × Written env inum offset n buf s t
unfolding write_at
write_at-Written env inum offset n buf s t k h =
    let new_size = (offset + length buf) % 2 ^ 64 in
    let new_blocks = blocks_of new_size in
    let current_blocks = blocks_of (size_t_of n.size) in
    let done : M ℕ = lift (ok (length buf)) in
    let save : M ℕ = save_if (ltb current_blocks new_blocks) >> done in
    let store = λ (g : Inode). write_block inum (encode_inode (resized env new_size g)) >> save in
    let (g, u, e1, h1) =
      bind-ok (grow n current_blocks (blocks_needed new_blocks current_blocks))
        (λ g. write_loop g offset buf (length buf) (length buf) >> store g) s h in
    let (x, v, e2, h2) =
      bind-ok (write_loop g offset buf (length buf) (length buf)) (λ _. store g) u h1 in
    let (d, e3, h3) = write_block-then inum (encode_inode (resized env new_size g)) save v h2 in
    let (y, w, e4, h4) =
      bind-ok (save_if (ltb current_blocks new_blocks)) (λ _. done) (record v { dev = d }) h3 in
    (
      ground arith,
      record {
        grown = g;
        middle = u;
        last = v;
        grew = e1;
        wrote = e2;
        dev = d;
        inode_written = e3;
        saved = e4 ∙ ap (λ (z : State). (ok tt, z)) (ap (λ (x : Outcome ℕ × State). x.1) h4);
      },
    )
