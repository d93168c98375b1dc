-- ===== src/Tests/Growth.antt =====
-- fs_write with a new block, on the test image.
use cs5600_project_3_file_sy.Common.{
  some, ℕ, zero, suc, ◌≤◌, ◌<◌, ◌≡◌, ◌≢◌, refl, ap, List, [], ◌∷◌, All, length, arith, true, false,
}
use cs5600_project_3_file_sy.Outcome.{ok, err, enospc}
use cs5600_project_3_file_sy.Disk.{Block}
use cs5600_project_3_file_sy.Bitmap.Free.{AllUsed}
use cs5600_project_3_file_sy.Write.Full.{fs_write-enospc}
use cs5600_project_3_file_sy.Disk.{block_read}
use cs5600_project_3_file_sy.Bitmap.{has_bit}
use cs5600_project_3_file_sy.Bitmap.Count.{used_in}
use cs5600_project_3_file_sy.Format.{Inode, decode_inode, encode_inode, is_dir}
use cs5600_project_3_file_sy.Path.{skip_slashes, cut, strtok, tokens, pathparse}
use cs5600_project_3_file_sy.Dir.{read_inode, dir_blocks}
use cs5600_project_3_file_sy.Translate.{start}
use cs5600_project_3_file_sy.Translate.Frame.{IsKept, Trail}
use cs5600_project_3_file_sy.State.{State}
use cs5600_project_3_file_sy.State.Runs.{IsWritable}
use cs5600_project_3_file_sy.Read.{fs_read}
use cs5600_project_3_file_sy.Write.{fs_write}
use cs5600_project_3_file_sy.Write.Extend.{IsFile, IsStorage, Extended}
use cs5600_project_3_file_sy.Write.Extended.{fs_write-extends}
use cs5600_project_3_file_sy.Write.ReadBack.{IsElsewhere, fs_write-fs_read}
use cs5600_project_3_file_sy.Tests.Files.{
  stored_inode, f_found, f_is_reg, f_size, f_inside, f_different, f_apart,
}
use cs5600_project_3_file_sy.Tests.Refusals.{root_inode}
use cs5600_project_3_file_sy.Tests.Image.{codes, env, device, contents, map_block, state}

-- That many bytes of 7.
abbrev fill : ℕ → List ℕ
fill zero = []
fill (suc n) = 7 ∷ fill n

length-fill : (n : ℕ) → length (fill n) ≡ n
length-fill zero = refl
length-fill (suc n) = rw (length-fill n)

fill_bytes : (n : ℕ) → All (λ x. x < 256) (fill n)
fill_bytes zero = tt
fill_bytes (suc n) = (omega arith, fill_bytes n)

pub block-IsWritable : (k : ℕ) → 0 < k → k < 16 → IsWritable device k
block-IsWritable k from to = record { positive = from; addressable = omega arith; good = refl }

f_positive : (j : ℕ) → j < 2 → 2 ≤ stored_inode.ptrs j
unfolding decode_inode contents encode_inode
f_positive zero h = omega arith
f_positive (suc zero) h = omega arith
f_positive (suc (suc j)) h = absurd (omega arith)

f_used : (j : ℕ) → j < 2 → has_bit map_block (stored_inode.ptrs j) ≡ true
unfolding decode_inode contents encode_inode has_bit
f_used zero h = refl
f_used (suc zero) h = refl
f_used (suc (suc j)) h = absurd (omega arith)

six_used : has_bit map_block 6 ≡ true
unfolding has_bit
six_used = refl

pub f_is_file : is_dir stored_inode.mode ≡ false
unfolding is_dir decode_inode contents encode_inode
f_is_file = refl

f-IsFile : IsFile 6 2 stored_inode map_block state
f-IsFile = record {
  ready = record {
    in_array = omega arith;
    inside = f_inside;
    readable = λ j l. refl;
    writable = λ j l.
        block-IsWritable (stored_inode.ptrs j) (omega (arith, f_positive j l))
          (omega (arith, f_inside j l));
  };
  separate = record { inside = f_inside; different = f_different };
  used = f_used;
  inode_used = six_used;
  inode_writable = block-IsWritable 6 (omega arith) (omega arith);
  apart = f_apart;
  apart_map = λ j l e. omega (arith, f_positive j l);
  inode_apart = λ e. omega arith;
}

pub state-IsStorage : IsStorage map_block state
state-IsStorage = record {
  loaded = refl;
  covered = omega arith;
  map_writable = block-IsWritable 1 (omega arith) (omega arith);
  free_inside = λ k from to free. to;
  free_readable = λ k from to free. refl;
  free_writable = λ k from to free. block-IsWritable k (omega arith) to;
}

-- Blocks 2 to 10 are in use.
nine_used : used_in map_block 2 14 ≡ 9
unfolding has_bit
nine_used = refl

fs_write-extends_example :
    (t : State) × (fs_write env (codes "f") (fill 3200) 5000 state ≡ (ok (length (fill 3200)), t))
    × Extended env 6 5000 2 3 stored_inode (fill 3200) map_block state t
fs_write-extends_example =
    fs_write-extends env (codes "f") (fill 3200) 6 5000 5000 2 3 stored_inode map_block state
      f_found f_is_file f_size (omega arith) (omega arith) (omega arith)
      (omega (arith, length-fill 3200)) (omega arith) (omega arith) f-IsFile state-IsStorage
      (omega (arith, nine_used))

-- A directory of one block.
pub IsKept-at :
    (P : ℕ → Type 0) (inum k : ℕ) (dir : Inode)
    → read_inode device inum ≡ ok dir
    → dir_blocks dir.size ≡ 1
    → dir.ptrs 0 ≡ k
    → P inum
    → P k
    → IsKept P device inum
IsKept-at P inum k dir read one at here there = record {
  inode = here;
  entries = λ n j e l.
      let same : dir ≡ n = cc in
      let first : j ≡ 0 = omega (arith, ap (λ (n : Inode). dir_blocks n.size) same, one) in
      rw (← same, first, at) there;
}

pub root_read : read_inode device 2 ≡ ok root_inode
unfolding read_inode block_read contents
root_read = refl

pub root_one : dir_blocks root_inode.size ≡ 1
unfolding dir_blocks decode_inode contents encode_inode
root_one = refl

pub root_ptr : root_inode.ptrs 0 ≡ 3
unfolding decode_inode contents encode_inode
root_ptr = refl

two_used : has_bit map_block 2 ≡ true
unfolding has_bit
two_used = refl

three_used : has_bit map_block 3 ≡ true
unfolding has_bit
three_used = refl

not_f : (k : ℕ) → k < 4 → (j : ℕ) → j < 2 → stored_inode.ptrs j ≢ k
unfolding decode_inode contents encode_inode
not_f k l zero h e = omega arith
not_f k l (suc zero) h e = omega arith
not_f k l (suc (suc j)) h e = absurd (omega arith)

f-Trail : Trail (IsElsewhere state map_block 2 6 stored_inode) device (pathparse (codes "f")) start
unfolding pathparse tokens strtok cut skip_slashes
f-Trail = (
  IsKept-at (IsElsewhere state map_block 2 6 stored_inode) 2 3 root_inode root_read root_one
      root_ptr
      (omega arith, two_used, (λ e. omega arith), (λ e. omega arith), not_f 2 (omega arith))
      (omega arith, three_used, (λ e. omega arith), (λ e. omega arith), not_f 3 (omega arith)),
  λ c e. tt,
)

fs_write-fs_read_example :
    (t : State) × (fs_write env (codes "f") (fill 3200) 5000 state ≡ (ok (length (fill 3200)), t))
    × (fs_read t (codes "f") (length (fill 3200)) 5000 ≡ ok (fill 3200))
fs_write-fs_read_example =
    fs_write-fs_read env (codes "f") (fill 3200) 6 5000 5000 2 3 stored_inode map_block state
      f_found f_is_file f_is_reg f_size (omega arith) (omega arith) (omega arith)
      (omega (arith, length-fill 3200)) (omega arith) (omega arith) f-IsFile state-IsStorage
      (omega (arith, nine_used)) f-Trail (fill_bytes 3200)

-- Six new blocks where five are free.
fs_write-enospc_example :
    (map' : Block) × (fs_write env (codes "f") (fill 25000) 5000 state
      ≡ (err enospc, record state { bitmap = some map' }))
    × AllUsed map' 2 16
fs_write-enospc_example =
    fs_write-enospc env (codes "f") (fill 25000) 6 5000 5000 2 8 stored_inode map_block state
      f_found f_is_file f_size (omega arith) (omega arith) (omega arith)
      (omega (arith, length-fill 25000)) (omega arith) (omega arith) refl (omega arith)
      (omega (arith, nine_used))
