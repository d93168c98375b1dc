-- ===== src/Write/Done.antt =====
-- The contents of a file after the writing loop of fs_write.
use cs5600_project_3_file_sy.Common.{
  ℕ, zero, suc, ◌+◌, ◌-◌, ◌*◌, ◌/◌, ◌%◌, ◌≤◌, ◌<◌, ◌≡◌, ◌≢◌, inl, inr, refl, sym, ap, ◌∙◌, List,
  arith, Bool, Bool-cases, ◌⊎◌, ◌||◌, ◌&&◌, ltb, leb, get_or, drop, get_or-drop, if◌then◌else◌,
}
use cs5600_project_3_file_sy.Outcome.{Outcome, ok}
use cs5600_project_3_file_sy.Disk.{Block, Device, zero_block, block_read, block_write}
use cs5600_project_3_file_sy.Disk.Access.{block_write-Wrote}
use cs5600_project_3_file_sy.Format.{Inode}
use cs5600_project_3_file_sy.Dir.{ptr_at}
use cs5600_project_3_file_sy.State.{State, M, ◌>>=◌, ◌>>◌, lift, reads, write_block}
use cs5600_project_3_file_sy.State.Steps.{lift-then, reads-then, write_block-then}
use cs5600_project_3_file_sy.Read.{chunk}
use cs5600_project_3_file_sy.Write.{patch, old_block, write_loop}
use cs5600_project_3_file_sy.Write.Loop.{
  file_byte, Separate, Round, Round-byte, block_read-store, stored_ne,
}

-- Beside the file's own blocks nothing has changed.
pub record Untouched (m : ℕ) (n : Inode) (s t : State) : Type 0 where
  pub others :
      (lba : ℕ)
      → lba < s.dev.blocks
      → ((j : ℕ) → j < m → n.ptrs j ≢ lba)
      → t.dev.store lba ≡ s.dev.store lba
  pub grows : s.dev.blocks ≤ t.dev.blocks
  pub super_same : t.super ≡ s.super
  pub bitmap_same : t.bitmap ≡ s.bitmap
  pub bad_read_same : t.dev.bad_read ≡ s.dev.bad_read
  pub bad_write_same : t.dev.bad_write ≡ s.dev.bad_write

ptr_at-ok : (n : Inode) (i lba : ℕ) → ptr_at n i ≡ ok lba → (i < 1019) × (lba ≡ n.ptrs i)
unfolding ptr_at
ptr_at-ok n i lba h = ground arith

make_Round :
    (n : Inode) (at k lba : ℕ) (buf : List ℕ) (s : State) (b : Block) (d : Device)
    → ptr_at n (at / 4096) ≡ ok lba
    → (b ≡ s.dev.store lba) ⊎ ((at % 4096 ≡ 0) × (4096 ≤ k))
    → block_write s.dev lba (patch b (at % 4096) buf k) ≡ ok d
    → Round n at k buf s (record s { dev = d })
make_Round n at k lba buf s b d found old w =
    let (in_array, ptr) = ptr_at-ok n (at / 4096) lba found in
    record {
      in_array = in_array;
      old = b;
      old_is = rw (← ptr) old;
      dev = d;
      wrote = rw (← ptr) (block_write-Wrote s.dev lba (patch b (at % 4096) buf k) d w);
      after = refl;
    }

old_block-then :
    (n : Inode) (at k lba : ℕ) (f : Block → M (Unit {0})) (s t : State)
    → (old_block at k lba >>= f) s ≡ (ok tt, t)
    → (b : Block) × ((b ≡ s.dev.store lba) ⊎ ((at % 4096 ≡ 0) × (4096 ≤ k))) × (f b s ≡ (ok tt, t))
old_block-then n at k lba f s t h = elim (Bool-cases (ltb 0 (at % 4096) || ltb k 4096)) [
  | inl e ↦
      let (b, g, rest) =
        reads-then (λ s. block_read s.dev lba) f s
          (ap
              (λ (c : Bool).
                ((if c then reads (λ s. block_read s.dev lba) else lift (ok zero_block)) >>= f) s)
              (sym e)
            ∙ h) in
      (b, inl (block_read-store s.dev lba b g), rest)
  | inr e ↦
      let rest : f zero_block s ≡ (ok tt, t) =
        ap
          (λ (c : Bool).
            ((if c then reads (λ s. block_read s.dev lba) else lift (ok zero_block)) >>= f) s)
          (sym e)
        ∙ h in
      (zero_block, inr (ground arith), rest)
]

write_loop-Round :
    (n : Inode) (at : ℕ) (buf : List ℕ) (r fuel : ℕ) (s t : State)
    → write_loop n at buf (suc r) (suc fuel) s ≡ (ok tt, t)
    → (u : State) × Round n at (chunk at (suc r)) buf s u
      × (write_loop n
            (at + chunk at (suc r))
            (drop (chunk at (suc r)) buf)
            (suc r - chunk at (suc r))
            fuel
            u
          ≡ (ok tt, t))
unfolding write_loop
write_loop-Round n at buf r fuel s t h =
    let k = chunk at (suc r) in
    let rest = write_loop n (at + k) (drop k buf) (suc r - k) fuel in
    let put = λ (lba : ℕ) (b : Block). write_block lba (patch b (at % 4096) buf k) >> rest in
    let (lba, found, h1) =
      lift-then (ptr_at n (at / 4096)) (λ lba. old_block at k lba >>= put lba) s h in
    let (b, old_is, h2) = old_block-then n at k lba (put lba) s t h1 in
    let (d, w, h3) = write_block-then lba (patch b (at % 4096) buf k) rest s h2 in
    (record s { dev = d }, make_Round n at k lba buf s b d found old_is w, h3)

Round-Untouched :
    (m : ℕ) (n : Inode) (at k : ℕ) (buf : List ℕ) (s u : State)
    → at / 4096 < m
    → Round n at k buf s u
    → Untouched m n s u
Round-Untouched m n at k buf s u ma r =
    rw (r.after, r.wrote.result)
      (record {
        others = λ lba l ne.
            stored_ne s.dev (n.ptrs (at / 4096)) lba (patch r.old (at % 4096) buf k)
              (λ e. ne (at / 4096) ma (sym e)) l;
        grows = omega arith;
        super_same = refl;
        bitmap_same = refl;
        bad_read_same = refl;
        bad_write_same = refl;
      })

Untouched-refl : (m : ℕ) (n : Inode) (s : State) → Untouched m n s s
Untouched-refl m n s = record {
  others = λ lba l ne. refl;
  grows = omega arith;
  super_same = refl;
  bitmap_same = refl;
  bad_read_same = refl;
  bad_write_same = refl;
}

Untouched-trans :
    (m : ℕ) (n : Inode) (s t u : State) → Untouched m n s t → Untouched m n t u → Untouched m n s u
Untouched-trans m n s t u a b = record {
  others = λ lba l ne. b.others lba (omega (arith, a.grows)) ne ∙ a.others lba l ne;
  grows = omega (arith, a.grows, b.grows);
  super_same = b.super_same ∙ a.super_same;
  bitmap_same = b.bitmap_same ∙ a.bitmap_same;
  bad_read_same = b.bad_read_same ∙ a.bad_read_same;
  bad_write_same = b.bad_write_same ∙ a.bad_write_same;
}

Untouched-Separate :
    (m : ℕ) (n : Inode) (s t : State) → Untouched m n s t → Separate m s n → Separate m t n
Untouched-Separate m n s t a h = record {
  inside = λ i l. omega (arith, h.inside i l, a.grows);
  different = h.different;
}

-- What position `p` of the file holds after `r` bytes of `buf` were written at `at`.
abbrev pub overwritten : State → Inode → ℕ → ℕ → List ℕ → ℕ → ℕ
overwritten s n at r buf p =
    if leb at p && ltb p (at + r) then get_or buf (p - at) 0 % 256 else file_byte s n p

overwritten_none : (at p x y : ℕ) → (if leb at p && ltb p (at + 0) then x else y) ≡ y
overwritten_none at p x y = ground arith

-- The first `k` bytes and then the others.
overwritten-split :
    (at k r p : ℕ) (buf : List ℕ) (z : ℕ)
    → k ≤ r
    → (if leb (at + k) p && ltb p (at + k + (r - k))
        then get_or (drop k buf) (p - (at + k)) 0 % 256
        else if leb at p && ltb p (at + k)
        then get_or buf (p - at) 0 % 256
        else z)
      ≡ (if leb at p && ltb p (at + r) then get_or buf (p - at) 0 % 256 else z)
overwritten-split at k r p buf z h = elim (Bool-cases (leb (at + k) p)) [
  | inl e ↦
      let f : k + (p - (at + k)) ≡ p - at = ground arith in
      rw (get_or-drop k buf (p - (at + k)) 0, f) (ground arith)
  | inr e ↦ ground arith
]

-- A loop that succeeds has put the first `r` bytes of `buf` at position `at` of the file, and
-- changed no other byte of it and no other block.
pub write_loop_lem :
    (m : ℕ) (n : Inode) (fuel at r : ℕ) (buf : List ℕ) (s t : State)
    → write_loop n at buf r fuel s ≡ (ok tt, t)
    → Separate m s n
    → at + r ≤ m * 4096
    → ((p : ℕ) → p / 4096 < m → file_byte t n p ≡ overwritten s n at r buf p) × Untouched m n s t
unfolding write_loop
write_loop_lem m n fuel at zero buf s t h sep fits =
    let same : s ≡ t = ap (λ (x : Outcome (Unit {0}) × State). x.1) h in
    rw (← same) (
      λ p l. sym (overwritten_none at p (get_or buf (p - at) 0 % 256) (file_byte s n p)),
      Untouched-refl m n s,
    )
write_loop_lem m n zero at (suc r) buf s t h sep fits = cc
write_loop_lem m n (suc fuel) at (suc r) buf s t h sep fits =
    let k = chunk at (suc r) in
    let (u, round, e) = write_loop-Round n at buf r fuel s t h in
    let here = Round-Untouched m n at k buf s u (omega arith) round in
    let (bytes, later) =
      write_loop_lem m n fuel (at + k) (suc r - k) (drop k buf) u t e
        (Untouched-Separate m n s u here sep) (omega arith) in
    (
      λ p l.
          bytes p l
          ∙ rw (Round-byte m n at k buf s u round sep (omega arith) (omega arith) p l)
              (overwritten-split at k (suc r) p buf (file_byte s n p) (omega arith)),
      Untouched-trans m n s u t here later,
    )
