-- ===== src/Write/Loop.antt =====
-- One round of the writing loop of fs_write, and the bytes of a file.
use cs5600_project_3_file_sy.Common.{
  ℕ, ◌+◌, ◌-◌, ◌/◌, ◌%◌, ◌≤◌, ◌<◌, ◌≡◌, ◌≢◌, inl, inr, sym, ap, ◌∙◌, List, arith, Bool-cases, ◌&&◌,
  ltb, leb, get_or, if◌then◌else◌,
}
use cs5600_project_3_file_sy.Outcome.{ok}
use cs5600_project_3_file_sy.Disk.{Block, Device, u8, stored, block_read}
use cs5600_project_3_file_sy.Disk.Access.{Wrote}
use cs5600_project_3_file_sy.Format.{Inode}
use cs5600_project_3_file_sy.State.{State}
use cs5600_project_3_file_sy.Write.{patch}
use cs5600_project_3_file_sy.Common.{◌⊎◌, ℕ_discrete}

-- The byte of the file at position `p`, as the image holds it.
abbrev pub file_byte : State → Inode → ℕ → ℕ
file_byte s n p = u8 (s.dev.store (n.ptrs (p / 4096))) (p % 4096)

-- The first `m` blocks of the file are different blocks of the image.
pub record Separate (m : ℕ) (s : State) (n : Inode) : Type 0 where
  pub inside : (i : ℕ) → i < m → n.ptrs i < s.dev.blocks
  pub different : (i j : ℕ) → i < m → j < m → n.ptrs i ≡ n.ptrs j → i ≡ j

-- One round has written block `lba` of the image, from the block `b` that was there.
pub record Round (n : Inode) (at k : ℕ) (buf : List ℕ) (s u : State) : Type 0 where
  pub in_array : at / 4096 < 1019
  pub old : Block
  pub old_is : (old ≡ s.dev.store (n.ptrs (at / 4096))) ⊎ ((at % 4096 ≡ 0) × (4096 ≤ k))
  pub dev : Device
  pub wrote : Wrote s.dev (n.ptrs (at / 4096)) (patch old (at % 4096) buf k) dev
  pub after : u ≡ record s { dev = dev }

pub block_read-store : (d : Device) (k : ℕ) (b : Block) → block_read d k ≡ ok b → b ≡ d.store k
unfolding block_read
block_read-store d k b h = ground arith

-- A byte of the block that is written.
patch_byte :
    (old : Block) (buf : List ℕ) (at k p : ℕ)
    → p / 4096 ≡ at / 4096
    → at % 4096 + k ≤ 4096
    → u8 (patch old (at % 4096) buf k) (p % 4096)
      ≡ (if leb at p && ltb p (at + k) then get_or buf (p - at) 0 % 256 else u8 old (p % 4096))
patch_byte old buf at k p e h = elim (Bool-cases (leb at p && ltb p (at + k))) [
  | inl f ↦ let g : p % 4096 - at % 4096 ≡ p - at = ground arith in rw (f, ← g) (ground arith)
  | inr f ↦ rw f (ground arith)
]

pub stored_self : (d : Device) (k : ℕ) (b : Block) → stored d k b k ≡ b
stored_self d k b = ground arith

pub stored_ne :
    (d : Device) (k j : ℕ) (b : Block) → j ≢ k → j < d.blocks → stored d k b j ≡ d.store j
stored_ne d k j b h l = ground arith

outside_range :
    (at k p : ℕ) (x y : ℕ)
    → p / 4096 ≢ at / 4096
    → at % 4096 + k ≤ 4096
    → (if leb at p && ltb p (at + k) then x else y) ≡ y
outside_range at k p x y h l = ground arith

whole_block :
    (at k p : ℕ) (x y z : ℕ)
    → p / 4096 ≡ at / 4096
    → at % 4096 ≡ 0
    → 4096 ≤ k
    → (if leb at p && ltb p (at + k) then x else y) ≡ (if leb at p && ltb p (at + k) then x else z)
whole_block at k p x y z e f g = ground arith

pub Round-byte :
    (m : ℕ) (n : Inode) (at k : ℕ) (buf : List ℕ) (s u : State)
    → Round n at k buf s u
    → Separate m s n
    → at / 4096 < m
    → at % 4096 + k ≤ 4096
    → (p : ℕ) → p / 4096 < m
    → file_byte u n p
      ≡ (if leb at p && ltb p (at + k) then get_or buf (p - at) 0 % 256 else file_byte s n p)
Round-byte m n at k buf s u r sep ma h p l = elim (ℕ_discrete (p / 4096) (at / 4096)) [
  | yes e ↦
      let lba = n.ptrs (at / 4096) in
      let new : file_byte u n p ≡ u8 (patch r.old (at % 4096) buf k) (p % 4096) =
        rw (e, r.after, r.wrote.result)
          (ap (λ (b : Block). u8 b (p % 4096))
            (stored_self s.dev lba (patch r.old (at % 4096) buf k))) in
      new ∙ patch_byte r.old buf at k p e h ∙ elim r.old_is [
        | inl same ↦ rw (same, e)
        | inr (z, all) ↦
            whole_block at k p (get_or buf (p - at) 0 % 256) (u8 r.old (p % 4096)) (file_byte s n p)
              e z all
      ]
  | no ne ↦
      let lba = n.ptrs (at / 4096) in
      let old : file_byte u n p ≡ file_byte s n p =
        rw (r.after, r.wrote.result)
          (ap (λ (b : Block). u8 b (p % 4096))
            (stored_ne s.dev lba (n.ptrs (p / 4096)) (patch r.old (at % 4096) buf k)
              (λ q. ne (sep.different (p / 4096) (at / 4096) l ma q)) (sep.inside (p / 4096) l))) in
      old ∙ sym (outside_range at k p (get_or buf (p - at) 0 % 256) (file_byte s n p) ne h)
]
