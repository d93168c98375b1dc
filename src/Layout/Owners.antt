-- ===== src/Layout/Owners.antt =====
-- A block gets an owner, or an owner gives up all its blocks.
use cs5600_project_3_file_sy.Common.{
  ℕ, ◌≤◌, ◌<◌, ◌≡◌, ◌≢◌, refl, sym, ap, ◌∙◌, true, false, arith, ℕ_discrete, ==_ne, ==_refl, ◌==◌,
  if◌then◌else◌,
}
use cs5600_project_3_file_sy.Bitmap.{has_bit}
use cs5600_project_3_file_sy.Format.{Inode, entry_valid, entry_inode}
use cs5600_project_3_file_sy.State.{State}
use cs5600_project_3_file_sy.Layout.{
  Kind, unowned, file_inode, dir_inode, dir_data, file_data, IsInodeKind, IsMeta, inode_at,
  IsDirInode, IsFileInode, IsEntry, IsConsistent,
}

abbrev pub given : (ℕ → Kind) → ℕ → Kind → ℕ → Kind
given kind p q k = if k == p then q else kind k

pub given_self : (kind : ℕ → Kind) (p : ℕ) (q : Kind) → given kind p q p ≡ q
given_self kind p q = rw (==_refl p)

pub given_ne : (kind : ℕ → Kind) (p k : ℕ) (q : Kind) → k ≢ p → given kind p q k ≡ kind k
given_ne kind p k q ne = rw (==_ne k p ne)

-- A block that is no inode is another one than an inode.
pub inode_ne :
    (kind : ℕ → Kind) (k x : ℕ) (r : Kind)
    → kind k ≡ r
    → (IsInodeKind r → ⊥)
    → IsInodeKind (kind x)
    → k ≢ x
inode_ne kind k x r e other inode z = other (rw (← e, z) inode)

-- What was owned still is, in the same way.
abbrev pub Extends : (ℕ → Kind) → (ℕ → Kind) → Type 0
Extends kind kind' = (k : ℕ) → kind k ≢ unowned → kind' k ≡ kind k

module _ (kind kind' : ℕ → Kind) (more : Extends kind kind') where
  kept : (k : ℕ) (q : Kind) → kind k ≡ q → q ≢ unowned → kind' k ≡ q
  kept k q e ne = more k (λ z. ne (sym e ∙ z)) ∙ e

  pub Extends-IsDirInode : (n : Inode) (i d : ℕ) → IsDirInode kind n i d → IsDirInode kind' n i d
  Extends-IsDirInode n i d h = record {
    is_directory = h.is_directory;
    one_block = h.one_block;
    block_is = h.block_is;
    owns = kept d (dir_data i) h.owns (λ z. cc);
  }

  pub Extends-IsFileInode : (n : Inode) (i : ℕ) → IsFileInode kind n i → IsFileInode kind' n i
  Extends-IsFileInode n i h = record {
    no_directory = h.no_directory;
    size = h.size;
    size_is = h.size_is;
    small = h.small;
    owns = λ j l. kept (n.ptrs j) (file_data i j) (h.owns j l) (λ z. cc);
  }

  inode_owned : (q : Kind) → IsInodeKind q → q ≢ unowned
  inode_owned q h z = rw z at h

  pub Extends-IsEntry :
      (home : ℕ → ℕ × ℕ) (b k x : ℕ) → IsEntry kind home b k x → IsEntry kind' home b k x
  Extends-IsEntry home b k x h = record {
    names_inode = rw (more x (inode_owned (kind x) h.names_inode)) h.names_inode;
    at_home = h.at_home;
    not_root = h.not_root;
  }

pub given-Extends :
    (kind : ℕ → Kind) (p : ℕ) (q : Kind) → kind p ≡ unowned → Extends kind (given kind p q)
given-Extends kind p q e k ne = given_ne kind p k q (λ z. ne (ap kind z ∙ e))

-- Block `p` gets an owner; what the block says must fit.
pub adopt :
    (kind : ℕ → Kind) (home : ℕ → ℕ × ℕ) (s : State) (p : ℕ) (q : Kind)
    (c : IsConsistent kind home s)
    → kind p ≡ unowned
    → 2 ≤ p
    → p < s.super.disk_size
    → has_bit c.map p ≡ true
    → (IsMeta q → p < s.dev.blocks)
    → ((d : ℕ) → q ≡ dir_inode d → IsDirInode (given kind p q) (inode_at s.dev p) p d)
    → (q ≡ file_inode → IsFileInode (given kind p q) (inode_at s.dev p) p)
    → ((i k : ℕ) → q ≡ dir_data i → k < 128 → entry_valid (s.dev.store p) k ≡ false)
    → IsConsistent (given kind p q) home s
adopt kind home s p q c free from to bit there dirs files entries =
    let kind' = given kind p q in
    let more = given-Extends kind p q free in
    record {
      map = c.map;
      loaded = c.loaded;
      covered = c.covered;
      in_range = λ k o. elim (ℕ_discrete k p) [
        | yes e ↦ rw e (from, to)
        | no ne ↦ c.in_range k (rw (given_ne kind p k q ne) at o)
      ];
      marked = λ k o. elim (ℕ_discrete k p) [
        | yes e ↦ rw e bit
        | no ne ↦ c.marked k (rw (given_ne kind p k q ne) at o)
      ];
      there = λ k m. elim (ℕ_discrete k p) [
        | yes e ↦ rw e (there (rw (e, given_self kind p q) at m))
        | no ne ↦ c.there k (rw (given_ne kind p k q ne) at m)
      ];
      root = (
        c.root.0,
        more 2 (λ z. let clash : dir_inode c.root.0 ≡ unowned = sym c.root.1 ∙ z in cc) ∙ c.root.1,
      );
      dirs = λ i d e. elim (ℕ_discrete i p) [
        | yes z ↦ rw z (dirs d (sym (given_self kind p q) ∙ ap kind' (sym z) ∙ e))
        | no ne ↦
            Extends-IsDirInode kind kind' more (inode_at s.dev i) i d
              (c.dirs i d (sym (given_ne kind p i q ne) ∙ e))
      ];
      files = λ i e. elim (ℕ_discrete i p) [
        | yes z ↦ rw z (files (sym (given_self kind p q) ∙ ap kind' (sym z) ∙ e))
        | no ne ↦
            Extends-IsFileInode kind kind' more (inode_at s.dev i) i
              (c.files i (sym (given_ne kind p i q ne) ∙ e))
      ];
      entries = λ i b k e l v. elim (ℕ_discrete b p) [
        | yes z ↦
            let none = entries i k (sym (given_self kind p q) ∙ ap kind' (sym z) ∙ e) l in
            let clash : true ≡ false = sym v ∙ ap (λ b. entry_valid (s.dev.store b) k) z ∙ none in
            cc
        | no ne ↦
            Extends-IsEntry kind kind' more home b k (entry_inode (s.dev.store b) k)
              (c.entries i b k (sym (given_ne kind p b q ne) ∙ e) l v)
      ];
      ends = λ i b k e l v. elim (ℕ_discrete b p) [
        | yes z ↦
            let none = entries i k (sym (given_self kind p q) ∙ ap kind' (sym z) ∙ e) l in
            let clash : true ≡ false = sym v ∙ ap (λ b. entry_valid (s.dev.store b) k) z ∙ none in
            cc
        | no ne ↦ c.ends i b k (sym (given_ne kind p b q ne) ∙ e) l v
      ];
    }

-- The kind of a block after inode `x` has given up its data blocks.
abbrev pub gone : ℕ → Kind → Kind
gone x unowned = unowned
gone x file_inode = file_inode
gone x (dir_inode d) = dir_inode d
gone x (dir_data i) = if i == x then unowned else dir_data i
gone x (file_data i j) = if i == x then unowned else file_data i j

pub gone-dir_inode : (x : ℕ) (q : Kind) (d : ℕ) → gone x q ≡ dir_inode d → q ≡ dir_inode d
gone-dir_inode x unowned d h = h
gone-dir_inode x file_inode d h = h
gone-dir_inode x (dir_inode e) d h = h
gone-dir_inode x (dir_data i) d h = ground arith
gone-dir_inode x (file_data i j) d h = ground arith

pub gone-file_inode : (x : ℕ) (q : Kind) → gone x q ≡ file_inode → q ≡ file_inode
gone-file_inode x unowned h = h
gone-file_inode x file_inode h = h
gone-file_inode x (dir_inode e) h = h
gone-file_inode x (dir_data i) h = ground arith
gone-file_inode x (file_data i j) h = ground arith

pub gone-dir_data : (x : ℕ) (q : Kind) (i : ℕ) → gone x q ≡ dir_data i → (q ≡ dir_data i) × (i ≢ x)
gone-dir_data x unowned i h = cc
gone-dir_data x file_inode i h = cc
gone-dir_data x (dir_inode e) i h = cc
gone-dir_data x (dir_data k) i h = ground arith
gone-dir_data x (file_data k j) i h = ground arith

pub gone-IsMeta : (x : ℕ) (q : Kind) → IsMeta (gone x q) → IsMeta q
gone-IsMeta x unowned h = h
gone-IsMeta x file_inode h = tt
gone-IsMeta x (dir_inode e) h = tt
gone-IsMeta x (dir_data i) h = tt
gone-IsMeta x (file_data i j) h = elim (ℕ_discrete i x) [
  | yes e ↦ rw (e, ==_refl x) at h
  | no ne ↦ rw (==_ne i x ne) at h
]

pub gone-inode : (x : ℕ) (q : Kind) → IsInodeKind q → gone x q ≡ q
gone-inode x unowned h = elim h [ ]
gone-inode x file_inode h = refl
gone-inode x (dir_inode e) h = refl
gone-inode x (dir_data i) h = elim h [ ]
gone-inode x (file_data i j) h = elim h [ ]
