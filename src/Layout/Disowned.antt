-- ===== src/Layout/Disowned.antt =====
-- An inode gives up its data blocks, and perhaps its own.
use cs5600_project_3_file_sy.Common.{
  ℕ, ◌≡◌, ◌≢◌, ◌⊎◌, inl, inr, refl, sym, ap, ◌∙◌, ℕ_discrete, ==_ne, ==_refl,
}
use cs5600_project_3_file_sy.Format.{Inode, entry_inode}
use cs5600_project_3_file_sy.State.{State}
use cs5600_project_3_file_sy.Layout.{
  Kind, unowned, file_inode, dir_inode, dir_data, file_data, IsInodeKind, IsMeta, inode_at,
  IsDirInode, IsFileInode, IsEntry, IsConsistent,
}
use cs5600_project_3_file_sy.Layout.Owners.{
  given, given_self, given_ne, gone, gone-dir_inode, gone-file_inode, gone-dir_data, gone-IsMeta,
  gone-inode, inode_ne,
}
use cs5600_project_3_file_sy.Layout.Entry.{NoEntry}

-- The data blocks of `x` have no owner, and `x` is used as `q` says.
abbrev pub shed : (ℕ → Kind) → ℕ → Kind → ℕ → Kind
shed kind x q = given (λ k. gone x (kind k)) x q

gone_other_data : (x i j : ℕ) → i ≢ x → gone x (file_data i j) ≡ file_data i j
gone_other_data x i j ne = rw (==_ne i x ne)

gone_other_dir : (x i : ℕ) → i ≢ x → gone x (dir_data i) ≡ dir_data i
gone_other_dir x i ne = rw (==_ne i x ne)

pub gone_file_data : (x j : ℕ) → gone x (file_data x j) ≡ unowned
gone_file_data x j = rw (==_refl x)

pub gone_dir_data : (x : ℕ) → gone x (dir_data x) ≡ unowned
gone_dir_data x = rw (==_refl x)

gone-unowned : (x : ℕ) (q : Kind) → q ≡ unowned → gone x q ≡ unowned
gone-unowned x q e = rw e refl

module _ (kind : ℕ → Kind) (home : ℕ → ℕ × ℕ) (s : State) (c : IsConsistent kind home s) (x : ℕ)
    (q : Kind) (inode : IsInodeKind (kind x)) (not_root : x ≢ 2)
    (keeps : q ≢ unowned → (q ≡ file_inode) × (kind x ≡ file_inode))
    (file : q ≡ file_inode → IsFileInode (shed kind x q) (inode_at s.dev x) x)
    (named : IsInodeKind q ⊎ NoEntry kind s x) where
  abbrev kind' : ℕ → Kind
  kind' = shed kind x q

  off : (k : ℕ) → k ≢ x → kind' k ≡ gone x (kind k)
  off k ne = given_ne (λ k. gone x (kind k)) x k q ne

  at : kind' x ≡ q
  at = given_self (λ k. gone x (kind k)) x q

  owned_before : (k : ℕ) → kind' k ≢ unowned → kind k ≢ unowned
  owned_before k o e = elim (ℕ_discrete k x) [
    | yes z ↦
        let clash : file_inode ≡ unowned =
          sym (keeps (λ u. o (ap kind' z ∙ at ∙ u))).1 ∙ ap kind (sym z) ∙ e in
        cc
    | no ne ↦ o (off k ne ∙ gone-unowned x (kind k) e)
  ]

  IsMeta-before : (k : ℕ) → IsMeta (kind' k) → IsMeta (kind k)
  IsMeta-before k m = elim (ℕ_discrete k x) [
    | yes z ↦ let now : IsMeta q = rw (z, at) at m in rw (z, (keeps (λ u. rw u at now)).1) tt
    | no ne ↦ gone-IsMeta x (kind k) (rw (off k ne) at m)
  ]

  dir_before : (i d : ℕ) → kind' i ≡ dir_inode d → (kind i ≡ dir_inode d) × (i ≢ x)
  dir_before i d e = elim (ℕ_discrete i x) [
    | yes z ↦
        let is : q ≡ dir_inode d = sym at ∙ ap kind' (sym z) ∙ e in
        let clash : file_inode ≡ dir_inode d =
          sym (keeps (λ u. let same : dir_inode d ≡ unowned = sym is ∙ u in cc)).0 ∙ is in
        cc
    | no ne ↦ (gone-dir_inode x (kind i) d (sym (off i ne) ∙ e), ne)
  ]

  data_before : (b i : ℕ) → kind' b ≡ dir_data i → (kind b ≡ dir_data i) × (i ≢ x)
  data_before b i e = elim (ℕ_discrete b x) [
    | yes z ↦
        let is : q ≡ dir_data i = sym at ∙ ap kind' (sym z) ∙ e in
        let clash : file_inode ≡ dir_data i =
          sym (keeps (λ u. let same : dir_data i ≡ unowned = sym is ∙ u in cc)).0 ∙ is in
        cc
    | no ne ↦ gone-dir_data x (kind b) i (sym (off b ne) ∙ e)
  ]

  shed-IsDirInode : (n : Inode) (i d : ℕ) → i ≢ x → IsDirInode kind n i d → IsDirInode kind' n i d
  shed-IsDirInode n i d ne h = record {
    is_directory = h.is_directory;
    one_block = h.one_block;
    block_is = h.block_is;
    owns =
        off d (inode_ne kind d x (dir_data i) h.owns (λ z. z) inode)
        ∙ ap (gone x) h.owns
        ∙ gone_other_dir x i ne;
  }

  shed-IsFileInode : (n : Inode) (i : ℕ) → i ≢ x → IsFileInode kind n i → IsFileInode kind' n i
  shed-IsFileInode n i ne h = record {
    no_directory = h.no_directory;
    size = h.size;
    size_is = h.size_is;
    small = h.small;
    owns = λ j l.
        off (n.ptrs j) (inode_ne kind (n.ptrs j) x (file_data i j) (h.owns j l) (λ z. z) inode)
        ∙ ap (gone x) (h.owns j l)
        ∙ gone_other_data x i j ne;
  }

  shed-IsEntry :
      (b k y : ℕ) → (y ≡ x → IsInodeKind q) → IsEntry kind home b k y → IsEntry kind' home b k y
  shed-IsEntry b k y still h = record {
    names_inode = elim (ℕ_discrete y x) [
      | yes z ↦ rw (z, at) (still z)
      | no ne ↦ rw (off y ne, gone-inode x (kind y) h.names_inode) h.names_inode
    ];
    at_home = h.at_home;
    not_root = h.not_root;
  }

  pub shed-IsConsistent : IsConsistent kind' home s
  shed-IsConsistent = record {
    map = c.map;
    loaded = c.loaded;
    covered = c.covered;
    in_range = λ k o. c.in_range k (owned_before k o);
    marked = λ k o. c.marked k (owned_before k o);
    there = λ k m. c.there k (IsMeta-before k m);
    root = (c.root.0, off 2 (λ z. not_root (sym z)) ∙ ap (gone x) c.root.1);
    dirs = λ i d e.
        let (old, ne) = dir_before i d e in
        shed-IsDirInode (inode_at s.dev i) i d ne (c.dirs i d old);
    files = λ i e. elim (ℕ_discrete i x) [
      | yes z ↦ rw z (file (sym at ∙ ap kind' (sym z) ∙ e))
      | no ne ↦
          shed-IsFileInode (inode_at s.dev i) i ne
            (c.files i (gone-file_inode x (kind i) (sym (off i ne) ∙ e)))
    ];
    entries = λ i b k e l v.
        let (old, ne) = data_before b i e in
        shed-IsEntry b k (entry_inode (s.dev.store b) k)
          (λ z. elim named [ inl h ↦ h | inr none ↦ absurd (none i b k old l v z) ])
          (c.entries i b k old l v);
    ends = λ i b k e l v. c.ends i b k (data_before b i e).0 l v;
  }
