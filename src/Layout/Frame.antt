-- ===== src/Layout/Frame.antt =====
-- Changes to blocks and bits that no owner looks at.
use cs5600_project_3_file_sy.Common.{ℕ, ◌≤◌, ◌≡◌, ◌≢◌, refl, sym, ap, ◌∙◌, true, some, arith, ==_ne}
use cs5600_project_3_file_sy.Disk.{Block}
use cs5600_project_3_file_sy.Bitmap.{has_bit, with_bit, without_bit}
use cs5600_project_3_file_sy.Bitmap.Bits.{has_bit-with_bit, has_bit-without_bit}
use cs5600_project_3_file_sy.State.{State}
use cs5600_project_3_file_sy.State.Runs.{put}
use cs5600_project_3_file_sy.Write.Loop.{stored_ne}
use cs5600_project_3_file_sy.Format.{decode_inode}
use cs5600_project_3_file_sy.Layout.{
  Kind, unowned, file_inode, dir_inode, dir_data, IsMeta, IsConsistent,
}

pub IsMeta-file : (k : Kind) → k ≡ file_inode → IsMeta k
IsMeta-file k e = rw e tt

pub IsMeta-dir : (k : Kind) (d : ℕ) → k ≡ dir_inode d → IsMeta k
IsMeta-dir k d e = rw e tt

pub IsMeta-data : (k : Kind) (i : ℕ) → k ≡ dir_data i → IsMeta k
IsMeta-data k i e = rw e tt

pub meta_owned : (k : Kind) → IsMeta k → k ≢ unowned
meta_owned k m e = rw e at m

-- With the contents that matter, the bits that are owned and the superblock as they were.
pub frame :
    (kind : ℕ → Kind) (home : ℕ → ℕ × ℕ) (s t : State) (map' : Block)
    → IsConsistent kind home s
    → ((k : ℕ) → IsMeta (kind k) → t.dev.store k ≡ s.dev.store k)
    → s.dev.blocks ≤ t.dev.blocks
    → t.super ≡ s.super
    → t.bitmap ≡ some map'
    → ((k : ℕ) → kind k ≢ unowned → has_bit map' k ≡ true)
    → IsConsistent kind home t
frame kind home s t map' c same grows super bits used =
    let size = ap (λ x. x.disk_size) super in
    record {
      map = map';
      loaded = bits;
      covered = rw size c.covered;
      in_range = λ k o. let (x, y) = c.in_range k o in (x, rw size y);
      marked = used;
      there = λ k m. omega (arith, c.there k m, grows);
      root = c.root;
      dirs = λ i d e.
          let at = ap decode_inode (same i (IsMeta-dir (kind i) d e)) in rw at (c.dirs i d e);
      files =
          λ i e. let at = ap decode_inode (same i (IsMeta-file (kind i) e)) in rw at (c.files i e);
      entries = λ i b k e l v.
          let at = same b (IsMeta-data (kind b) i e) in rw at (c.entries i b k e l (rw at at v));
      ends = λ i b k e l v.
          let at = same b (IsMeta-data (kind b) i e) in rw at (c.ends i b k e l (rw at at v));
    }

-- A write to a block whose contents do not matter.
pub frame-put :
    (kind : ℕ → Kind) (home : ℕ → ℕ × ℕ) (s : State) (p : ℕ) (b : Block)
    → IsConsistent kind home s
    → (IsMeta (kind p) → ⊥)
    → IsConsistent kind home (record s { dev = put s.dev p b })
frame-put kind home s p b c free =
    frame kind home s (record s { dev = put s.dev p b }) c.map c
      (λ k m. stored_ne s.dev p k b (λ q. free (rw q at m)) (c.there k m)) (omega arith) refl
      c.loaded c.marked

pub frame-with_bit :
    (kind : ℕ → Kind) (home : ℕ → ℕ × ℕ) (s : State) (i : ℕ) (map : Block)
    → IsConsistent kind home s
    → s.bitmap ≡ some map
    → IsConsistent kind home (record s { bitmap = some (with_bit map i) })
frame-with_bit kind home s i map c b =
    frame kind home s (record s { bitmap = some (with_bit map i) }) (with_bit map i) c (λ k m. refl)
      (omega arith) refl refl
      (λ k o.
        let set : map ≡ c.map = cc (b, c.loaded) in
        let old : has_bit map k ≡ true = ap (λ (m : Block). has_bit m k) set ∙ c.marked k o in
        has_bit-with_bit map i k ∙ rw old (ground arith))

pub frame-without_bit :
    (kind : ℕ → Kind) (home : ℕ → ℕ × ℕ) (s : State) (i : ℕ) (map : Block)
    → IsConsistent kind home s
    → s.bitmap ≡ some map
    → kind i ≡ unowned
    → IsConsistent kind home (record s { bitmap = some (without_bit map i) })
frame-without_bit kind home s i map c b free =
    frame kind home s (record s { bitmap = some (without_bit map i) }) (without_bit map i) c
      (λ k m. refl) (omega arith) refl refl
      (λ k o.
        let set : map ≡ c.map = cc (b, c.loaded) in
        let old : has_bit map k ≡ true = ap (λ (m : Block). has_bit m k) set ∙ c.marked k o in
        let ne : i ≢ k = λ q. o (ap kind (sym q) ∙ free) in
        has_bit-without_bit map i k ∙ rw (==_ne i k ne, old) refl)
