-- ===== src/Write/Saved.antt =====
-- The end of fs_write: the inode is written, and then the bitmap if there are new blocks.
use cs5600_project_3_file_sy.Common.{
  ℕ, ◌+◌, ◌-◌, ◌/◌, ◌%◌, ◌≤◌, ◌<◌, ◌≡◌, ◌≢◌, refl, sym, ap, ◌∙◌, List, arith, Bool, true, false,
  length, some,
}
use cs5600_project_3_file_sy.Outcome.{ok}
use cs5600_project_3_file_sy.Disk.{Block, Device, u8}
use cs5600_project_3_file_sy.Format.{Inode, encode_inode}
use cs5600_project_3_file_sy.State.{State, Env, M, ◌>>◌, lift, write_block}
use cs5600_project_3_file_sy.State.Runs.{bind-to, put, IsWritable, write_block-to, save_bitmap-to}
use cs5600_project_3_file_sy.Write.{write_loop, resized, save_if}
use cs5600_project_3_file_sy.Write.Loop.{file_byte, stored_self, stored_ne}
use cs5600_project_3_file_sy.Write.Done.{overwritten, write_loop_lem, Untouched}
use cs5600_project_3_file_sy.Write.Grow.{Grown}
use cs5600_project_3_file_sy.Write.Extend.{
  IsFile, IsStorage, Extended, grown-Ready, grown_apart, grown_apart_map, grown-Separate,
}

-- The device after the bitmap was saved, or not.
abbrev pub saved_device : Bool → Device → Block → Device
saved_device true d map = put d 1 map
saved_device false d map = d

pub save_if-to :
    (b : Bool) (map : Block) (s : State)
    → s.bitmap ≡ some map
    → IsWritable s.dev 1
    → save_if b s ≡ (ok tt, record s { dev = saved_device b s.dev map })
save_if-to true map s e w = save_bitmap-to map s e w
save_if-to false map s e w = refl

saved_store :
    (b : Bool) (d : Device) (map : Block) (k : ℕ)
    → k ≢ 1
    → k < d.blocks
    → (saved_device b d map).store k ≡ d.store k
saved_store true d map k ne l = stored_ne d 1 k map ne l
saved_store false d map k ne l = refl

saved_blocks : (b : Bool) (d : Device) (map : Block) → d.blocks ≤ (saved_device b d map).blocks
saved_blocks true d map = omega arith
saved_blocks false d map = omega arith

saved_bad_read :
    (b : Bool) (d : Device) (map : Block) → (saved_device b d map).bad_read ≡ d.bad_read
saved_bad_read true d map = refl
saved_bad_read false d map = refl

saved_none :
    (b : Bool) (d : Device) (map : Block) → b ≡ false → (saved_device b d map).store 1 ≡ d.store 1
saved_none true d map e = cc
saved_none false d map e = refl

saved_map : (b : Bool) (d : Device) (map : Block) → b ≡ true → (saved_device b d map).store 1 ≡ map
saved_map true d map e = stored_self d 1 map
saved_map false d map e = cc

pub IsWritable-same :
    (s t : State) (k : ℕ)
    → t.dev.bad_write ≡ s.dev.bad_write
    → IsWritable s.dev k
    → IsWritable t.dev k
IsWritable-same s t k same w = record {
  positive = w.positive;
  addressable = w.addressable;
  good = ap (λ (f : ℕ → Bool). f k) same ∙ w.good;
}

module _ (env : Env) (inum offset size m0 m : ℕ) (n g : Inode) (buf : List ℕ) (map map' : Block)
    (s last : State) (file : IsFile inum m0 n map s) (storage : IsStorage map s) (more : m0 ≤ m)
    (few : m ≤ 1019) (grown : Grown n g m0 (m - m0) map map' s.super.disk_size)
    (looped : write_loop g offset buf (length buf) (length buf) (record s { bitmap = some map' })
      ≡ (ok tt, last))
    (inside : (offset + length buf + 4095) / 4096 ≡ m) (flag : Bool)
    (flag_is : m0 < m → flag ≡ true) (flag_not : m0 ≡ m → flag ≡ false) where
  abbrev pub stored_inode : Block
  stored_inode = encode_inode (resized env (offset + length buf) g)

  abbrev pub middle : Device
  middle = put last.dev inum stored_inode

  abbrev pub final : State
  final = record last { dev = saved_device flag middle map' }

  pub loop_done :
      ((p : ℕ) → p / 4096 < m → file_byte last g p ≡ overwritten s g offset (length buf) buf p)
      × Untouched m g (record s { bitmap = some map' }) last
  loop_done =
      let sep = grown-Separate inum m0 m n g map map' s file storage more few grown in
      write_loop_lem m g (length buf) offset (length buf) buf (record s { bitmap = some map' }) last
        looped (record { inside = sep.inside; different = sep.different }) (omega arith)

  pub finish-to :
      (write_block inum stored_inode >> (save_if flag >> lift (ok (length buf)))) last
      ≡ (ok (length buf), final)
  finish-to =
      let rest = loop_done.1 in
      let mid : State = record last { dev = middle } in
      let done : M ℕ = lift (ok (length buf)) in
      bind-to (write_block inum stored_inode) (λ _. save_if flag >> done) last mid tt
        (write_block-to inum stored_inode last
          (IsWritable-same s last inum rest.bad_write_same file.inode_writable))
      ∙ bind-to (save_if flag) (λ _. done) mid final tt
          (save_if-to flag map' mid rest.bitmap_same
            (IsWritable-same s mid 1 rest.bad_write_same storage.map_writable))

  pub final-Extended : Extended env inum offset m0 m n buf map s final
  final-Extended =
      let (bytes, rest) = loop_done in
      let ready = grown-Ready inum m0 m n g map map' s file storage more few grown in
      record {
        file = g;
        map_after = map';
        grown = grown;
        ready = ready;
        contents = λ p l.
            let k = g.ptrs (p / 4096) in
            let ne1 =
              grown_apart_map inum m0 m n g map map' s file storage more few grown (p / 4096) l in
            let ne2 =
              grown_apart inum m0 m n g map map' s file storage more few grown (p / 4096) l in
            let here : k < last.dev.blocks = omega (arith, ready.inside (p / 4096) l, rest.grows) in
            ap (λ (b : Block). u8 b (p % 4096))
              (saved_store flag middle map' k ne1 (omega (arith, here))
                ∙ stored_ne last.dev inum k stored_inode ne2 here)
            ∙ bytes p l;
        inode =
            saved_store flag middle map' inum file.inode_apart (omega arith)
            ∙ stored_self last.dev inum stored_inode;
        marked = rest.bitmap_same;
        saved = λ l. saved_map flag middle map' (flag_is l);
        kept = λ e here.
            let there : 1 < last.dev.blocks = omega (arith, rest.grows) in
            saved_none flag middle map' (flag_not e)
            ∙ stored_ne last.dev inum 1 stored_inode (λ q. file.inode_apart (sym q)) there
            ∙ rest.others 1 here
                (grown_apart_map inum m0 m n g map map' s file storage more few grown);
        others = λ lba l ne1 ne2 ne.
            let here : lba < last.dev.blocks = omega (arith, rest.grows) in
            saved_store flag middle map' lba ne1 (omega (arith, here))
            ∙ stored_ne last.dev inum lba stored_inode ne2 here
            ∙ rest.others lba l ne;
        grows = omega (arith, rest.grows, saved_blocks flag middle map');
        bad_read_same = saved_bad_read flag middle map' ∙ rest.bad_read_same;
        super_same = rest.super_same;
      }
