-- ===== src/Calls/Restart.antt =====
-- A call that succeeds, and then a start from the image that it left.
use cs5600_project_3_file_sy.Common.{
  ℕ, ◌^◌, ◌≤◌, ◌<◌, ◌≡◌, sym, ap, ◌∙◌, List, Option, none, some, Bool, if◌then◌else◌, All, true,
  arith, ◌==◌, ==_refl, length,
}
use cs5600_project_3_file_sy.Outcome.{Outcome, ok, err, crash}
use cs5600_project_3_file_sy.Disk.{Block, Device, block_read}
use cs5600_project_3_file_sy.Disk.Open.{is_image_name, block_init}
use cs5600_project_3_file_sy.Disk.Access.{readable}
use cs5600_project_3_file_sy.Format.{Inode, decode_super}
use cs5600_project_3_file_sy.Format.Strings.{IsChar}
use cs5600_project_3_file_sy.Path.{Name}
use cs5600_project_3_file_sy.Create.{parent_dir, fs_create}
use cs5600_project_3_file_sy.State.{State, Env}
use cs5600_project_3_file_sy.State.Runs.{read_good}
use cs5600_project_3_file_sy.Init.{fs_magic, load_bitmap, fs_init, fresh, start_up}
use cs5600_project_3_file_sy.Create.Entry.{IsSound}
use cs5600_project_3_file_sy.Create.Created.{Created, fs_create-Created}

-- What is in memory is what the image says, and the image says it legibly.
pub record IsSynced (s : State) : Type 0 where
  pub first : Block
  pub first_there : block_read s.dev 0 ≡ ok first
  pub super_is : s.super ≡ decode_super first
  pub magic_is : s.super.magic ≡ fs_magic
  pub map : Block
  pub map_there : block_read s.dev 1 ≡ ok map
  pub map_is : s.bitmap ≡ some map

load_bitmap-ok :
    (s : State) (map : Block)
    → block_read s.dev 1 ≡ ok map
    → load_bitmap s ≡ record s { bitmap = some map }
unfolding load_bitmap
load_bitmap-ok s map e =
    let goes : Outcome Block → State =
      λ o. elim o [ ok b ↦ record s { bitmap = some b } | err x ↦ s | crash ↦ s ] in
    ap goes e

fs_init-ok :
    (s : State) (b map : Block)
    → block_read s.dev 0 ≡ ok b
    → (decode_super b).magic ≡ fs_magic
    → block_read s.dev 1 ≡ ok map
    → fs_init s ≡ record s { super = decode_super b; bitmap = some map }
unfolding fs_init
fs_init-ok s b map e magic f =
    let goes : Outcome Block → State = λ o. elim o [
      | ok b ↦
          let t : State = record s { super = decode_super b } in
          if t.super.magic == fs_magic then load_bitmap t else t
      | err x ↦ s
      | crash ↦ s
    ] in
    let right : ((decode_super b).magic == fs_magic) ≡ true = rw magic (==_refl fs_magic) in
    ap goes e ∙ rw right (load_bitmap-ok (record s { super = decode_super b }) map f)

-- A start from the image of such a state gives the state.
fs_init-restores : (s : State) → IsSynced s → fs_init (fresh s.dev) ≡ s
fs_init-restores s h =
    let magic : (decode_super h.first).magic ≡ fs_magic =
      ap (λ x. x.magic) (sym h.super_is) ∙ h.magic_is in
    fs_init-ok (fresh s.dev) h.first h.map h.first_there magic h.map_there ∙ λ i. record {
      dev = s.dev;
      super = sym h.super_is i;
      bitmap = sym h.map_is i;
    }

pub start_up-restores :
    (open_image : List ℕ → Option Device) (file : List ℕ) (s : State)
    → is_image_name file ≡ true
    → open_image file ≡ some s.dev
    → IsSynced s
    → start_up open_image file ≡ some s
unfolding start_up block_init
start_up-restores open_image file s name there h =
    let goes : Option Device → Option State =
      λ o. elim o [ none ↦ none | some d ↦ some (fs_init (fresh d)) ] in
    let opened : block_init open_image file ≡ some s.dev = rw name there in
    ap goes opened ∙ ap some (fs_init-restores s h)

-- What a call must leave, beside the bitmap and its block, for the state to stay legible.
IsSynced-step :
    (s t : State) (map : Block)
    → IsSynced s
    → t.bitmap ≡ some map
    → t.dev.store 1 ≡ map
    → t.dev.store 0 ≡ s.dev.store 0
    → s.dev.blocks ≤ t.dev.blocks
    → t.dev.bad_read ≡ s.dev.bad_read
    → t.super ≡ s.super
    → IsSynced t
IsSynced-step s t map h marked saved block grows bad same =
    let (inside0, good0) = readable s.dev 0 h.first h.first_there in
    let (inside1, good1) = readable s.dev 1 h.map h.map_there in
    let first0 = read_good s.dev 0 inside0 (omega arith) good0 in
    record {
      first = h.first;
      first_there =
          read_good t.dev 0 (omega (arith, inside0, grows)) (omega arith)
            (ap (λ (f : ℕ → Bool). f 0) bad ∙ good0)
          ∙ ap ok block
          ∙ sym first0
          ∙ h.first_there;
      super_is = same ∙ h.super_is;
      magic_is = ap (λ x. x.magic) same ∙ h.magic_is;
      map = map;
      map_there =
          read_good t.dev 1 (omega (arith, inside1, grows)) (omega arith)
            (ap (λ (f : ℕ → Bool). f 1) bad ∙ good1)
          ∙ ap ok saved;
      map_is = marked;
    }

store_there : (d : Device) (k : ℕ) (b : Block) → block_read d k ≡ ok b → k < 2 ^ 19 → d.store k ≡ b
store_there d k b h l =
    let (inside, good) = readable d k b h in
    let same : ok (d.store k) ≡ ok b = sym (read_good d k inside l good) ∙ h in cc

Created-IsSynced :
    (env : Env) (mode : ℕ) (parent : Inode) (name : Name) (map : Block) (s t : State)
    → IsSound s map parent
    → IsSynced s
    → Created env mode parent name map s t
    → IsSynced t
Created-IsSynced env mode parent name map s t sound h done =
    let (inside, good) = readable s.dev 0 h.first h.first_there in
    let kept : block_read t.dev 0 ≡ ok h.first =
      done.others 0 (omega arith) (omega (arith, done.inum_from))
        (λ j l e. omega (arith, sound.apart j l)) inside
      ∙ h.first_there in
    IsSynced-step s t _ h done.marked done.saved
      (store_there t.dev 0 h.first kept (omega arith)
        ∙ sym (store_there s.dev 0 h.first h.first_there (omega arith)))
      done.grows done.bad_read_same done.super_same

-- After an fs_create that succeeds in a sound directory, with a name of at most 26 bytes, on a
-- disk that the bitmap covers, from a state that agrees with its image, a start with a file whose
-- name ends in ".img" and whose contents are the image that the call left gives the state that it
-- left.
pub fs_create-start_up :
    (open_image : List ℕ → Option Device) (file : List ℕ) (env : Env) (path : List ℕ) (mode : ℕ)
    (s t : State) (map : Block) (parent : Inode) (name : Name)
    → parent_dir path s ≡ (ok (parent, name), s)
    → s.bitmap ≡ some map
    → s.super.disk_size ≤ 32768
    → IsSound s map parent
    → All IsChar name
    → length name ≤ 26
    → IsSynced s
    → fs_create env path mode s ≡ (ok tt, t)
    → is_image_name file ≡ true
    → open_image file ≡ some t.dev
    → start_up open_image file ≡ some t
fs_create-start_up open_image file env path mode s t map parent name p b disk sound chars fits
      synced h named there =
    start_up-restores open_image file t named there (
      Created-IsSynced env mode parent name map s t sound synced
        (fs_create-Created env path mode s t map parent name p b disk sound chars fits h))
