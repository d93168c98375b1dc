-- ===== src/Layout/Made.antt =====
-- fs_mkdir on a consistent image.
use cs5600_project_3_file_sy.Common.{ℕ, ◌^◌, ◌<◌, ◌≡◌, ◌≢◌, refl, sym, ap, ◌∙◌, false, arith, List}
use cs5600_project_3_file_sy.Outcome.{eopnotsupp}
use cs5600_project_3_file_sy.Disk.{Block, zero_block}
use cs5600_project_3_file_sy.Format.{Inode, encode_inode, decode_inode, entry_valid}
use cs5600_project_3_file_sy.Format.Inodes.{IsInode}
use cs5600_project_3_file_sy.Path.{Name}
use cs5600_project_3_file_sy.Create.{
  parent_dir, require_absent, take_two, write_or_undo, add_entry, new_dir, fs_mkdir,
}
use cs5600_project_3_file_sy.State.{State, Env, M, ◌>>=◌, ◌>>◌, clear_bit}
use cs5600_project_3_file_sy.State.After.{After, After-bind}
use cs5600_project_3_file_sy.State.Runs.{put}
use cs5600_project_3_file_sy.Write.Loop.{stored_ne, stored_self}
use cs5600_project_3_file_sy.Layout.{
  Kind, unowned, dir_inode, dir_data, inode_at, IsDirInode, IsConsistent, Consistent,
}
use cs5600_project_3_file_sy.Layout.Owners.{
  given, given_self, given_ne, given-Extends, Extends-IsDirInode, adopt,
}
use cs5600_project_3_file_sy.Layout.Resaved.{inode_at-put}
use cs5600_project_3_file_sy.Layout.Modes.{dir_mode}
use cs5600_project_3_file_sy.Layout.Two.{AreTaken, After-take_two}
use cs5600_project_3_file_sy.Layout.Parent.{
  IsEntryPath, IsParent, After-parent_dir, After-require_absent,
}
use cs5600_project_3_file_sy.Layout.Taken.{IsTaken}
use cs5600_project_3_file_sy.Layout.Steps.{Same, Stays, After-kept}
use cs5600_project_3_file_sy.Layout.Linked.{
  unowned-NoEntry, given-NoEntry, After-add_entry, After-free, put-IsTaken, After-write_or_undo,
}

zero_invalid : (k : ℕ) → entry_valid zero_block k ≡ false
unfolding entry_valid
zero_invalid k = refl

abbrev made : Env → ℕ → ℕ → Block
made env mode y = encode_inode (new_dir env mode y)

-- What fs_mkdir does with the blocks that it took.
abbrev fill : Env → ℕ → Inode → Name → ℕ × ℕ → M (Unit {0})
fill env mode n name (x, y) =
    write_or_undo x (made env mode y) (clear_bit x >> clear_bit y)
    >> (write_or_undo y zero_block (clear_bit x >> clear_bit y) >> add_entry n name x eopnotsupp)

module _ (kind : ℕ → Kind) (home : ℕ → ℕ × ℕ) (env : Env) (mode : ℕ) (small : mode < 4096)
    (n : Inode) (name : Name) (i d : ℕ) (dir : IsDirInode kind n i d) where
  new_dir-IsInode : (y : ℕ) → y < 2 ^ 32 → IsInode (new_dir env mode y)
  unfolding new_dir
  new_dir-IsInode y fits = record {
    uid_fits = omega arith;
    gid_fits = omega arith;
    mode_fits = (dir_mode mode small).1;
    ctime_fits = omega arith;
    mtime_fits = omega arith;
    size_fits = omega arith;
    ptrs_fit = λ j. ground arith;
  }

  -- The owners once both blocks are written.
  abbrev with_data : ℕ → ℕ → ℕ → Kind
  with_data x y = given kind y (dir_data x)

  abbrev with_both : ℕ → ℕ → ℕ → Kind
  with_both x y = given (with_data x y) x (dir_inode y)

  new_dir-IsDirInode : (x y : ℕ) → y ≢ x → IsDirInode (with_both x y) (new_dir env mode y) x y
  unfolding new_dir
  new_dir-IsDirInode x y ne = record {
    is_directory = (dir_mode mode small).0;
    one_block = refl;
    block_is = refl;
    owns = given_ne (with_data x y) x y (dir_inode y) ne ∙ given_self kind y (dir_data x);
  }

  -- The state when both blocks are written.
  abbrev both : State → ℕ → ℕ → State
  both s x y =
      let t : State = record s { dev = put s.dev x (made env mode y) } in
      record t { dev = put t.dev y zero_block }

  module _ (s : State) (x y : ℕ) (h : AreTaken kind home s x y) where
    one : IsTaken kind home (both s x y) x
    one =
        let t : State = record s { dev = put s.dev x (made env mode y) } in
        put-IsTaken kind home t x y zero_block
          (put-IsTaken kind home s x x (made env mode y) h.one h.one.free) h.two.free

    two : IsTaken kind home (both s x y) y
    two =
        let t : State = record s { dev = put s.dev x (made env mode y) } in
        put-IsTaken kind home t y y zero_block
          (put-IsTaken kind home s y x (made env mode y) h.two h.one.free) h.two.free

    data_adopted : IsConsistent (with_data x y) home (both s x y)
    data_adopted =
        let t : State = record s { dev = put s.dev x (made env mode y) } in
        adopt kind home (both s x y) y (dir_data x) two.consistent two.free two.from two.to
          (two.bit two.consistent.map two.consistent.loaded) (λ _. omega arith) (λ e q. cc)
          (λ q. cc)
          (λ j k q l. ap (λ b. entry_valid b k) (stored_self t.dev y zero_block) ∙ zero_invalid k)

    still_free : with_data x y x ≡ unowned
    still_free = given_ne kind y x (dir_data x) (λ q. h.different (sym q)) ∙ h.one.free

    inode_made : inode_at (both s x y).dev x ≡ new_dir env mode y
    inode_made =
        let t : State = record s { dev = put s.dev x (made env mode y) } in
        let same : (both s x y).dev.store x ≡ t.dev.store x =
          stored_ne t.dev y x zero_block (λ q. h.different (sym q)) (omega arith) in
        ap decode_inode same
        ∙ inode_at-put s.dev x (new_dir env mode y)
            (new_dir-IsInode y (omega (arith, h.two.to, h.two.consistent.covered)))

    both_adopted : IsConsistent (with_both x y) home (both s x y)
    both_adopted =
        adopt (with_data x y) home (both s x y) x (dir_inode y) data_adopted still_free one.from
          one.to (one.bit data_adopted.map data_adopted.loaded) (λ _. omega arith)
          (λ e q.
            let same : y ≡ e = cc in rw (inode_made, ← same) (new_dir-IsDirInode x y h.different))
          (λ q. cc) (λ j k q. cc)

    dir_both : IsDirInode (with_both x y) n i d
    dir_both =
        Extends-IsDirInode (with_data x y) (with_both x y)
          (given-Extends (with_data x y) x (dir_inode y) still_free) n i d
          (Extends-IsDirInode kind (with_data x y) (given-Extends kind y (dir_data x) h.two.free) n
            i d dir)

    After-entry : Stays (add_entry n name x eopnotsupp) (both s x y)
    After-entry =
        let ne : x ≢ 2 = λ q.
          let (e, at) = one.consistent.root in
          let clash : unowned ≡ dir_inode e = sym one.free ∙ ap kind q ∙ at in cc in
        After-add_entry (with_both x y) home n x i d name eopnotsupp (both s x y) both_adopted
          dir_both (rw (given_self (with_data x y) x (dir_inode y)) tt) ne
          (given-NoEntry (with_data x y) home (both s x y) x x (dir_inode y) (λ j q. cc)
            (unowned-NoEntry (with_data x y) home (both s x y) x data_adopted still_free))
          (omega (arith, one.to, one.consistent.covered))

  After-undo :
      (s : State) (x y : ℕ)
      → AreTaken kind home s x y
      → After (Same kind home) (IsConsistent kind home) ((clear_bit x >> clear_bit y) s)
  After-undo s x y h =
      let c = h.one.consistent in
      After-bind (Same kind home) (IsConsistent kind home) (Same kind home) (λ _. clear_bit y)
        (clear_bit x) s (After-free kind home s x c h.one.free (omega (arith, h.one.to, c.covered)))
        (λ _ t c'. After-free kind home t y c' h.two.free (omega (arith, h.two.to, c.covered)))

  After-fill :
      (s : State) (x y : ℕ) → AreTaken kind home s x y → Stays (fill env mode n name (x, y)) s
  After-fill s x y h =
      let undo = clear_bit x >> clear_bit y in
      let linked = add_entry n name x eopnotsupp in
      let zeroed = write_or_undo y zero_block undo in
      let t : State = record s { dev = put s.dev x (made env mode y) } in
      let h' : AreTaken kind home t x y = record {
        one = put-IsTaken kind home s x x (made env mode y) h.one h.one.free;
        two = put-IsTaken kind home s y x (made env mode y) h.two h.one.free;
        different = h.different;
      } in
      let last : Stays (zeroed >> linked) t =
        After-kept kind home (λ (_ : Unit {0}) u. Stays linked u) (λ _. linked) zeroed t
          (After-write_or_undo kind home (λ (_ : Unit {0}) u. Stays linked u) t y zero_block undo
            h'.two (After-undo t x y h') (After-entry s x y h))
          (λ _ u k. k) in
      After-kept kind home (λ (_ : Unit {0}) u. Stays (zeroed >> linked) u) (λ _. zeroed >> linked)
        (write_or_undo x (made env mode y) undo) s
        (After-write_or_undo kind home (λ (_ : Unit {0}) u. Stays (zeroed >> linked) u) s x
          (made env mode y) undo h.one (After-undo s x y h) last)
        (λ _ u k. k)

-- On a consistent image, fs_mkdir with a path that has a parent and a mode of twelve bits does not
-- crash and leaves a consistent image, whether it succeeds or fails.
pub fs_mkdir-Consistent :
    (env : Env) (path : List ℕ) (mode : ℕ) (s : State)
    → IsEntryPath path
    → mode < 4096
    → Consistent s
    → Stays (fs_mkdir env path mode) s
unfolding fs_mkdir
fs_mkdir-Consistent env path mode s named small (kind, home, c) =
    let new = λ (p : Inode × Name). take_two >>= fill env mode p.0 p.1 in
    let checked = λ (p : Inode × Name). require_absent p.0 p.1 >> new p in
    After-kept kind home (IsParent kind home) checked (parent_dir path) s
      (After-parent_dir kind home path s named c)
      (λ (n, name) t (c', i, d, dir).
        After-kept kind home (Same kind home) (λ _. new (n, name)) (require_absent n name) t
          (After-require_absent kind home n name i d t dir c')
          (λ _ u c''.
            After-kept kind home (λ (p : ℕ × ℕ) v. AreTaken kind home v p.0 p.1)
              (fill env mode n name) take_two u (After-take_two kind home u c'')
              (λ (x, y) v h. After-fill kind home env mode small n name i d dir v x y h)))
