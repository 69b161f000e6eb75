-- ===== src/Cld/Requests/Naming.antt =====
-- The requests of cld/msg.c that take a path: msg_open and msg_del.
use hail.Base.{
  ℕ, ◌+◌, ◌%◌, ◌^◌, Bool, true, false, not, ◌&&◌, ◌||◌, Option, none, some, List, [], ◌∷◌, ◌++◌,
  length, ltb, if◌then◌else◌,
}
use hail.Cld.{
  Code, ok_code, db_err, name_inval, inode_exists, mode_inval, oom, dir_notempty, inode_inval,
  RawHandle, RawInode, RawSession, has_bit, Msg,
}
use hail.Cld.Db.{Db, Rc, notfound, keyexist, Res, ok, fail}
use hail.Cld.Dir.{valid_inode_name, pathname_parse, dirdata_append, dirdata_delete}
use hail.Cld.Lock.{Peer}
use hail.Cld.Requests.{
  Told, Out, pass, stop, or_code, ◌then_do◌, Answer, transact, inode_notify, inode_touch,
}

-- COM_CREATE, COM_EXCL and COM_DIRECTORY of an open mode, and CIFL_DIR of an inode.
abbrev pub com_create : ℕ → Bool
com_create mode = has_bit 4 mode

abbrev pub com_excl : ℕ → Bool
com_excl mode = has_bit 5 mode

abbrev pub com_dir : ℕ → Bool
com_dir mode = has_bit 6 mode

abbrev pub is_dir : RawInode → Bool
is_dir ino = has_bit 0 ino.flags

abbrev pub same_bool : Bool → Bool → Bool
same_bool true b = b
same_bool false b = not b

-- cldb_inode_mem
unfoldable pub inode_mem : ℕ → List ℕ → Bool → ℕ → RawInode
inode_mem now name do_dir inum = record {
  inum = inum;
  name = name;
  size = 0;
  version = 0;
  time_create = now;
  time_modify = now;
  flags = if do_dir then 1 else 0;
}

-- Data that is not there is an empty directory.
unfoldable pub or_empty : Res (List ℕ) → Out (List ℕ)
or_empty (ok bytes) = pass bytes
or_empty (fail notfound) = pass []
or_empty (fail keyexist) = stop [] db_err
or_empty (fail (Rc.other n)) = stop [] db_err

-- A part after messages were sent: a jump to `err_out` does not take them back.
unfoldable pub after_told {ℓ} : {A : Type ℓ} → Told → Out A → Out A
after_told told (pass a) = pass a
after_told told (stop more c) = stop (told ++ more) c

-- A deletion that finds nothing is no error for data and handles.
unfoldable pub deleted : {W : Type 0} → W → Res W → Out W
deleted w (ok w') = pass w'
deleted w (fail notfound) = pass w
deleted w (fail keyexist) = stop [] db_err
deleted w (fail (Rc.other n)) = stop [] db_err

-- DB_NOTFOUND has a code of its own.
unfoldable pub or_name {ℓ} : {A : Type ℓ} → Res A → Code → Out A
or_name (ok a) c = pass a
or_name (fail notfound) c = stop [] c
or_name (fail keyexist) c = stop [] db_err
or_name (fail (Rc.other n)) c = stop [] db_err

unfoldable pub or_db_err {ℓ} : {A : Type ℓ} → Option A → Out A
or_db_err (some a) = pass a
or_db_err none = stop [] db_err

-- A directory with entries cannot be deleted.
unfoldable pub empty_dir : Res (List ℕ) → Out (Unit {0})
empty_dir (ok []) = pass tt
empty_dir (ok (b ∷ bs)) = stop [] dir_notempty
empty_dir (fail notfound) = pass tt
empty_dir (fail keyexist) = stop [] db_err
empty_dir (fail (Rc.other n)) = stop [] db_err

unfoldable pub check_empty : RawInode → Res (List ℕ) → Out (Unit {0})
unfolding empty_dir
check_empty ino r = if is_dir ino then empty_dir r else pass tt

module _ (db : Db) (peer : ℕ → Peer) (sends : ℕ → Msg → Bool) (now : ℕ) where
  -- msg_open for an inode that is to be created; `free` is the number that cldb_inode_new finds.
  unfoldable pub create_inode :
      List ℕ → ℕ → Option ℕ → db.World → Out (db.World × Told × RawInode × Bool)
  unfolding inode_mem or_empty after_told
  create_inode name mode none w = stop [] oom
  create_inode name mode (some inum) w =
      let (dir, base) = pathname_parse name in
      or_code (db.inode_get_byname w dir) db_err then_do λ parent.
      or_empty (db.data_get w parent.inum) then_do λ entries.
      let entries' = dirdata_append entries base in
      or_code (db.data_put w parent.inum entries') db_err then_do λ w1.
      let parent' : RawInode = record parent { size = length entries' % 2 ^ 32 } in
      or_code (inode_touch db peer sends now w1 parent') db_err then_do λ r.
      pass (r.0, r.1, inode_mem now name (com_dir mode) inum, true)

  -- msg_open after the search for the inode: the store, who was told, the inode, and whether it is new.
  unfoldable pub opened :
      List ℕ → ℕ → Option ℕ → db.World → Res RawInode → Out (db.World × Told × RawInode × Bool)
  unfolding create_inode
  opened name mode free w (fail notfound) =
      if com_create mode then create_inode name mode free w else stop [] name_inval
  opened name mode free w (fail keyexist) = stop [] db_err
  opened name mode free w (fail (Rc.other n)) = stop [] db_err
  opened name mode free w (ok ino) =
      if com_create mode && com_excl mode
      then stop [] inode_exists
      else (if same_bool (com_dir mode) (is_dir ino)
          then pass (w, [], ino, false)
          else stop [] mode_inval)

  unfoldable pub open_inode :
      List ℕ → ℕ → Option ℕ → db.World → Out (db.World × Told × RawInode × Bool)
  unfolding opened
  open_inode name mode free w =
      if not (valid_inode_name name) || (com_create mode && ltb (length name) 2)
      then stop [] name_inval
      else opened name mode free w (db.inode_get_byname w name)

  -- The rest of msg_open: the handle, the new inode's record and the session's.
  unfoldable pub open_handle :
      RawSession → ℕ → ℕ → db.World × Told × RawInode × Bool → Out (db.World × Told × Code)
  unfolding after_told
  open_handle sess mode events (w, told, ino, created) =
      let h : RawHandle = record {
        sid = sess.sid;
        fh = sess.next_fh;
        inum = ino.inum;
        mode = mode % 2 ^ 32;
        events = events % 2 ^ 32;
      } in
      let sess' : RawSession = record sess { next_fh = (sess.next_fh + 1) % 2 ^ 64 } in
      after_told told (
        or_code (db.handle_put w h) db_err then_do λ w1.
        if created
        then (or_code (inode_touch db peer sends now w1 ino) db_err then_do λ r. after_told r.1 (
            or_code (db.session_put r.0 sess') db_err then_do λ w2.
            pass (w2, told ++ r.1, ok_code)))
        else (or_code (db.session_put w1 sess') db_err then_do λ w2. pass (w2, told, ok_code)))

  unfoldable pub open_body :
      RawSession → List ℕ → ℕ → ℕ → Option ℕ → db.World → Out (db.World × Told × Code)
  unfolding open_inode open_handle
  open_body sess name mode events free w =
      open_inode name mode free w then_do λ r. open_handle sess mode events r

  -- msg_open for a session whose record would be `sess`. With CLE_OK the reply has the handle, which
  -- is the session's `next_fh`.
  unfoldable pub msg_open : RawSession → List ℕ → ℕ → ℕ → Option ℕ → db.World → Answer db.World
  unfolding transact open_body
  msg_open sess name mode events free = transact db (open_body sess name mode events free)

  -- msg_del from the deletion of the inode on.
  unfoldable pub unlink : List ℕ → List ℕ → RawInode → RawInode → db.World → Out (db.World × Told)
  unfolding deleted or_name or_db_err
  unlink base entries parent ino w = or_name (db.inode_del w ino.inum) inode_inval then_do λ w1.
      deleted w1 (db.data_del w1 ino.inum) then_do λ w2.
      deleted w2 (db.handle_idx_del w2 ino.inum) then_do λ w3.
      or_db_err (dirdata_delete entries base) then_do λ entries'.
      or_code (db.data_put w3 parent.inum entries') db_err then_do λ w4.
      let parent' : RawInode = record parent { size = length entries' % 2 ^ 32 } in
      or_code (inode_touch db peer sends now w4 parent') db_err

  unfoldable pub del_body : List ℕ → db.World → Out (db.World × Told × Code)
  unfolding unlink check_empty or_name after_told
  del_body name w =
      let (dir, base) = pathname_parse name in
      or_code (db.inode_get_byname w dir) db_err then_do λ parent.
      or_code (db.data_get w parent.inum) db_err then_do λ entries.
      or_name (db.inode_get_byname w name) name_inval then_do λ ino.
      check_empty ino (db.data_get w ino.inum) then_do λ _.
      or_code (inode_notify db peer sends w ino.inum true) db_err then_do λ told.
      after_told told (unlink base entries parent ino w) then_do λ r.
      pass (r.0, told ++ r.1, ok_code)

  -- msg_del checks the name before its transaction begins.
  unfoldable pub msg_del : List ℕ → db.World → Answer db.World
  unfolding transact del_body
  msg_del name w =
      if not (valid_inode_name name) || ltb (length name) 2
      then record { world = w; told = []; code = name_inval }
      else transact db (del_body name) w
