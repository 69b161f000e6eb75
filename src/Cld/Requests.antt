-- ===== src/Cld/Requests.antt =====
-- The request handlers of cld/msg.c over a transaction of the store: msg_lock, msg_unlock,
-- msg_close, msg_put and msg_get, with inode_notify and inode_touch.
pub mod Naming
pub mod Atomic
pub mod Opening
pub mod Deleting
pub mod Refusals
pub mod PutGet
pub mod Locking
pub mod Unlocking
use hail.Base.{
  ℕ, zero, suc, ◌+◌, ◌/◌, ◌%◌, ◌^◌, Bool, true, false, not, ◌&&◌, ◌||◌, Option, none, some, List,
  [], ◌∷◌, ◌++◌, length, ltb, ◌==◌, if◌then◌else◌,
}
use hail.Cld.{
  Code, ok_code, db_err, fh_inval, mode_inval, inode_inval, lock_inval, lock_conflict, lock_pending,
  Op, lock_op, get_op, RawHandle, RawInode, has_bit, Event, updated, deleted, Msg, resp, get_resp,
  event,
}
use hail.Cld.Db.{Db, Rc, notfound, keyexist, Res, ok, fail}
use hail.Cld.Lock.{
  Peer, gone, unconnected, connected, lock_add, lock_del, remove_locks, lock_rescan,
}

-- The bits COM_READ, COM_WRITE, COM_LOCK and COM_DIRECTORY of an open mode.
abbrev pub com_read : RawHandle → Bool
com_read h = has_bit 0 h.mode

abbrev pub com_write : RawHandle → Bool
com_write h = has_bit 1 h.mode

abbrev pub com_lock : RawHandle → Bool
com_lock h = has_bit 2 h.mode

abbrev pub com_directory : RawHandle → Bool
com_directory h = has_bit 6 h.mode

-- The messages to other sessions, which an abort does not take back.
abbrev pub Told : Type 0
Told = List (ℕ × Msg)

-- A part of a handler under its transaction: it goes on, or it jumps to `err_out`.
pub data Out {ℓ} (A : Type ℓ) : Type ℓ where
  pass : A → Out A
  stop : Told → Code → Out A

abbrev pub or_code {ℓ} : {A : Type ℓ} → Res A → Code → Out A
or_code (ok a) c = pass a
or_code (fail rc) c = stop [] c

infixl 5 ◌then_do◌
abbrev pub ◌then_do◌ {ℓ κ} : {A : Type ℓ} {B : Type κ} → Out A → (A → Out B) → Out B
pass a then_do f = f a
stop told c then_do f = stop told c

-- The code for a failed cldb_lock_add.
pub lock_code : Rc → Code
lock_code keyexist = lock_conflict
lock_code notfound = db_err
lock_code (Rc.other n) = db_err

-- Only CMO_LOCK waits for the lock.
abbrev pub waits : Op → Bool
waits lock_op = true
waits _ = false

-- msg_lock after cldb_lock_add
unfoldable pub lock_answer : {W : Type 0} → Res (W × Bool) → Out (W × Told × Code)
unfolding lock_code
lock_answer (fail rc) = stop [] (lock_code rc)
lock_answer (ok (w, acquired)) = pass (w, [], if acquired then ok_code else lock_pending)

pub handle_code : Rc → Code
handle_code notfound = fh_inval
handle_code keyexist = db_err
handle_code (Rc.other n) = db_err

-- The loop of inode_notify over the handles of an inode.
pub notify_loop : (ℕ → Peer) → (ℕ → Msg → Bool) → Bool → List RawHandle → Told
notify_loop peer sends gone_now [] = []
notify_loop peer sends gone_now (h ∷ hs) =
    let rest = notify_loop peer sends gone_now hs in
    let me = event h.fh (if gone_now then deleted else updated) in
    if not gone_now && not (has_bit 0 h.events) then rest else elim (peer h.sid) [
      | gone ↦ rest
      | unconnected ↦ rest
      | connected ↦ if sends h.sid me then (h.sid, me) ∷ rest else (h.sid, me) ∷ []
    ]

-- inode_touch: the version is read and written as 32 bits.
pub touched : ℕ → RawInode → RawInode
touched now ino = record ino {
  time_modify = now;
  time_create = if ino.time_create == 0 then now else ino.time_create;
  version = (ino.version % 2 ^ 32 + 1) % 2 ^ 32;
}

-- The world after a handler, the messages to other sessions, and the code of its reply.
pub record Answer (W : Type 0) : Type 0 where
  pub world : W
  pub told : Told
  pub code : Code

module _ (db : Db) where
  -- txn_begin, the body, and txn_commit. A jump to err_out aborts; txn_begin or txn_commit that
  -- fails goes to err_out_noabort, where there is no transaction any more.
  unfoldable pub transact : (db.World → Out (db.World × Told × Code)) → db.World → Answer db.World
  transact body w = elim (db.txn_begin w) [
    | fail _ ↦ record { world = w; told = []; code = db_err }
    | ok t ↦ elim (body t) [
      | stop told c ↦ record { world = db.txn_abort t; told = told; code = c }
      | pass (t', told, c) ↦ elim (db.txn_commit t') [
        | fail _ ↦ record { world = w; told = told; code = db_err }
        | ok w' ↦ record { world = w'; told = told; code = c }
      ]
    ]
  ]

  pub lock_body : ℕ → Op → ℕ → ℕ → Bool → db.World → Out (db.World × Told × Code)
  unfolding lock_answer
  lock_body now op sid fh shared w = or_code (db.handle_get w sid fh) fh_inval then_do λ h.
      if not (com_lock h)
      then stop [] mode_inval
      else lock_answer (lock_add db w sid fh h.inum now shared (waits op))

  -- msg_lock, for CMO_LOCK and CMO_TRYLOCK
  pub msg_lock : ℕ → Op → ℕ → ℕ → Bool → db.World → Answer db.World
  unfolding transact lock_body
  msg_lock now op sid fh shared = transact (lock_body now op sid fh shared)

  pub unlock_body : ℕ → ℕ → db.World → Out (db.World × Told × Code)
  unlock_body sid fh w = or_code (db.handle_get w sid fh) fh_inval then_do λ h.
      if not (com_lock h)
      then stop [] mode_inval
      else (or_code (lock_del db w sid fh h.inum) lock_inval then_do λ w'. pass (w', [], ok_code))

  pub msg_unlock : ℕ → ℕ → db.World → Answer db.World
  unfolding transact unlock_body
  msg_unlock sid fh = transact (unlock_body sid fh)

  pub close_body : (ℕ → Peer) → (ℕ → Msg → Bool) → ℕ → ℕ → db.World → Out (db.World × Told × Code)
  unfolding handle_code
  close_body peer sends sid fh w = elim (db.handle_get w sid fh) [
    | fail rc ↦ stop [] (handle_code rc)
    | ok h ↦
        let lock_inum = if com_lock h then h.inum else 0 in
        or_code (db.handle_del w sid fh) db_err then_do λ w1.
        or_code (remove_locks db w1 sid fh lock_inum) db_err then_do λ r.
        if r.1
        then (let (r2, told) = lock_rescan db peer sends r.0 lock_inum in
            elim r2 [ fail _ ↦ stop told db_err | ok w2 ↦ pass (w2, told, ok_code) ])
        else pass (r.0, [], ok_code)
  ]

  pub msg_close : (ℕ → Peer) → (ℕ → Msg → Bool) → ℕ → ℕ → db.World → Answer db.World
  unfolding transact close_body
  msg_close peer sends sid fh = transact (close_body peer sends sid fh)

  -- inode_notify: who is told, unless the cursor does not open.
  unfoldable pub inode_notify : (ℕ → Peer) → (ℕ → Msg → Bool) → db.World → ℕ → Bool → Res Told
  unfolding notify_loop
  inode_notify peer sends w inum gone_now = elim (db.handle_idx_cursor w) [
    | fail rc ↦ fail rc
    | ok _ ↦ ok (notify_loop peer sends gone_now (db.handle_idx_scan w inum))
  ]

  unfoldable pub inode_touch :
      (ℕ → Peer) → (ℕ → Msg → Bool) → ℕ → db.World → RawInode → Res (db.World × Told)
  unfolding touched inode_notify
  inode_touch peer sends now w ino = elim (db.inode_put w (touched now ino)) [
    | fail rc ↦ fail rc
    | ok w' ↦ elim (inode_notify peer sends w' ino.inum false) [
      | fail rc ↦ fail rc
      | ok told ↦ ok (w', told)
    ]
  ]

  unfoldable pub put_body :
      (ℕ → Peer) → (ℕ → Msg → Bool) → ℕ → ℕ → ℕ → List ℕ → db.World → Out (db.World × Told × Code)
  unfolding inode_touch
  put_body peer sends now sid fh bytes w = or_code (db.handle_get w sid fh) fh_inval then_do λ h.
      if not (com_write h) || com_directory h
      then stop [] mode_inval
      else (or_code (db.inode_get w h.inum) inode_inval then_do λ ino.
          or_code (db.data_put w h.inum bytes) db_err then_do λ w1.
          let sized : RawInode = record ino { size = length bytes % 2 ^ 32 } in
          or_code (inode_touch peer sends now w1 sized) db_err then_do λ r.
          pass (r.0, r.1, ok_code))

  unfoldable pub msg_put :
      (ℕ → Peer) → (ℕ → Msg → Bool) → ℕ → ℕ → ℕ → List ℕ → db.World → Answer db.World
  unfolding transact put_body
  msg_put peer sends now sid fh bytes = transact (put_body peer sends now sid fh bytes)

  -- The data of a CMO_GET: none yet is an empty file, and otherwise the length has to be the inode's.
  pub get_data : Op → db.World → RawInode → ℕ → Out (List ℕ)
  get_data op w ino inum = elim op [
    | get_op ↦ elim (db.data_get w inum) [
      | fail notfound ↦ pass []
      | fail rc ↦ stop [] db_err
      | ok bytes ↦ if length bytes == ino.size then pass bytes else stop [] db_err
    ]
    | _ ↦ pass []
  ]

  pub get_body : Op → ℕ → ℕ → ℕ → db.World → Out Msg
  unfolding get_data
  get_body op xid sid fh w = or_code (db.handle_get w sid fh) fh_inval then_do λ h.
      if not (com_read h)
      then stop [] mode_inval
      else (or_code (db.inode_get w h.inum) inode_inval then_do λ ino.
          get_data op w ino h.inum then_do λ bytes. pass (get_resp xid ino bytes))

  -- msg_get: the reply is sent before the commit of what only reads; the store afterwards and it.
  pub msg_get : Op → ℕ → ℕ → ℕ → db.World → db.World × Msg
  unfolding get_body
  msg_get op xid sid fh w = elim (db.txn_begin w) [
    | fail _ ↦ (w, resp op db_err xid)
    | ok t ↦ elim (get_body op xid sid fh t) [
      | stop _ c ↦ (db.txn_abort t, resp op c xid)
      | pass me ↦ elim (db.txn_commit t) [ fail _ ↦ (w, me) | ok w' ↦ (w', me) ]
    ]
  ]
