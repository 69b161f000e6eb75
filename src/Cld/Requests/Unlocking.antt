-- ===== src/Cld/Requests/Unlocking.antt =====
-- msg_unlock of cld/msg.c: its replies, and what it leaves of the locks.
use hail.Base.{
  ℕ, ◌≡◌, ◌⊎◌, ◌∙◌, refl, sym, ap, true, false, [], ◌==◌, if◌then◌else◌, inl, inr, Bool-cases,
}
use hail.Cld.{ok_code, db_err, fh_inval, mode_inval, lock_inval, RawHandle}
use hail.Cld.Db.{Db, Rc, Res, ok, fail, IsLockTable, Serves, IsStore}
use hail.Cld.Lock.{lock_del}
use hail.Cld.Lock.Scan.{has_lock, without_first}
use hail.Cld.Lock.Effects.{Deleted, lock_del-Deleted}
use hail.Cld.Requests.{pass, com_lock, Answer, transact, unlock_body, msg_unlock}

module _ (db : Db) (t : IsLockTable db) (good : Serves db) (st : IsStore db) where
  -- The ways msg_unlock ends, each with its reason, its code and what it leaves of the store.
  pub data Unlocked (sid fh : ℕ) (w : db.World) (a : Answer db.World) : Type 0 where
    no_handle :
        (rc : Rc)
        → db.handle_get w sid fh ≡ fail rc
        → a.code ≡ fh_inval
        → a.world ≡ w
        → Unlocked sid fh w a
    no_mode :
        (h : RawHandle)
        → db.handle_get w sid fh ≡ ok h
        → com_lock h ≡ false
        → a.code ≡ mode_inval
        → a.world ≡ w
        → Unlocked sid fh w a
    no_lock :
        (h : RawHandle)
        → db.handle_get w sid fh ≡ ok h
        → has_lock sid fh (db.lock_dups w h.inum) ≡ false
        → a.code ≡ lock_inval
        → a.world ≡ w
        → Unlocked sid fh w a
    no_txn :
        (rc : Rc)
        → ((db.txn_begin w ≡ fail rc) ⊎ ((v : db.World) × (db.txn_commit v ≡ fail rc)))
        → a.code ≡ db_err
        → a.world ≡ w
        → Unlocked sid fh w a
    unlocked :
        (h : RawHandle)
        → db.handle_get w sid fh ≡ ok h
        → com_lock h ≡ true
        → has_lock sid fh (db.lock_dups w h.inum) ≡ true
        → ((j : ℕ)
            → db.lock_dups a.world j ≡ (
                if h.inum == j
                then without_first sid fh (db.lock_dups w h.inum)
                else db.lock_dups w j))
        → a.code ≡ ok_code
        → Unlocked sid fh w a

  committed :
      (sid fh : ℕ) (w v v' : db.World) (h : RawHandle) (r : Res db.World)
      → db.txn_begin w ≡ ok v
      → db.handle_get v sid fh ≡ ok h
      → com_lock h ≡ true
      → Deleted db t good v sid fh h.inum (ok v')
      → unlock_body db sid fh v ≡ pass (v', [], ok_code)
      → db.txn_commit v' ≡ r
      → Unlocked sid fh w (msg_unlock db sid fh w)
  unfolding msg_unlock transact
  committed sid fh w v v' h (fail rc) begun has mode del body e =
      no_txn rc (inr (v', e)) (rw (msg_unlock, transact, begun, body, e) refl)
        (rw (msg_unlock, transact, begun, body, e) refl)
  committed sid fh w v v' h (ok w') begun has mode (mine, rest) body e =
      let before : (k : ℕ) → db.lock_dups v k ≡ db.lock_dups w k = λ k. st.dups-begin w v k begun in
      unlocked h (sym (st.handle-begin w v sid fh begun) ∙ has) mode
        (ap (has_lock sid fh) (sym (before h.inum)) ∙ mine)
        (λ j.
          rw (msg_unlock, transact, begun, body, e)
            (st.dups-commit v' w' j e ∙ rest j ∙ rw (before h.inum, before j) refl))
        (rw (msg_unlock, transact, begun, body, e) refl)

  deleting :
      (sid fh : ℕ) (w v : db.World) (h : RawHandle) (r : Res db.World)
      → db.txn_begin w ≡ ok v
      → db.handle_get v sid fh ≡ ok h
      → com_lock h ≡ true
      → lock_del db v sid fh h.inum ≡ r
      → Deleted db t good v sid fh h.inum r
      → Unlocked sid fh w (msg_unlock db sid fh w)
  unfolding msg_unlock transact unlock_body
  deleting sid fh w v h (fail rc) begun has mode e (free, _) =
      no_lock h (sym (st.handle-begin w v sid fh begun) ∙ has)
        (ap (has_lock sid fh) (sym (st.dups-begin w v h.inum begun)) ∙ free)
        (rw (msg_unlock, transact, begun, unlock_body, has, mode, e) refl)
        (rw (msg_unlock, transact, begun, unlock_body, has, mode, e) (st.abort-begin w v begun))
  deleting sid fh w v h (ok v') begun has mode e del =
      committed sid fh w v v' h (db.txn_commit v') begun has mode del
        (rw (unlock_body, has, mode, e) refl) refl

  with_handle :
      (sid fh : ℕ) (w v : db.World) (r : Res RawHandle)
      → db.txn_begin w ≡ ok v
      → db.handle_get v sid fh ≡ r
      → Unlocked sid fh w (msg_unlock db sid fh w)
  unfolding msg_unlock transact unlock_body
  with_handle sid fh w v (fail rc) begun e =
      no_handle rc (sym (st.handle-begin w v sid fh begun) ∙ e)
        (rw (msg_unlock, transact, begun, unlock_body, e) refl)
        (rw (msg_unlock, transact, begun, unlock_body, e) (st.abort-begin w v begun))
  with_handle sid fh w v (ok h) begun e = elim (Bool-cases (com_lock h)) [
    | inl mode ↦
        deleting sid fh w v h (lock_del db v sid fh h.inum) begun e mode refl
          (lock_del-Deleted db t good v sid fh h.inum)
    | inr none ↦
        no_mode h (sym (st.handle-begin w v sid fh begun) ∙ e) none
          (rw (msg_unlock, transact, begun, unlock_body, e, none) refl)
          (rw (msg_unlock, transact, begun, unlock_body, e, none) (st.abort-begin w v begun))
  ]

  begun_or_not :
      (sid fh : ℕ) (w : db.World) (r : Res db.World)
      → db.txn_begin w ≡ r
      → Unlocked sid fh w (msg_unlock db sid fh w)
  unfolding msg_unlock transact
  begun_or_not sid fh w (fail rc) e =
      no_txn rc (inl e) (rw (msg_unlock, transact, e) refl) (rw (msg_unlock, transact, e) refl)
  begun_or_not sid fh w (ok v) e = with_handle sid fh w v (db.handle_get v sid fh) e refl

  -- msg_unlock ends in one of five ways: without a handle of the session it replies CLE_FH_INVAL;
  -- where the handle's mode lacks COM_LOCK, CLE_MODE_INVAL; where the inode has no lock of the
  -- session and the handle, CLE_LOCK_INVAL; where the transaction does not begin or commit,
  -- CLE_DB_ERR, and each of these leaves the store as it was; or it replies CLE_OK, the handle
  -- and its mode allowed it, and of the locks of every inode exactly the first one of the session
  -- and the handle on the handle's inode is gone: on a store that works as documented and whose
  -- lock table does not fail.
  pub msg_unlock-Unlocked : (sid fh : ℕ) (w : db.World) → Unlocked sid fh w (msg_unlock db sid fh w)
  msg_unlock-Unlocked sid fh w = begun_or_not sid fh w (db.txn_begin w) refl
