-- ===== src/Cld/Requests/Refusals.antt =====
-- The replies of the requests of cld/msg.c against what they leave in the store.
use hail.Base.{
  ℕ, ◌%◌, ◌^◌, length, ◌≡◌, refl, Bool, true, false, not, ◌||◌, ◌⊎◌, List, inl, inr, if◌then◌else◌,
}
use hail.Cld.{
  Code, ok_code, lock_pending, db_err, fh_inval, lock_inval, inode_inval, Op, Msg, RawHandle,
}
use hail.Cld.Db.{Db, Rc, notfound, keyexist, Res, ok, fail, IsStore}
use hail.Cld.Lock.{Peer, lock_add, lock_del, remove_locks, lock_rescan}
use hail.Cld.Requests.{
  Told, Out, pass, stop, com_lock, com_write, com_directory, Answer, waits, transact, lock_body,
  msg_lock, unlock_body, msg_unlock, close_body, msg_close, handle_code, inode_touch, put_body,
  msg_put,
}
use hail.Cld.Requests.Atomic.{is_done, Passes, Passes-or, Passes-if, transact-Passes}
use hail.Cld.Requests.Locking.{lock_answer-Passes}

module _ (db : Db) (peer : ℕ → Peer) (sends : ℕ → Msg → Bool) (st : IsStore db) where
  abbrev Done : db.World × Told × Code → Type 0
  Done r = is_done r.2 ≡ true

  rescan-Done :
      (r : Res db.World) (told : Told)
      → Passes Done (elim r [ fail _ ↦ stop told db_err | ok w ↦ pass (w, told, ok_code) ])
  rescan-Done (fail rc) told = refl
  rescan-Done (ok w) told = refl

  lock_body-Done :
      (now : ℕ) (op : Op) (sid fh : ℕ) (shared : Bool) (w : db.World)
      → Passes Done (lock_body db now op sid fh shared w)
  unfolding lock_body
  lock_body-Done now op sid fh shared w =
      Passes-or Done (db.handle_get w sid fh) fh_inval _ refl λ h _.
        Passes-if Done (not (com_lock h)) _ _ (λ _. refl)
          λ _.
            lock_answer-Passes Done (lock_add db w sid fh h.inum now shared (waits op))
              λ w' acquired _. held acquired
    where
      held : (b : Bool) → is_done (if b then ok_code else lock_pending) ≡ true
      held true = refl
      held false = refl

  unlock_body-Done : (sid fh : ℕ) (w : db.World) → Passes Done (unlock_body db sid fh w)
  unfolding unlock_body
  unlock_body-Done sid fh w = Passes-or Done (db.handle_get w sid fh) fh_inval _ refl λ h _.
      Passes-if Done (not (com_lock h)) _ _ (λ _. refl)
        λ _. Passes-or Done (lock_del db w sid fh h.inum) lock_inval _ refl λ w' _. refl

  close_body-Done : (sid fh : ℕ) (w : db.World) → Passes Done (close_body db peer sends sid fh w)
  unfolding close_body handle_code
  close_body-Done sid fh w = by_handle (db.handle_get w sid fh) refl
    where
      by_handle :
          (r : Res RawHandle)
          → db.handle_get w sid fh ≡ r
          → Passes Done (close_body db peer sends sid fh w)
      by_handle (fail notfound) e = rw (close_body, e) refl
      by_handle (fail keyexist) e = rw (close_body, e) refl
      by_handle (fail (Rc.other n)) e = rw (close_body, e) refl
      by_handle (ok h) e =
          let inum = if com_lock h then h.inum else 0 in
          rw (close_body, e)
            (Passes-or Done (db.handle_del w sid fh) db_err _ refl λ w1 _.
              Passes-or Done (remove_locks db w1 sid fh inum) db_err _ refl λ r _.
                Passes-if Done r.1 _ _
                  (λ _. let (r2, told) = lock_rescan db peer sends r.0 inum in rescan-Done r2 told)
                  (λ _. refl))

  put_body-Done :
      (now sid fh : ℕ) (bytes : List ℕ) (w : db.World)
      → Passes Done (put_body db peer sends now sid fh bytes w)
  unfolding put_body
  put_body-Done now sid fh bytes w = Passes-or Done (db.handle_get w sid fh) fh_inval _ refl λ h _.
      Passes-if Done (not (com_write h) || com_directory h) _ _ (λ _. refl)
        λ _. Passes-or Done (db.inode_get w h.inum) inode_inval _ refl λ ino _.
          Passes-or Done (db.data_put w h.inum bytes) db_err _ refl λ w1 _.
            Passes-or Done
              (inode_touch db peer sends now w1 (record ino { size = length bytes % 2 ^ 32 }))
              db_err (λ r. pass (r.0, r.1, ok_code)) refl λ r _. refl

  -- A reply of CLE_OK or CLE_LOCK_PENDING, to what was committed, or a refusal, which leaves the
  -- store as it was.
  abbrev pub Honest : Answer db.World → db.World → Type 0
  Honest a w =
      ((is_done a.code ≡ true) × (t : db.World) × (db.txn_commit t ≡ ok a.world))
      ⊎ ((is_done a.code ≡ false) × (a.world ≡ w))

  transact-Honest :
      (body : db.World → Out (db.World × Told × Code)) (w : db.World)
      → ((v : db.World) → Passes Done (body v))
      → Honest (transact db body w) w
  transact-Honest body w h = elim (transact-Passes db body st Done w (λ v _. h v)) [
    | inl (same, refused) ↦ inr (refused, same)
    | inr (v, was_done, saved) ↦ inl (was_done, v, saved)
  ]

  -- A request of msg_lock, msg_unlock, msg_close or msg_put either replies CLE_OK or
  -- CLE_LOCK_PENDING, and the store is what a transaction committed, or it replies with an error
  -- code, and the store is what it was before the request: on a store that works as documented.
  pub requests-Honest :
      (now sid fh : ℕ) (op : Op) (shared : Bool) (bytes : List ℕ) (w : db.World)
      → Honest (msg_lock db now op sid fh shared w) w
        × Honest (msg_unlock db sid fh w) w
        × Honest (msg_close db peer sends sid fh w) w
        × Honest (msg_put db peer sends now sid fh bytes w) w
  unfolding msg_lock msg_unlock msg_close msg_put
  requests-Honest now sid fh op shared bytes w = (
    transact-Honest (lock_body db now op sid fh shared) w (lock_body-Done now op sid fh shared),
    transact-Honest (unlock_body db sid fh) w (unlock_body-Done sid fh),
    transact-Honest (close_body db peer sends sid fh) w (close_body-Done sid fh),
    transact-Honest (put_body db peer sends now sid fh bytes) w (put_body-Done now sid fh bytes),
  )
