-- ===== src/Cld/Requests/Locking.antt =====
-- Mutual exclusion through the lock requests of cld/msg.c.
use hail.Base.{[], ℕ, ◌≡◌, refl, Bool, not, inl, inr, if◌then◌else◌}
use hail.Cld.{Code, ok_code, lock_pending, fh_inval, lock_inval, Op}
use hail.Cld.Db.{Db, Rc, notfound, keyexist, Res, ok, fail, IsLockTable, Serves, IsStore}
use hail.Cld.Lock.{lock_add, lock_del}
use hail.Cld.Lock.Exclusion.{AllExclusive, lock_add-AllExclusive, lock_del-AllExclusive}
use hail.Cld.Requests.{
  Told, Out, com_lock, lock_code, lock_answer, waits, transact, lock_body, msg_lock, unlock_body,
  msg_unlock,
}
use hail.Cld.Requests.Atomic.{Passes, Passes-or, Passes-if, transact-Passes}

pub lock_answer-Passes :
    {W : Type 0} (P : W × Told × Code → Type 0) (r : Res (W × Bool))
    → ((w : W) (acquired : Bool)
        → r ≡ ok (w, acquired)
        → P (w, [], if acquired then ok_code else lock_pending))
    → Passes P (lock_answer r)
unfolding lock_answer lock_code
lock_answer-Passes P (fail notfound) h = refl
lock_answer-Passes P (fail keyexist) h = refl
lock_answer-Passes P (fail (Rc.other n)) h = refl
lock_answer-Passes P (ok (w, acquired)) h = h w acquired refl

module _ (db : Db) (good : Serves db) (t : IsLockTable db) (st : IsStore db) where
  abbrev Safe : db.World × Told × Code → Type 0
  Safe r = AllExclusive db r.0

  lock_body-Safe :
      (now : ℕ) (op : Op) (sid fh : ℕ) (shared : Bool) (w : db.World)
      → AllExclusive db w
      → Passes Safe (lock_body db now op sid fh shared w)
  unfolding lock_body
  lock_body-Safe now op sid fh shared w e =
      Passes-or Safe (db.handle_get w sid fh) fh_inval _ refl λ h _.
        Passes-if Safe (not (com_lock h)) _ _ (λ _. refl)
          λ _.
            lock_answer-Passes Safe (lock_add db w sid fh h.inum now shared (waits op))
              λ w' acquired run.
                lock_add-AllExclusive db good t w w' sid fh h.inum now shared (waits op) acquired e
                  run

  unlock_body-Safe :
      (sid fh : ℕ) (w : db.World) → AllExclusive db w → Passes Safe (unlock_body db sid fh w)
  unfolding unlock_body
  unlock_body-Safe sid fh w e = Passes-or Safe (db.handle_get w sid fh) fh_inval _ refl λ h _.
      Passes-if Safe (not (com_lock h)) _ _ (λ _. refl)
        λ _.
          Passes-or Safe (lock_del db w sid fh h.inum) lock_inval _ refl
            λ w' run. lock_del-AllExclusive db good t w w' sid fh h.inum e run

  transact-Safe :
      (body : db.World → Out (db.World × Told × Code)) (w : db.World)
      → ((v : db.World) → AllExclusive db v → Passes Safe (body v))
      → AllExclusive db w
      → AllExclusive db (transact db body w).world
  transact-Safe body w h e =
      elim (transact-Passes db body st Safe w
        (λ v begun. h v (λ k. rw (st.dups-begin w v k begun) (e k)))) [
          | inl (same, _) ↦ rw same e
          | inr (v, safe, done) ↦ λ k. rw (st.dups-commit v _ k done) (safe k)
        ]

  -- Whatever msg_lock answers, the locks that are held on every inode stay exclusive (an
  -- exclusive lock is held alone), where they were before, the store works as documented and its
  -- lock table does not fail.
  pub msg_lock-AllExclusive :
      (now : ℕ) (op : Op) (sid fh : ℕ) (shared : Bool) (w : db.World)
      → AllExclusive db w
      → AllExclusive db (msg_lock db now op sid fh shared w).world
  unfolding msg_lock
  msg_lock-AllExclusive now op sid fh shared w =
      transact-Safe (lock_body db now op sid fh shared) w (lock_body-Safe now op sid fh shared)

  -- Whatever msg_unlock answers, the locks that are held on every inode stay exclusive, where
  -- they were before, the store works as documented and its lock table does not fail.
  pub msg_unlock-AllExclusive :
      (sid fh : ℕ) (w : db.World)
      → AllExclusive db w
      → AllExclusive db (msg_unlock db sid fh w).world
  unfolding msg_unlock
  msg_unlock-AllExclusive sid fh w =
      transact-Safe (unlock_body db sid fh) w (unlock_body-Safe sid fh)
