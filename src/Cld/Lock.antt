-- ===== src/Cld/Lock.antt =====
-- The lock table of the file service: cldb_lock_find, cldb_lock_add and cldb_lock_del of cld/cldb.c,
-- session_remove_locks of cld/session.c and inode_lock_rescan of cld/msg.c.
pub mod Compare
pub mod Scan
pub mod Exclusion
pub mod Adding
pub mod Effects
pub mod Rescan
use hail.Base.{
  ℕ, zero, suc, ◌+◌, ◌-◌, Bool, true, false, not, ◌&&◌, ◌||◌, Option, none, some, List, [], ◌∷◌,
  ltb, ◌==◌, if◌then◌else◌,
}
use hail.Cld.{RawLock, has_bit, Msg, Event, event, locked}
use hail.Cld.Db.{Db, Rc, notfound, keyexist, Res, ok, fail, ◌>>=◌}

abbrev pub is_shared : RawLock → Bool
is_shared l = has_bit 0 l.flags

abbrev pub is_pending : RawLock → Bool
is_pending l = has_bit 1 l.flags

-- DB_NOTFOUND ends a scan well.
unfoldable pub scan_result {ℓ} : {A : Type ℓ} → Rc → A → Res A
scan_result notfound a = ok a
scan_result keyexist a = fail keyexist
scan_result (Rc.other n) a = fail (Rc.other n)

-- `fh` 0 stands for every handle of the session.
unfoldable pub lmatch : RawLock → ℕ → ℕ → Bool
lmatch l sid fh =
    if l.sid == sid then (if not (fh == 0) && not (l.fh == fh) then false else true) else false

-- Does this lock stand in the way of a new one?
unfoldable pub conflicts : Bool → RawLock → Bool
conflicts want_shared l =
    if is_pending l then false else (not want_shared || (want_shared && not (is_shared l)))

unfoldable pub any_conflict : Bool → List RawLock → Bool
unfolding conflicts
any_conflict want_shared [] = false
any_conflict want_shared (l ∷ ls) =
    let rest = any_conflict want_shared ls in if conflicts want_shared l then true else rest

unfoldable pub new_lock : ℕ → ℕ → ℕ → ℕ → Bool → Bool → RawLock
new_lock sid fh inum now shared pending = record {
  inum = inum;
  sid = sid;
  fh = fh;
  ctime = now;
  flags = (if shared then 1 else 0) + (if pending then 2 else 0);
}

-- What the server says of a session: it is gone, it has no socket yet, or it can be written to.
pub data Peer : Type 0 where
  gone unconnected connected : Peer

-- The end of a round of inode_lock_rescan: a session that is gone ends the loop, one without a
-- socket is passed over, and a message that cannot be queued ends the loop.
unfoldable pub tell :
    {W : Type 0} → Peer → Bool → ℕ → Msg → W → Res W × List (ℕ × Msg) → Res W × List (ℕ × Msg)
tell gone sent sid me w rest = (ok w, [])
tell unconnected sent sid me w rest = rest
tell connected false sid me w rest = (ok w, (sid, me) ∷ [])
tell connected true sid me w rest = (rest.0, (sid, me) ∷ rest.1)

module _ (db : Db) where
  -- 0 (`ok`) when a conflicting lock is held
  unfoldable pub lock_find : db.World → ℕ → Bool → Res (Unit {0})
  unfolding any_conflict
  lock_find w inum want_shared = db.lock_cursor w >>= λ _.
      if any_conflict want_shared (db.lock_dups w inum) then ok tt else fail (db.lock_end w inum)

  -- The tail of cldb_lock_add, for each answer of the search: the table, and whether the lock is held.
  unfoldable pub store_lock : db.World → ℕ → ℕ → ℕ → ℕ → Bool → Bool → Bool → Res (db.World × Bool)
  unfolding new_lock
  store_lock w sid fh inum now shared wait have_conflict =
      if not wait && have_conflict
      then fail keyexist
      else (db.lock_put w inum (new_lock sid fh inum now shared (wait && have_conflict)) >>= λ w'.
          ok (w', not have_conflict))

  unfoldable pub lock_add : db.World → ℕ → ℕ → ℕ → ℕ → Bool → Bool → Res (db.World × Bool)
  unfolding lock_find store_lock
  lock_add w sid fh inum now shared wait = elim (lock_find w inum shared) [
    | ok _ ↦ store_lock w sid fh inum now shared wait true
    | fail notfound ↦ store_lock w sid fh inum now shared wait false
    | fail rc ↦ fail rc
  ]

  -- The loop of cldb_lock_del from place `i` of the scan.
  pub del_loop : db.World → ℕ → ℕ → ℕ → List RawLock → ℕ → Res db.World
  del_loop w inum sid fh [] i = fail (db.lock_end w inum)
  del_loop w inum sid fh (l ∷ ls) i =
      let rest = del_loop w inum sid fh ls (i + 1) in
      if (l.sid == sid) && (fh == l.fh) then db.lock_del_at w inum i else rest

  pub lock_del : db.World → ℕ → ℕ → ℕ → Res db.World
  unfolding del_loop
  lock_del w sid fh inum = db.lock_cursor w >>= λ _. del_loop w inum sid fh (db.lock_dups w inum) 0

  -- The end of session_remove_locks, for the code that the loop broke off with, be it of the scan or
  -- of a deletion: DB_NOTFOUND counts as success.
  unfoldable pub close_scan : db.World → Rc → Bool → Res (db.World × Bool)
  unfolding scan_result
  close_scan w rc waiter = scan_result rc (w, waiter) >>= λ r. db.lock_close w >>= λ _. ok r

  -- The loop of session_remove_locks: it returns the table and whether somebody else waits.
  unfoldable pub remove_loop :
      db.World → ℕ → ℕ → ℕ → List RawLock → ℕ → Bool → Res (db.World × Bool)
  unfolding close_scan
  remove_loop w inum sid fh [] i waiter = close_scan w (db.lock_end w inum) waiter
  remove_loop w inum sid fh (l ∷ ls) i waiter = elim (lmatch l sid fh) [
    | false ↦ remove_loop w inum sid fh ls (i + 1) (if is_pending l then true else waiter)
    | true ↦ elim (db.lock_del_at w inum i) [
      | fail rc ↦ close_scan w rc waiter
      | ok w' ↦ remove_loop w' inum sid fh ls i waiter
    ]
  ]

  unfoldable pub remove_locks : db.World → ℕ → ℕ → ℕ → Res (db.World × Bool)
  unfolding remove_loop lmatch scan_result
  remove_locks w sid fh inum =
      db.lock_cursor w >>= λ _. remove_loop w inum sid fh (db.lock_dups w inum) 0 false

  -- The loop of inode_lock_rescan. The record that is put back is the one that was read: the
  -- source clears CLFL_PENDING in a copy of the flags. `peer` says what the session table knows of
  -- a session, `sends` what sess_sendmsg returns. The messages stand in order, also on an error.
  unfoldable pub rescan_loop :
      (ℕ → Peer)
      → (ℕ → Msg → Bool)
      → db.World
      → ℕ
      → List RawLock
      → ℕ
      → ℕ
      → Res db.World × List (ℕ × Msg)
  rescan_loop peer sends w inum [] i acq = (scan_result (db.lock_end w inum) w, [])
  rescan_loop peer sends w inum (l ∷ ls) i acq =
      if not (is_pending l)
      then (ok w, [])
      else (if ltb 0 acq && not (is_shared l)
          then (ok w, [])
          else elim (db.lock_put_at w inum i l) [
            | fail rc ↦ (fail rc, [])
            | ok w' ↦
                let me = event l.fh locked in
                tell (peer l.sid) (sends l.sid me) l.sid me w'
                  (rescan_loop peer sends w' inum ls (i + 1) (acq + 1))
          ])

  unfoldable pub lock_rescan :
      (ℕ → Peer) → (ℕ → Msg → Bool) → db.World → ℕ → Res db.World × List (ℕ × Msg)
  unfolding rescan_loop scan_result tell
  lock_rescan peer sends w inum = elim (db.lock_cursor w) [
    | fail rc ↦ (fail rc, [])
    | ok _ ↦ rescan_loop peer sends w inum (db.lock_dups w inum) 0 0
  ]
