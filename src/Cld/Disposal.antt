-- ===== src/Cld/Disposal.antt =====
-- The end of a session: session_remove of cld/session.c over the handles and the locks.
pub mod Locks
use hail.Base.{ℕ, ◌/◌, ◌%◌, ◌^◌, Bool, true, false, not, List, [], ◌∷◌, ◌++◌, ◌==◌, if◌then◌else◌}
use hail.Cld.{RawHandle, has_bit, Msg}
use hail.Cld.Db.{Db, Rc, Res, ok, fail, ◌>>=◌}
use hail.Cld.Lock.{Peer, scan_result, remove_locks, lock_rescan}

abbrev pub lockable : RawHandle → Bool
lockable h = has_bit 2 h.mode

module _ (db : Db) where
  -- The loop over the handles, which ends at the first one of another session: the store, and the
  -- inodes of the handles that may lock. DB_NOTFOUND ends it well, also from a deletion.
  unfoldable pub remove_handles : db.World → ℕ → List RawHandle → Res (db.World × List ℕ)
  unfolding scan_result
  remove_handles w sid [] = scan_result (db.handles_end w) (w, [])
  remove_handles w sid (h ∷ hs) =
      if not (h.sid == sid) then ok (w, []) else elim (db.handle_cur_del w h) [
        | fail rc ↦ scan_result rc (w, if lockable h then h.inum ∷ [] else [])
        | ok w' ↦
            remove_handles w' sid hs >>= λ r. ok (r.0, if lockable h then h.inum ∷ r.1 else r.1)
      ]

  -- The locks of the session on each inode; the inodes that somebody else waits for.
  unfoldable pub remove_each : db.World → ℕ → List ℕ → Res (db.World × List ℕ)
  remove_each w sid [] = ok (w, [])
  remove_each w sid (k ∷ ks) = remove_locks db w sid 0 k >>= λ r.
      remove_each r.0 sid ks >>= λ q. ok (q.0, if r.1 then k ∷ q.1 else q.1)

  unfoldable pub rescan_each :
      (ℕ → Peer) → (ℕ → Msg → Bool) → db.World → List ℕ → Res db.World × List (ℕ × Msg)
  rescan_each peer sends w [] = (ok w, [])
  rescan_each peer sends w (k ∷ ks) =
      let (r, told) = lock_rescan db peer sends w k in
      elim r [
        | fail rc ↦ (fail rc, told)
        | ok w' ↦ let (q, more) = rescan_each peer sends w' ks in (q, told ++ more)
      ]

  -- The session is deleted last.
  unfoldable pub finish : ℕ → Res db.World × List (ℕ × Msg) → Res db.World × List (ℕ × Msg)
  finish sid (r, told) = (r >>= λ w. db.session_del w sid, told)

  unfoldable pub after_locks :
      (ℕ → Peer) → (ℕ → Msg → Bool) → ℕ → Res (db.World × List ℕ) → Res db.World × List (ℕ × Msg)
  unfolding rescan_each finish
  after_locks peer sends sid (fail rc) = (fail rc, [])
  after_locks peer sends sid (ok (w, waiters)) = finish sid (rescan_each peer sends w waiters)

  unfoldable pub session_remove :
      (ℕ → Peer) → (ℕ → Msg → Bool) → db.World → ℕ → Res db.World × List (ℕ × Msg)
  unfolding remove_handles remove_each after_locks
  session_remove peer sends w sid = after_locks peer sends sid (
      db.handles_cursor w >>= λ _. remove_handles w sid (db.handles_from w sid) >>= λ r.
      db.handles_close r.0 >>= λ _. remove_each r.0 sid r.1)
