-- ===== src/Cld/Db.antt =====
-- What cld/ uses of Berkeley DB: one transactional store of six tables, of which the code sees what
-- these calls return. A cursor's scan is the list of the duplicates of a key, in order; a call on
-- the current record names its place in that list.
use hail.Base.{ℕ, suc, ◌<◌, ◌≡◌, ◌≢◌, refl, List, [], ◌∷◌, ◌++◌, length, set, zero}
use hail.Cld.{RawLock, RawHandle, RawInode, RawSession}

-- The return codes other than 0.
pub data Rc : Type 0 where
  notfound keyexist : Rc
  other : ℕ → Rc

pub data Res {ℓ} (A : Type ℓ) : Type ℓ where
  ok : A → Res A
  fail : Rc → Res A

infixl 5 ◌>>=◌
abbrev pub ◌>>=◌ {ℓ κ} : {A : Type ℓ} {B : Type κ} → Res A → (A → Res B) → Res B
ok a >>= f = f a
fail rc >>= f = fail rc

pub record Db : Type 1 where
  pub World : Type 0
  pub txn_begin : World → Res World
  pub txn_commit : World → Res World
  -- the store after the abort of the transaction that began with this world, whatever it did
  pub txn_abort : World → World
  -- primary tables
  pub session_put : World → RawSession → Res World
  pub session_new : World → RawSession → Res World
  pub session_del : World → ℕ → Res World
  -- a cursor over the session table: its scan and how the scan ends
  pub sessions_cursor : World → Res (Unit {0})
  pub sessions_scan : World → List RawSession
  pub sessions_end : World → Rc
  pub handle_get : World → ℕ → ℕ → Res RawHandle
  pub handle_put : World → RawHandle → Res World
  pub handle_del : World → ℕ → ℕ → Res World
  pub inode_get : World → ℕ → Res RawInode
  pub inode_put : World → RawInode → Res World
  pub inode_del : World → ℕ → Res World
  pub data_get : World → ℕ → Res (List ℕ)
  pub data_put : World → ℕ → List ℕ → Res World
  pub data_del : World → ℕ → Res World
  -- secondary indices: inodes by name, handles by inode
  pub inode_get_byname : World → List ℕ → Res RawInode
  -- the handle table by a cursor from a session's first handle on: its scan, in the order of the
  -- keys, how the scan ends, and the deletion of the current record
  pub handles_cursor : World → Res (Unit {0})
  pub handles_close : World → Res (Unit {0})
  pub handles_from : World → ℕ → List RawHandle
  pub handles_end : World → Rc
  pub handle_cur_del : World → RawHandle → Res World
  pub handle_idx_cursor : World → Res (Unit {0})
  pub handle_idx_scan : World → ℕ → List RawHandle
  pub handle_idx_del : World → ℕ → Res World
  -- the lock table: a cursor, its scan and how the scan ends, and writes
  pub lock_cursor : World → Res (Unit {0})
  pub lock_close : World → Res (Unit {0})
  pub lock_dups : World → ℕ → List RawLock
  pub lock_end : World → ℕ → Rc
  pub lock_del_at : World → ℕ → ℕ → Res World
  pub lock_put_at : World → ℕ → ℕ → RawLock → Res World
  pub lock_put : World → ℕ → RawLock → Res World

abbrev pub remove_at {ℓ} : {A : Type ℓ} → List A → ℕ → List A
remove_at [] i = []
remove_at (x ∷ xs) zero = xs
remove_at (x ∷ xs) (suc i) = x ∷ remove_at xs i

-- What Berkeley DB documents of the lock table's calls, where they succeed.
pub record IsLockTable (db : Db) : Type 0 where
  pub dups-del_at :
      (w w' : db.World) (k i : ℕ)
      → db.lock_del_at w k i ≡ ok w'
      → db.lock_dups w' k ≡ remove_at (db.lock_dups w k) i
  pub dups-del_at_ne :
      (w w' : db.World) (k i j : ℕ)
      → db.lock_del_at w k i ≡ ok w'
      → k ≢ j
      → db.lock_dups w' j ≡ db.lock_dups w j
  pub dups-put_at :
      (w w' : db.World) (k i : ℕ) (l : RawLock)
      → db.lock_put_at w k i l ≡ ok w'
      → db.lock_dups w' k ≡ set (db.lock_dups w k) i l
  pub dups-put_at_ne :
      (w w' : db.World) (k i j : ℕ) (l : RawLock)
      → db.lock_put_at w k i l ≡ ok w'
      → k ≢ j
      → db.lock_dups w' j ≡ db.lock_dups w j
  pub dups-put :
      (w w' : db.World) (k : ℕ) (l : RawLock)
      → db.lock_put w k l ≡ ok w'
      → (a : List RawLock) × (b : List RawLock) × (db.lock_dups w k ≡ a ++ b)
        × (db.lock_dups w' k ≡ a ++ l ∷ b)
  pub dups-put_ne :
      (w w' : db.World) (k j : ℕ) (l : RawLock)
      → db.lock_put w k l ≡ ok w'
      → k ≢ j
      → db.lock_dups w' j ≡ db.lock_dups w j

-- What Berkeley DB documents of transactions and of the tables of handles, inodes and data: a
-- transaction starts from the store and commits what it did or takes it back, and a write is read back, under its
-- own key in its own table.
pub record IsStore (db : Db) : Type 0 where
  pub abort-begin : (w t : db.World) → db.txn_begin w ≡ ok t → db.txn_abort t ≡ w
  pub dups-begin :
      (w t : db.World) (k : ℕ) → db.txn_begin w ≡ ok t → db.lock_dups t k ≡ db.lock_dups w k
  pub dups-commit :
      (t w : db.World) (k : ℕ) → db.txn_commit t ≡ ok w → db.lock_dups w k ≡ db.lock_dups t k
  pub dups-cur_del :
      (w w' : db.World) (h : RawHandle) (k : ℕ)
      → db.handle_cur_del w h ≡ ok w'
      → db.lock_dups w' k ≡ db.lock_dups w k
  pub dups-session_del :
      (w w' : db.World) (sid k : ℕ)
      → db.session_del w sid ≡ ok w'
      → db.lock_dups w' k ≡ db.lock_dups w k
  pub handle-begin :
      (w t : db.World) (s f : ℕ) → db.txn_begin w ≡ ok t → db.handle_get t s f ≡ db.handle_get w s f
  pub handle-commit :
      (t w : db.World) (s f : ℕ)
      → db.txn_commit t ≡ ok w
      → db.handle_get w s f ≡ db.handle_get t s f
  pub inode-begin :
      (w t : db.World) (i : ℕ) → db.txn_begin w ≡ ok t → db.inode_get t i ≡ db.inode_get w i
  pub inode-commit :
      (t w : db.World) (i : ℕ) → db.txn_commit t ≡ ok w → db.inode_get w i ≡ db.inode_get t i
  pub data-begin :
      (w t : db.World) (i : ℕ) → db.txn_begin w ≡ ok t → db.data_get t i ≡ db.data_get w i
  pub data-commit :
      (t w : db.World) (i : ℕ) → db.txn_commit t ≡ ok w → db.data_get w i ≡ db.data_get t i
  pub byname-begin :
      (w t : db.World) (name : List ℕ)
      → db.txn_begin w ≡ ok t
      → db.inode_get_byname t name ≡ db.inode_get_byname w name
  pub inode_key : (w : db.World) (i : ℕ) (ino : RawInode) → db.inode_get w i ≡ ok ino → ino.inum ≡ i
  pub inode-put :
      (w w' : db.World) (ino : RawInode)
      → db.inode_put w ino ≡ ok w'
      → db.inode_get w' ino.inum ≡ ok ino
  pub handle-inode_put :
      (w w' : db.World) (ino : RawInode) (s f : ℕ)
      → db.inode_put w ino ≡ ok w'
      → db.handle_get w' s f ≡ db.handle_get w s f
  pub data-inode_put :
      (w w' : db.World) (ino : RawInode) (i : ℕ)
      → db.inode_put w ino ≡ ok w'
      → db.data_get w' i ≡ db.data_get w i
  pub data-put :
      (w w' : db.World) (i : ℕ) (bytes : List ℕ)
      → db.data_put w i bytes ≡ ok w'
      → db.data_get w' i ≡ ok bytes
  pub handle-put :
      (w w' : db.World) (h : RawHandle)
      → db.handle_put w h ≡ ok w'
      → db.handle_get w' h.sid h.fh ≡ ok h
  pub handle-session_put :
      (w w' : db.World) (sess : RawSession) (s f : ℕ)
      → db.session_put w sess ≡ ok w'
      → db.handle_get w' s f ≡ db.handle_get w s f
  pub handle-data_put :
      (w w' : db.World) (i : ℕ) (bytes : List ℕ) (s f : ℕ)
      → db.data_put w i bytes ≡ ok w'
      → db.handle_get w' s f ≡ db.handle_get w s f

-- A lock table that does not fail: cursors open and close, a scan ends by DB_NOTFOUND, and the
-- record at a place of the scan can be deleted.
pub record Serves (db : Db) : Type 0 where
  pub opens : (w : db.World) → db.lock_cursor w ≡ ok tt
  pub closes : (w : db.World) → db.lock_close w ≡ ok tt
  pub ends : (w : db.World) (k : ℕ) → db.lock_end w k ≡ notfound
  pub deletes :
      (w : db.World) (k i : ℕ)
      → i < length (db.lock_dups w k)
      → (w' : db.World) × (db.lock_del_at w k i ≡ ok w')

-- A handle table that does not fail: its cursor opens and closes, a scan ends by DB_NOTFOUND, and the
-- current record can be deleted.
pub record ServesHandles (db : Db) : Type 0 where
  pub opens : (w : db.World) → db.handles_cursor w ≡ ok tt
  pub closes : (w : db.World) → db.handles_close w ≡ ok tt
  pub ends : (w : db.World) → db.handles_end w ≡ notfound
  pub deletes : (w : db.World) (h : RawHandle) → (w' : db.World) × (db.handle_cur_del w h ≡ ok w')

pub remove_at_lem {ℓ} :
    {A : Type ℓ} (a : List A) (x : A) (b : List A) → remove_at (a ++ x ∷ b) (length a) ≡ a ++ b
remove_at_lem [] x b = refl
remove_at_lem (y ∷ a) x b = rw (remove_at_lem a x b) refl

pub set_lem {ℓ} :
    {A : Type ℓ} (a : List A) (x y : A) (b : List A) → set (a ++ x ∷ b) (length a) y ≡ a ++ y ∷ b
set_lem [] x y b = refl
set_lem (z ∷ a) x y b = rw (set_lem a x y b) refl
