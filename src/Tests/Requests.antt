-- ===== src/Tests/Requests.antt =====
-- Runs of the request handlers of cld/msg.c on a store in memory.
use hail.Base.{◌≡◌, refl, true, none, some, [], ◌∷◌, arith, ◌⊎◌, false}
use hail.Cld.{lock_op, get_op, RawHandle, RawInode, get_resp, RawSession, ok_code}
use hail.Cld.Dir.{dirdata_append}
use hail.Cld.Lock.Exclusion.{AllExclusive}
use hail.Cld.Requests.{
  transact, put_body, inode_notify, inode_touch, msg_lock, msg_unlock, msg_close, msg_put, msg_get,
}
use hail.Cld.Requests.Naming.{msg_open, msg_del}
use hail.Cld.Requests.Opening.{Handle, msg_open-Handle}
use hail.Cld.Requests.Deleting.{Removed, msg_del-Removed}
use hail.Cld.Requests.Atomic.{is_done}
use hail.Cld.Requests.Locking.{msg_lock-AllExclusive}
use hail.Cld.Requests.Unlocking.{Unlocked, msg_unlock-Unlocked}
use hail.Cld.Requests.Refusals.{Honest, requests-Honest}
use hail.Cld.Requests.PutGet.{with_size, msg_put-get}
use hail.Tests.Store.{Mem, mem_db, mem_db-IsLockTable, mem_db-Serves, mem_db-IsStore}
use hail.Tests.Locks.{two_locks, all_connected, all_sent}

-- Session 1 has handle 2 on inode 7, open for reading, writing and locking.
abbrev pub handle : RawHandle
handle = record { sid = 1; fh = 2; inum = 7; mode = 7; events = 0 }

abbrev inode : RawInode
inode = record {
  inum = 7;
  name = 47 ∷ 97 ∷ [];
  size = 0;
  version = 4;
  time_create = 50;
  time_modify = 60;
  flags = 0;
}

abbrev world : Mem
world = record {
  locks = λ k. two_locks;
  handles = λ s f. some handle;
  inodes = λ i. some inode;
  contents = λ i. none;
}

abbrev after_put : Mem
after_put = (msg_put mem_db all_connected all_sent 90 1 2 (11 ∷ 12 ∷ []) world).world

world-AllExclusive : AllExclusive mem_db world
world-AllExclusive k = ((refl, tt), (tt, tt))

msg_lock-AllExclusive_example :
    AllExclusive mem_db (msg_lock mem_db 200 lock_op 1 2 true world).world
msg_lock-AllExclusive_example =
    msg_lock-AllExclusive mem_db mem_db-Serves mem_db-IsLockTable mem_db-IsStore 200 lock_op 1 2
      true world world-AllExclusive

msg_unlock-Unlocked_example :
    Unlocked mem_db mem_db-IsLockTable mem_db-Serves mem_db-IsStore 1 2 world
      (msg_unlock mem_db 1 2 world)
msg_unlock-Unlocked_example =
    msg_unlock-Unlocked mem_db mem_db-IsLockTable mem_db-Serves mem_db-IsStore 1 2 world

requests-Honest_example :
    Honest mem_db all_connected all_sent mem_db-IsStore
      (msg_lock mem_db 200 lock_op 1 2 true world)
      world
    × Honest mem_db all_connected all_sent mem_db-IsStore (msg_unlock mem_db 1 2 world) world
    × Honest mem_db all_connected all_sent mem_db-IsStore
        (msg_close mem_db all_connected all_sent 1 2 world)
        world
    × Honest mem_db all_connected all_sent mem_db-IsStore
        (msg_put mem_db all_connected all_sent 200 1 2 (9 ∷ []) world)
        world
requests-Honest_example =
    requests-Honest mem_db all_connected all_sent mem_db-IsStore 200 1 2 lock_op true (9 ∷ []) world

msg_put-get_example :
    (msg_get mem_db get_op 33 1 2 after_put).1
    ≡ get_resp 33
        (with_size mem_db all_connected all_sent mem_db-IsStore 90 inode (11 ∷ 12 ∷ []))
        (11 ∷ 12 ∷ [])
unfolding msg_put transact put_body inode_touch inode_notify
msg_put-get_example =
    msg_put-get mem_db all_connected all_sent mem_db-IsStore 90 33 1 2 1 2 handle handle inode
      (11 ∷ 12 ∷ []) world after_put refl refl refl refl refl (omega arith) refl refl

abbrev raw_session : RawSession
raw_session = record {
  addr = 77;
  sid = 1;
  user = [];
  last_contact = 80;
  next_fh = 3;
  next_seqid_in = 5;
  next_seqid_out = 6;
}

-- The path "/a", opened for reading and writing.
msg_open-Handle_example :
    ((msg_open mem_db all_connected all_sent 90 raw_session (47 ∷ 97 ∷ []) 3 1 none world).code
        ≡ ok_code)
      × Handle mem_db all_connected all_sent 90 raw_session 3 1
          (msg_open mem_db all_connected all_sent 90 raw_session
            (47 ∷ 97 ∷ [])
            3
            1
            none
            world).world
    ⊎ (is_done
          (msg_open mem_db all_connected all_sent 90 raw_session (47 ∷ 97 ∷ []) 3 1 none world).code
        ≡ false)
      × ((msg_open mem_db all_connected all_sent 90 raw_session (47 ∷ 97 ∷ []) 3 1 none world).world
          ≡ world)
msg_open-Handle_example =
    msg_open-Handle mem_db all_connected all_sent 90 mem_db-IsStore raw_session 3 1 (47 ∷ 97 ∷ [])
      none world

-- A directory with the entry "a".
abbrev directory : Mem
directory = record world { contents = λ i. some (dirdata_append [] (97 ∷ [])) }

msg_del-Removed_example :
    ((msg_del mem_db all_connected all_sent 90 (47 ∷ 97 ∷ []) directory).code ≡ ok_code)
      × Removed mem_db all_connected all_sent 90 mem_db-IsStore
          (47 ∷ 97 ∷ [])
          directory
          (msg_del mem_db all_connected all_sent 90 (47 ∷ 97 ∷ []) directory).world
    ⊎ (is_done (msg_del mem_db all_connected all_sent 90 (47 ∷ 97 ∷ []) directory).code ≡ false)
      × ((msg_del mem_db all_connected all_sent 90 (47 ∷ 97 ∷ []) directory).world ≡ directory)
msg_del-Removed_example =
    msg_del-Removed mem_db all_connected all_sent 90 mem_db-IsStore (47 ∷ 97 ∷ []) directory
