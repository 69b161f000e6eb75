-- ===== src/Tests/Disposals.antt =====
-- A run of the end of a session, cld/session.c.
use hail.Base.{◌≡◌, refl, [], ◌∷◌, some, none, if◌then◌else◌}
use hail.Cld.Db.{remove_at}
use hail.Cld.Lock.{lmatch, scan_result, close_scan, remove_loop, remove_locks}
use hail.Cld.Lock.Scan.{others}
use hail.Cld.Disposal.{
  remove_handles, remove_each, rescan_each, finish, after_locks, session_remove,
}
use hail.Cld.Disposal.Locks.{mem, lock_inums, session_remove-dups}
use hail.Tests.Store.{
  Mem, write, mem_db, mem_db-IsLockTable, mem_db-Serves, mem_db-ServesHandles, mem_db-IsStore,
}
use hail.Tests.Locks.{lock_of, all_connected, all_sent}
use hail.Tests.Requests.{handle}

-- Session 1 has one handle, which may lock inode 7, and a lock.
abbrev before : Mem
before = record {
  locks = λ k. lock_of 1 2 1 ∷ [];
  handles = λ s f. some handle;
  inodes = λ i. none;
  contents = λ i. none;
}

abbrev after : Mem
after = record before {
  locks = write before.locks 7 (remove_at (before.locks 7) 0);
  handles = write before.handles 1 (write (before.handles 1) 2 none);
}

session_remove-dups_example :
    after.locks 7
    ≡ (if mem 7 (lock_inums 1 (handle ∷ [])) then others 1 0 (before.locks 7) else before.locks 7)
unfolding session_remove remove_handles remove_each rescan_each finish after_locks remove_locks
    remove_loop close_scan scan_result lmatch
session_remove-dups_example =
    session_remove-dups mem_db mem_db-IsLockTable mem_db-IsStore mem_db-Serves mem_db-ServesHandles
      all_connected all_sent before after 1 refl 7
