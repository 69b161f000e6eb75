-- ===== src/Tests/Locks.antt =====
-- Runs of the lock table of cld/ on a store in memory.
use hail.Base.{
  All, ◌⊎◌, ℕ, ◌≡◌, refl, Bool, true, false, none, List, [], ◌∷◌, ◌++◌, arith, ◌==◌, if◌then◌else◌,
}
use hail.Cld.{RawLock, Msg, event, locked}
use hail.Cld.Db.{ok, fail, keyexist}
use hail.Cld.Lock.{Peer, connected, new_lock, lock_add, lock_del, remove_locks, lock_rescan}
use hail.Cld.Lock.Compare.{lock_compare, lex_compare, lock_compare-lex}
use hail.Cld.Lock.Scan.{others, any_pending}
use hail.Cld.Lock.Effects.{remove_locks-dups, Deleted, lock_del-Deleted}
use hail.Cld.Lock.Exclusion.{Exclusive, answer}
use hail.Cld.Lock.Adding.{Beside, Blocked, Written, lock_add-Written}
use hail.Cld.Lock.Rescan.{told_not_held}
use hail.Tests.Store.{Mem, write, mem_db, mem_db-IsLockTable, mem_db-Serves}

abbrev pub lock_of : ℕ → ℕ → ℕ → RawLock
lock_of sid fh flags = record { inum = 7; sid = sid; fh = fh; ctime = 100; flags = flags }

-- A shared lock that is held, and an exclusive one that waits.
abbrev pub two_locks : List RawLock
two_locks = lock_of 1 2 1 ∷ lock_of 3 4 2 ∷ []

abbrev store_with : List RawLock → Mem
store_with ls = record {
  locks = λ k. ls;
  handles = λ s f. none;
  inodes = λ i. none;
  contents = λ i. none;
}

abbrev pub all_connected : ℕ → Peer
all_connected s = connected

abbrev pub all_sent : ℕ → Msg → Bool
all_sent s m = true

lock_compare-lex_example :
    lock_compare (lock_of 1 2 1) (lock_of 3 4 2) ≡ lex_compare (lock_of 1 2 1) (lock_of 3 4 2)
lock_compare-lex_example =
    lock_compare-lex (lock_of 1 2 1) (lock_of 3 4 2)
      (omega arith, omega arith, omega arith, omega arith)
      (omega arith, omega arith, omega arith, omega arith)
      (omega arith, omega arith, omega arith, omega arith)

remove_locks-dups_example :
    (w' : Mem) × (remove_locks mem_db (store_with two_locks) 1 2 7
      ≡ ok (w', any_pending (others 1 2 two_locks)))
    × ((j : ℕ) → w'.locks j ≡ (if 7 == j then others 1 2 two_locks else two_locks))
remove_locks-dups_example =
    remove_locks-dups mem_db mem_db-IsLockTable mem_db-Serves (store_with two_locks) 1 2 7

lock_del-Deleted_example :
    Deleted mem_db mem_db-IsLockTable mem_db-Serves
      (store_with two_locks)
      3
      4
      7
      (lock_del mem_db (store_with two_locks) 3 4 7)
lock_del-Deleted_example =
    lock_del-Deleted mem_db mem_db-IsLockTable mem_db-Serves (store_with two_locks) 3 4 7

lock_add-Written_example :
    let r = lock_add mem_db (store_with two_locks) 5 6 7 200 false true in
    (All (Beside false) two_locks × Written mem_db (store_with two_locks) 5 6 7 200 false false r)
    ⊎ (Blocked false two_locks
        × (((true ≡ true) × Written mem_db (store_with two_locks) 5 6 7 200 false true r)
            ⊎ ((true ≡ false) × (r ≡ fail keyexist))))
lock_add-Written_example =
    lock_add-Written mem_db mem_db-Serves (store_with two_locks) 5 6 7 200 false true

-- What is there after session 5 has taken a shared lock too.
abbrev three_locks : Mem
three_locks = record (store_with two_locks) {
  locks = write (λ j. two_locks) 7 (two_locks ++ new_lock 5 6 7 200 true false ∷ []);
}

two_locks-Exclusive : Exclusive two_locks
two_locks-Exclusive = ((refl, tt), (tt, tt))

abbrev waiting : List RawLock
waiting = lock_of 3 4 2 ∷ []

abbrev rescanned : Mem
rescanned = record (store_with waiting) { locks = write (λ j. waiting) 7 waiting }

told_not_held_example :
    (lock_rescan mem_db all_connected all_sent (store_with waiting) 7
      ≡ (ok rescanned, (3, event 4 locked) ∷ []))
    × ((sid fh now : ℕ) (shared : Bool)
        → lock_add mem_db rescanned sid fh 7 now shared false
          ≡ answer false (mem_db.lock_put rescanned 7 (new_lock sid fh 7 now shared false)) true)
told_not_held_example =
    told_not_held mem_db mem_db-IsLockTable all_connected all_sent mem_db-Serves
      (store_with waiting) rescanned 7 (lock_of 3 4 2) refl refl refl refl refl
