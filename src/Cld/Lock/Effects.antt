-- ===== src/Cld/Lock/Effects.antt =====
-- What cldb_lock_del and session_remove_locks leave on every inode.
use hail.Base.{
  ℕ, ◌≡◌, ◌≢◌, refl, true, false, ◌==◌, ==→eq, if◌then◌else◌, inl, inr, Bool-cases, arith,
}
use hail.Cld.Db.{Db, notfound, Res, ok, fail, IsLockTable, Serves}
use hail.Cld.Lock.{remove_locks, lock_del}
use hail.Cld.Lock.Scan.{
  others, any_pending, has_lock, without_first, remove_locks-others, lock_del-without_first,
  lock_del-none,
}

everywhere :
    {A : Type 0} (f f' : ℕ → A) (k : ℕ) (a : A)
    → f' k ≡ a
    → ((j : ℕ) → k ≢ j → f' j ≡ f j)
    → (j : ℕ) → f' j ≡ (if k == j then a else f j)
everywhere f f' k a here there j = elim (Bool-cases (k == j)) [
  | inl hit ↦ let e = ==→eq k j hit in rw (hit, ← e) here
  | inr miss ↦ rw miss (there j (ground (arith, miss)))
]

module _ (db : Db) (t : IsLockTable db) (good : Serves db) where
  -- Where the lock table works as documented and does not fail, session_remove_locks succeeds,
  -- takes exactly the locks of the session (and of the handle, unless that is 0) off the inode
  -- and changes no other inode, and it reports whether a lock that is left is pending.
  pub remove_locks-dups :
      (w : db.World) (sid fh inum : ℕ)
      → (w' : db.World) × (remove_locks db w sid fh inum
          ≡ ok (w', any_pending (others sid fh (db.lock_dups w inum))))
        × ((j : ℕ)
            → db.lock_dups w' j
              ≡ (if inum == j then others sid fh (db.lock_dups w inum) else db.lock_dups w j))
  remove_locks-dups w sid fh inum =
      let (w', run, here, there) = remove_locks-others db t good w sid fh inum in
      (
        w',
        run,
        everywhere (db.lock_dups w) (db.lock_dups w') inum (others sid fh (db.lock_dups w inum))
            here there,
      )

  abbrev pub Deleted : db.World → ℕ → ℕ → ℕ → Res db.World → Type 0
  Deleted w sid fh inum (ok w') =
      (has_lock sid fh (db.lock_dups w inum) ≡ true)
      × ((j : ℕ)
          → db.lock_dups w' j
            ≡ (if inum == j then without_first sid fh (db.lock_dups w inum) else db.lock_dups w j))
  Deleted w sid fh inum (fail rc) =
      (has_lock sid fh (db.lock_dups w inum) ≡ false) × (rc ≡ notfound)

  -- Where the lock table works as documented and does not fail, cldb_lock_del takes the first
  -- lock of the session and the handle off the inode and changes nothing else, and it answers
  -- DB_NOTFOUND where there is no such lock.
  pub lock_del-Deleted :
      (w : db.World) (sid fh inum : ℕ) → Deleted w sid fh inum (lock_del db w sid fh inum)
  lock_del-Deleted w sid fh inum = elim (Bool-cases (has_lock sid fh (db.lock_dups w inum))) [
    | inr free ↦ rw (lock_del-none db t good w sid fh inum free) (free, refl)
    | inl mine ↦
        let (w', run, here, there) = lock_del-without_first db t good w sid fh inum mine in
        rw run (
          mine,
          everywhere (db.lock_dups w) (db.lock_dups w') inum
              (without_first sid fh (db.lock_dups w inum)) here there,
        )
  ]
