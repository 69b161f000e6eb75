-- ===== src/Cld/Lock/Scan.antt =====
-- The scans of session_remove_locks and cldb_lock_del against list operations on the duplicates.
use hail.Base.{
  ℕ, ◌+◌, ◌<◌, ◌≡◌, ◌≢◌, refl, sym, ◌∙◌, ap, Bool, true, false, ◌&&◌, ◌||◌, List, [], ◌∷◌, ◌++◌,
  append_assoc, arith, length, length-append, if◌then◌else◌, ◌==◌, inl, inr, Bool-cases,
}
use hail.Cld.{RawLock}
use hail.Cld.Db.{Db, notfound, ok, fail, IsLockTable, Serves, remove_at_lem}
use hail.Cld.Lock.{is_pending, lmatch, scan_result, remove_loop, remove_locks, del_loop, lock_del}

-- The locks that are not the session's (and handle's).
abbrev pub others : ℕ → ℕ → List RawLock → List RawLock
others sid fh [] = []
others sid fh (l ∷ ls) = if lmatch l sid fh then others sid fh ls else l ∷ others sid fh ls

abbrev pub any_pending : List RawLock → Bool
any_pending [] = false
any_pending (l ∷ ls) = is_pending l || any_pending ls

-- Whether this session and handle have a lock, and the list without the first of these.
abbrev pub has_lock : ℕ → ℕ → List RawLock → Bool
has_lock sid fh [] = false
has_lock sid fh (l ∷ ls) = ((l.sid == sid) && (fh == l.fh)) || has_lock sid fh ls

abbrev pub without_first : ℕ → ℕ → List RawLock → List RawLock
without_first sid fh [] = []
without_first sid fh (l ∷ ls) =
    if (l.sid == sid) && (fh == l.fh) then ls else l ∷ without_first sid fh ls

del_loop-none :
    (db : Db) (w : db.World) (inum sid fh : ℕ) (ls : List RawLock) (i : ℕ)
    → has_lock sid fh ls ≡ false
    → del_loop db w inum sid fh ls i ≡ fail (db.lock_end w inum)
unfolding del_loop
del_loop-none db w inum sid fh [] i h = refl
del_loop-none db w inum sid fh (l ∷ ls) i h = elim (Bool-cases ((l.sid == sid) && (fh == l.fh))) [
  | inl mine ↦ cc (rw mine at h)
  | inr other_lock ↦
      rw (other_lock, del_loop-none db w inum sid fh ls (i + 1) (rw other_lock at h)) refl
]

module _ (db : Db) (t : IsLockTable db) (good : Serves db) where
  remove_loop_lem :
      (w : db.World) (inum sid fh : ℕ) (pre ls : List RawLock) (i : ℕ) (waiter : Bool)
      → db.lock_dups w inum ≡ pre ++ ls
      → i ≡ length pre
      → (w' : db.World) × (remove_loop db w inum sid fh ls i waiter
          ≡ ok (w', waiter || any_pending (others sid fh ls)))
        × (db.lock_dups w' inum ≡ pre ++ others sid fh ls)
        × ((j : ℕ) → inum ≢ j → db.lock_dups w' j ≡ db.lock_dups w j)
  unfolding remove_loop scan_result
  remove_loop_lem w inum sid fh pre [] i waiter e n =
      (w, rw (good.ends w inum, good.closes w) (ground arith), e, λ j ne. refl)
  remove_loop_lem w inum sid fh pre (l ∷ ls) i waiter e n = elim (Bool-cases (lmatch l sid fh)) [
    | inr keep ↦
        let (w', run, mine, rest) =
          remove_loop_lem w inum sid fh (pre ++ l ∷ []) ls (i + 1)
            (if is_pending l then true else waiter) (e ∙ sym (append_assoc pre (l ∷ []) ls))
            (omega (arith, length-append pre (l ∷ []))) in
        (
          w',
          rw (keep, remove_loop, run) (ground arith),
          rw keep (mine ∙ append_assoc pre (l ∷ []) (others sid fh ls)),
          rest,
        )
    | inl mine ↦
        let inside : i < length (db.lock_dups w inum) =
          omega (arith, ap length e, length-append pre (l ∷ ls)) in
        let (v, did) = good.deletes w inum i inside in
        let left = t.dups-del_at w v inum i did ∙ rw (e, n) (remove_at_lem pre l ls) in
        let (w', run, gone, rest) = remove_loop_lem v inum sid fh pre ls i waiter left n in
        (
          w',
          rw (mine, remove_loop, did, run) refl,
          rw mine gone,
          λ j ne. rest j ne ∙ t.dups-del_at_ne w v inum i j did ne,
        )
  ]

  -- Where the table does not fail, session_remove_locks takes exactly the locks of the session (and
  -- of the handle, unless that is 0) off the inode, in place, touches no other inode, and reports
  -- whether a lock that is left is pending.
  pub remove_locks-others :
      (w : db.World) (sid fh inum : ℕ)
      → (w' : db.World) × (remove_locks db w sid fh inum
          ≡ ok (w', any_pending (others sid fh (db.lock_dups w inum))))
        × (db.lock_dups w' inum ≡ others sid fh (db.lock_dups w inum))
        × ((j : ℕ) → inum ≢ j → db.lock_dups w' j ≡ db.lock_dups w j)
  unfolding remove_locks
  remove_locks-others w sid fh inum =
      let (w', run, mine, rest) =
        remove_loop_lem w inum sid fh [] (db.lock_dups w inum) 0 false refl refl in
      (w', rw (good.opens w) run, mine, rest)

  del_loop_lem :
      (w : db.World) (inum sid fh : ℕ) (pre ls : List RawLock) (i : ℕ)
      → db.lock_dups w inum ≡ pre ++ ls
      → i ≡ length pre
      → has_lock sid fh ls ≡ true
      → (w' : db.World) × (del_loop db w inum sid fh ls i ≡ ok w')
        × (db.lock_dups w' inum ≡ pre ++ without_first sid fh ls)
        × ((j : ℕ) → inum ≢ j → db.lock_dups w' j ≡ db.lock_dups w j)
  unfolding del_loop
  del_loop_lem w inum sid fh pre [] i e n h = cc
  del_loop_lem w inum sid fh pre (l ∷ ls) i e n h =
      elim (Bool-cases ((l.sid == sid) && (fh == l.fh))) [
        | inr keep ↦
            let (w', run, mine, rest) =
              del_loop_lem w inum sid fh (pre ++ l ∷ []) ls (i + 1)
                (e ∙ sym (append_assoc pre (l ∷ []) ls)) (omega (arith, length-append pre (l ∷ [])))
                (rw keep at h) in
            (
              w',
              rw keep run,
              rw keep (mine ∙ append_assoc pre (l ∷ []) (without_first sid fh ls)),
              rest,
            )
        | inl mine ↦
            let inside : i < length (db.lock_dups w inum) =
              omega (arith, ap length e, length-append pre (l ∷ ls)) in
            let (v, did) = good.deletes w inum i inside in
            (
              v,
              rw mine did,
              t.dups-del_at w v inum i did ∙ rw (e, n, mine) (remove_at_lem pre l ls),
              λ j ne. t.dups-del_at_ne w v inum i j did ne,
            )
      ]

  -- cldb_lock_del deletes the first lock of the session and the handle, and nothing else.
  pub lock_del-without_first :
      (w : db.World) (sid fh inum : ℕ)
      → has_lock sid fh (db.lock_dups w inum) ≡ true
      → (w' : db.World) × (lock_del db w sid fh inum ≡ ok w')
        × (db.lock_dups w' inum ≡ without_first sid fh (db.lock_dups w inum))
        × ((j : ℕ) → inum ≢ j → db.lock_dups w' j ≡ db.lock_dups w j)
  unfolding lock_del
  lock_del-without_first w sid fh inum h =
      let (w', run, mine, rest) =
        del_loop_lem w inum sid fh [] (db.lock_dups w inum) 0 refl refl h in
      (w', rw (good.opens w) run, mine, rest)

  -- Without such a lock it fails with what ends the scan.
  pub lock_del-none :
      (w : db.World) (sid fh inum : ℕ)
      → has_lock sid fh (db.lock_dups w inum) ≡ false
      → lock_del db w sid fh inum ≡ fail notfound
  unfolding lock_del
  lock_del-none w sid fh inum h =
      rw (good.opens w)
        (del_loop-none db w inum sid fh (db.lock_dups w inum) 0 h ∙ ap fail (good.ends w inum))
