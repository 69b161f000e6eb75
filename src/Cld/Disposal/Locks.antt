-- ===== src/Cld/Disposal/Locks.antt =====
-- What session_remove of cld/session.c leaves of the locks.
use hail.Base.{
  ℕ, ◌≡◌, refl, ◌∙◌, ap, Bool, true, false, not, ◌||◌, List, [], ◌∷◌, ◌==◌, if◌then◌else◌, inl, inr,
  Bool-cases, ==→eq, arith,
}
use hail.Cld.{RawLock, RawHandle, Msg}
use hail.Cld.Db.{Db, Res, ok, fail, IsLockTable, Serves, ServesHandles, IsStore}
use hail.Cld.Lock.{Peer, lmatch, scan_result, lock_rescan}
use hail.Cld.Lock.Scan.{others, any_pending}
use hail.Cld.Lock.Effects.{remove_locks-dups}
use hail.Cld.Lock.Rescan.{Res-cases, ok-inj, lock_rescan_same, lock_rescan_elsewhere}
use hail.Cld.Disposal.{
  lockable, remove_handles, remove_each, rescan_each, finish, after_locks, session_remove,
}

abbrev pub mem : ℕ → List ℕ → Bool
mem j [] = false
mem j (k ∷ ks) = (k == j) || mem j ks

-- The inodes that the session's handles may lock.
abbrev pub lock_inums : ℕ → List RawHandle → List ℕ
lock_inums sid [] = []
lock_inums sid (h ∷ hs) =
    if not (h.sid == sid)
    then []
    else (if lockable h then h.inum ∷ lock_inums sid hs else lock_inums sid hs)

others_idem : (sid fh : ℕ) (ls : List RawLock) → others sid fh (others sid fh ls) ≡ others sid fh ls
others_idem sid fh [] = refl
others_idem sid fh (l ∷ ls) = elim (Bool-cases (lmatch l sid fh)) [
  | inl mine ↦ rw (others, mine) (others_idem sid fh ls)
  | inr keep ↦ rw (others, keep, others, keep) (ap (◌∷◌ l) (others_idem sid fh ls))
]

combine :
    (sid k j : ℕ) (m : Bool) (at_k d0 d1 d2 : List RawLock)
    → d1 ≡ (if k == j then others sid 0 at_k else d0)
    → d2 ≡ (if m then others sid 0 d1 else d1)
    → (k ≡ j → at_k ≡ d0)
    → d2 ≡ (if (k == j) || m then others sid 0 d0 else d0)
combine sid k j m at_k d0 d1 d2 first second same = elim (Bool-cases (k == j)) [
  | inr differs ↦ rw differs (second ∙ rw (rw differs at first) refl)
  | inl hit ↦
      let here : d1 ≡ others sid 0 d0 =
        (rw hit at first) ∙ ap (others sid 0) (same (==→eq k j hit)) in
      rw hit (second ∙ by_rest m here)
]
  where
    by_rest :
        (m : Bool) → d1 ≡ others sid 0 d0 → (if m then others sid 0 d1 else d1) ≡ others sid 0 d0
    by_rest true here = ap (others sid 0) here ∙ others_idem sid 0 d0
    by_rest false here = here

module _ (db : Db) (t : IsLockTable db) (good : Serves db) where
  remove_each-dups :
      (w : db.World) (sid : ℕ) (ks : List ℕ)
      → (w' : db.World) × (waiters : List ℕ) × (remove_each db w sid ks ≡ ok (w', waiters))
        × ((j : ℕ)
            → db.lock_dups w' j
              ≡ (if mem j ks then others sid 0 (db.lock_dups w j) else db.lock_dups w j))
  unfolding remove_each
  remove_each-dups w sid [] = (w, [], refl, λ j. refl)
  remove_each-dups w sid (k ∷ ks) =
      let (w1, run, dups) = remove_locks-dups db t good w sid 0 k in
      let (w2, waiters, more, rest) = remove_each-dups w1 sid ks in
      (
        w2,
        if any_pending (others sid 0 (db.lock_dups w k)) then k ∷ waiters else waiters,
        rw (remove_each, run, more) refl,
        λ j.
            combine sid k j (mem j ks) (db.lock_dups w k) (db.lock_dups w j) (db.lock_dups w1 j)
              (db.lock_dups w2 j) (dups j) (rest j) (ap (db.lock_dups w)),
      )

module _ (db : Db) (t : IsLockTable db) (st : IsStore db) (good : Serves db)
    (hs_good : ServesHandles db) where
  remove_handles-lock_inums :
      (w : db.World) (sid : ℕ) (hs : List RawHandle)
      → (w' : db.World) × (remove_handles db w sid hs ≡ ok (w', lock_inums sid hs))
        × ((j : ℕ) → db.lock_dups w' j ≡ db.lock_dups w j)
  unfolding remove_handles scan_result
  remove_handles-lock_inums w sid [] = (w, rw (remove_handles, hs_good.ends w) refl, λ j. refl)
  remove_handles-lock_inums w sid (h ∷ hs) = elim (Bool-cases (h.sid == sid)) [
    | inr other ↦ (w, rw (remove_handles, other) refl, λ j. refl)
    | inl mine ↦
        let (w1, did) = hs_good.deletes w h in
        let (w2, run, same) = remove_handles-lock_inums w1 sid hs in
        (w2, rw (remove_handles, mine, did, run) refl, λ j. same j ∙ st.dups-cur_del w w1 h j did)
  ]

  module _ (peer : ℕ → Peer) (sends : ℕ → Msg → Bool) where
    lock_rescan-dups :
        (w w' : db.World) (k j : ℕ)
        → (lock_rescan db peer sends w k).0 ≡ ok w'
        → db.lock_dups w' j ≡ db.lock_dups w j
    lock_rescan-dups w w' k j h = elim (Bool-cases (k == j)) [
      | inl hit ↦ let e = ==→eq k j hit in rw (← e) (lock_rescan_same db t peer sends w w' k h)
      | inr miss ↦ lock_rescan_elsewhere db t peer sends w w' k j (ground (arith, miss)) h
    ]

    rescan_each-dups :
        (w w' : db.World) (ks : List ℕ) (j : ℕ)
        → (rescan_each db peer sends w ks).0 ≡ ok w'
        → db.lock_dups w' j ≡ db.lock_dups w j
    unfolding rescan_each
    rescan_each-dups w w' [] j h = let same : w ≡ w' = ok-inj h in rw same refl
    rescan_each-dups w w' (k ∷ ks) j h = elim (Res-cases (lock_rescan db peer sends w k).0) [
      | inl (rc, broke) ↦ cc (rw (rescan_each, broke) at h)
      | inr (v, run) ↦
          rescan_each-dups v w' ks j (rw (rescan_each, run) at h) ∙ lock_rescan-dups w v k j run
    ]

    finish-dups :
        (sid j : ℕ) (r : Res db.World × List (ℕ × Msg)) (w w' : db.World)
        → ((v : db.World) → r.0 ≡ ok v → db.lock_dups v j ≡ db.lock_dups w j)
        → (finish db sid r).0 ≡ ok w'
        → db.lock_dups w' j ≡ db.lock_dups w j
    unfolding finish
    finish-dups sid j (fail rc, told) w w' same h = cc
    finish-dups sid j (ok v, told) w w' same h = st.dups-session_del v w' sid j h ∙ same v refl

    -- When session_remove succeeds, the session has no lock left on any inode that one of its
    -- handles may lock, and all other locks are as they were: where the store works as documented
    -- and its lock and handle tables do not fail.
    pub session_remove-dups :
        (w w' : db.World) (sid : ℕ)
        → (session_remove db peer sends w sid).0 ≡ ok w'
        → (j : ℕ)
        → db.lock_dups w' j ≡ (
            if mem j (lock_inums sid (db.handles_from w sid))
            then others sid 0 (db.lock_dups w j)
            else db.lock_dups w j)
    unfolding session_remove after_locks
    session_remove-dups w w' sid h j =
        let ks = lock_inums sid (db.handles_from w sid) in
        let (w1, run, same) = remove_handles-lock_inums w sid (db.handles_from w sid) in
        let (w2, waiters, removed, dups) = remove_each-dups db t good w1 sid ks in
        let rest =
          finish-dups sid j (rescan_each db peer sends w2 waiters) w2 w'
            (λ v e. rescan_each-dups w2 v waiters j e)
            (rw (session_remove, hs_good.opens w, run, hs_good.closes w1, removed, after_locks) at
              h) in
        rest ∙ dups j ∙ rw (same j) refl
