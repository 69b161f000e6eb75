-- ===== src/Cld/Lock/Rescan.antt =====
-- inode_lock_rescan of cld/msg.c: what it tells the waiters and what it leaves in the lock table.
use hail.Base.{
  ◌≢◌, ℕ, ◌+◌, ◌≡◌, ◌⊎◌, refl, sym, ◌∙◌, Bool, true, false, not, ◌&&◌, List, [], ◌∷◌, ◌++◌, arith,
  length, length-append, append_assoc, ltb, inl, inr, Bool-cases,
}
use hail.Cld.{RawLock, Msg, event, locked}
use hail.Cld.Db.{Db, Rc, Res, ok, fail, IsLockTable, Serves, set_lem}
use hail.Cld.Lock.{
  is_shared, is_pending, any_conflict, scan_result, tell, Peer, gone, unconnected, connected,
  new_lock, lock_add, rescan_loop, lock_rescan,
}
use hail.Cld.Lock.Exclusion.{answer, lock_add_lem}

pub ok-inj : {W : Type 0} {w w' : W} → ok w ≡ ok w' → w ≡ w'
ok-inj h = cc

scan_result-inv : {W : Type 0} (rc : Rc) (w w' : W) → scan_result rc w ≡ ok w' → w ≡ w'
unfolding scan_result
scan_result-inv rc w w' h = ground arith

pub Res-cases : {W : Type 0} (r : Res W) → ((rc : Rc) × (r ≡ fail rc)) ⊎ ((w : W) × (r ≡ ok w))
Res-cases (fail rc) = inl (rc, refl)
Res-cases (ok w) = inr (w, refl)

tell-ok :
    {W : Type 0} (p : Peer) (sent : Bool) (sid : ℕ) (me : Msg) (w : W)
    → (rest : Res W × List (ℕ × Msg)) (w' : W) → (tell p sent sid me w rest).0 ≡ ok w'
    → (w ≡ w') ⊎ (rest.0 ≡ ok w')
unfolding tell
tell-ok gone sent sid me w rest w' h = inl (ok-inj h)
tell-ok unconnected sent sid me w rest w' h = inr h
tell-ok connected false sid me w rest w' h = inl (ok-inj h)
tell-ok connected true sid me w rest w' h = inr h

pending_alone :
    (shared : Bool) (l : RawLock) → is_pending l ≡ true → any_conflict shared (l ∷ []) ≡ false
unfolding any_conflict
pending_alone shared l waits = rw waits refl

module _ (db : Db) (t : IsLockTable db) (peer : ℕ → Peer) (sends : ℕ → Msg → Bool) where
  rescan_loop_same :
      (w w' : db.World) (inum : ℕ) (pre ls : List RawLock) (i acq : ℕ)
      → db.lock_dups w inum ≡ pre ++ ls
      → i ≡ length pre
      → (rescan_loop db peer sends w inum ls i acq).0 ≡ ok w'
      → db.lock_dups w' inum ≡ pre ++ ls
  unfolding rescan_loop
  rescan_loop_same w w' inum pre [] i acq e n h =
      let same : w ≡ w' = scan_result-inv (db.lock_end w inum) w w' h in rw (← same) e
  rescan_loop_same w w' inum pre (l ∷ ls) i acq e n h = elim (Bool-cases (is_pending l)) [
    | inr held ↦ let same : w ≡ w' = ok-inj (rw held at h) in rw (← same) e
    | inl waits ↦ elim (Bool-cases (ltb 0 acq && not (is_shared l))) [
      | inl stops ↦ let same : w ≡ w' = ok-inj (rw (waits, stops) at h) in rw (← same) e
      | inr goes ↦ elim (Res-cases (db.lock_put_at w inum i l)) [
        | inl (rc, broke) ↦ cc (rw (waits, goes, broke) at h)
        | inr (v, did) ↦
            let kept : db.lock_dups v inum ≡ pre ++ l ∷ ls =
              t.dups-put_at w v inum i l did ∙ rw (e, n) (set_lem pre l l ls) in
            elim (tell-ok (peer l.sid) (sends l.sid _) l.sid _ v _ w'
              (rw (waits, goes, did) at h)) [
                | inl same ↦ rw (← same) kept
                | inr later ↦
                    rescan_loop_same v w' inum (pre ++ l ∷ []) ls (i + 1) (acq + 1)
                      (kept ∙ sym (append_assoc pre (l ∷ []) ls))
                      (omega (arith, length-append pre (l ∷ []))) later
                    ∙ append_assoc pre (l ∷ []) ls
              ]
      ]
    ]
  ]

  rescan_loop_elsewhere :
      (w w' : db.World) (inum j : ℕ) (ls : List RawLock) (i acq : ℕ)
      → inum ≢ j
      → (rescan_loop db peer sends w inum ls i acq).0 ≡ ok w'
      → db.lock_dups w' j ≡ db.lock_dups w j
  unfolding rescan_loop
  rescan_loop_elsewhere w w' inum j [] i acq ne h =
      let same : w ≡ w' = scan_result-inv (db.lock_end w inum) w w' h in rw same refl
  rescan_loop_elsewhere w w' inum j (l ∷ ls) i acq ne h = elim (Bool-cases (is_pending l)) [
    | inr held ↦ let same : w ≡ w' = ok-inj (rw held at h) in rw same refl
    | inl waits ↦ elim (Bool-cases (ltb 0 acq && not (is_shared l))) [
      | inl stops ↦ let same : w ≡ w' = ok-inj (rw (waits, stops) at h) in rw same refl
      | inr goes ↦ elim (Res-cases (db.lock_put_at w inum i l)) [
        | inl (rc, broke) ↦ cc (rw (waits, goes, broke) at h)
        | inr (v, did) ↦
            let kept = t.dups-put_at_ne w v inum i j l did ne in
            elim (tell-ok (peer l.sid) (sends l.sid _) l.sid _ v _ w'
              (rw (waits, goes, did) at h)) [
                | inl same ↦ rw (← same) kept
                | inr later ↦ rescan_loop_elsewhere v w' inum j ls (i + 1) (acq + 1) ne later ∙ kept
              ]
      ]
    ]
  ]

  pub lock_rescan_elsewhere :
      (w w' : db.World) (inum j : ℕ)
      → inum ≢ j
      → (lock_rescan db peer sends w inum).0 ≡ ok w'
      → db.lock_dups w' j ≡ db.lock_dups w j
  unfolding lock_rescan
  lock_rescan_elsewhere w w' inum j ne h = elim (Res-cases (db.lock_cursor w)) [
    | inl (rc, broke) ↦ cc (rw (broke, lock_rescan) at h)
    | inr (_, opens) ↦
        rescan_loop_elsewhere w w' inum j (db.lock_dups w inum) 0 0 ne
          (rw (opens, lock_rescan) at h)
  ]

  -- A rescan that succeeds on a table that works as documented leaves the locks of the inode as
  -- they were, so that what was pending stays pending.
  pub lock_rescan_same :
      (w w' : db.World) (inum : ℕ)
      → (lock_rescan db peer sends w inum).0 ≡ ok w'
      → db.lock_dups w' inum ≡ db.lock_dups w inum
  unfolding lock_rescan
  lock_rescan_same w w' inum h = elim (Res-cases (db.lock_cursor w)) [
    | inl (rc, broke) ↦ cc (rw (broke, lock_rescan) at h)
    | inr (_, opened) ↦
        rescan_loop_same w w' inum [] (db.lock_dups w inum) 0 0 refl refl
          (rw (opened, lock_rescan) at h)
  ]

  -- After a rescan of an inode with one waiting lock, whose session is connected and can be
  -- written to, and whose record can be rewritten, the session was told that it holds the lock,
  -- and yet a trylock of any session on the inode, shared or exclusive, is stored as acquired.
  pub told_not_held :
      Serves db
      → (w v : db.World) (inum : ℕ) (l : RawLock) → db.lock_dups w inum ≡ l ∷ []
      → is_pending l ≡ true
      → db.lock_put_at w inum 0 l ≡ ok v
      → peer l.sid ≡ connected
      → sends l.sid (event l.fh locked) ≡ true
      → (lock_rescan db peer sends w inum ≡ (ok v, (l.sid, event l.fh locked) ∷ []))
        × ((sid fh now : ℕ) (shared : Bool)
            → lock_add db v sid fh inum now shared false
              ≡ answer false (db.lock_put v inum (new_lock sid fh inum now shared false)) true)
  unfolding lock_rescan
  told_not_held good w v inum l alone waits put there sent = (
    rw (lock_rescan, good.opens w, alone, rescan_loop, waits, put, there, sent, good.ends v inum)
        refl,
    λ sid fh now shared.
        let free : any_conflict shared (db.lock_dups v inum) ≡ false =
          rw (t.dups-put_at w v inum 0 l put, alone) (pending_alone shared l waits) in
        lock_add_lem db good v sid fh inum now shared false ∙ rw free refl,
  )
