-- ===== src/Cld/Lock/Exclusion.antt =====
-- Mutual exclusion in the lock table: cldb_lock_add against the locks that are held.
use hail.Base.{
  ℕ, ◌≡◌, ◌≢◌, ◌⊎◌, refl, Bool, true, false, not, ◌&&◌, ◌||◌, List, [], ◌∷◌, ◌++◌, arith, ==→eq,
  All, All-append, All-split, if◌then◌else◌, inl, inr, Bool-cases, ◌==◌,
}
use hail.Cld.{RawLock}
use hail.Cld.Db.{Db, notfound, keyexist, Res, ok, fail, ◌>>=◌, IsLockTable, Serves}
use hail.Cld.Lock.{
  is_shared, is_pending, any_conflict, lock_find, new_lock, store_lock, lock_add, lock_del, lmatch,
}
use hail.Cld.Lock.Scan.{others, without_first, has_lock, lock_del-without_first, lock_del-none}

-- Two locks that may not both be held.
abbrev pub clash : RawLock → RawLock → Bool
clash l m = not (is_pending l) && not (is_pending m) && (not (is_shared l) || not (is_shared m))

-- An exclusive lock is held alone, and otherwise every lock that is held is shared.
abbrev pub Exclusive : List RawLock → Type 0
Exclusive [] = Unit
Exclusive (l ∷ ls) = All (λ m. clash l m ≡ false) ls × Exclusive ls

Exclusive-insert :
    (a b : List RawLock) (l : RawLock)
    → All (λ m. clash l m ≡ false) (a ++ b)
    → Exclusive (a ++ b)
    → Exclusive (a ++ l ∷ b)
Exclusive-insert [] b l h e = (h, e)
Exclusive-insert (x ∷ a) b l h e =
    let (before, after) = All-split (λ m. clash x m ≡ false) a b e.0 in
    (
      All-append (λ m. clash x m ≡ false) a (l ∷ b) before (clash_symm x l h.0, after),
      Exclusive-insert a b l h.1 e.1,
    )
  where
    clash_symm : (x l : RawLock) → clash l x ≡ false → clash x l ≡ false
    clash_symm x l q = ground arith

Exclusive-put :
    (l : RawLock) (ds ds' a b : List RawLock)
    → ds ≡ a ++ b
    → ds' ≡ a ++ l ∷ b
    → All (λ m. clash l m ≡ false) ds
    → Exclusive ds
    → Exclusive ds'
Exclusive-put l ds ds' a b before after free e =
    rw after (Exclusive-insert a b l (rw before at free) (rw before at e))

All-others :
    (P : RawLock → Type 0) (sid fh : ℕ) (ls : List RawLock) → All P ls → All P (others sid fh ls)
All-others P sid fh [] h = tt
All-others P sid fh (l ∷ ls) h = elim (Bool-cases (lmatch l sid fh)) [
  | inl mine ↦ rw mine (All-others P sid fh ls h.1)
  | inr keep ↦ rw keep (h.0, All-others P sid fh ls h.1)
]

-- Taking locks off keeps the exclusion.
pub others-Exclusive :
    (sid fh : ℕ) (ls : List RawLock) → Exclusive ls → Exclusive (others sid fh ls)
others-Exclusive sid fh [] e = tt
others-Exclusive sid fh (l ∷ ls) e = elim (Bool-cases (lmatch l sid fh)) [
  | inl mine ↦ rw mine (others-Exclusive sid fh ls e.1)
  | inr keep ↦
      rw keep (All-others (λ m. clash l m ≡ false) sid fh ls e.0, others-Exclusive sid fh ls e.1)
]

pub new_lock_bits :
    (sid fh inum now : ℕ) (shared pending : Bool)
    → (is_shared (new_lock sid fh inum now shared pending) ≡ shared)
      × (is_pending (new_lock sid fh inum now shared pending) ≡ pending)
unfolding new_lock
new_lock_bits sid fh inum now true true = (refl, refl)
new_lock_bits sid fh inum now true false = (refl, refl)
new_lock_bits sid fh inum now false true = (refl, refl)
new_lock_bits sid fh inum now false false = (refl, refl)

no_clash :
    (shared : Bool) (l : RawLock) (ls : List RawLock)
    → is_shared l ≡ shared
    → (is_pending l ≡ true) ⊎ (any_conflict shared ls ≡ false)
    → All (λ m. clash l m ≡ false) ls
unfolding any_conflict
no_clash shared l [] s h = tt
no_clash shared l (m ∷ ls) s (inl waits) = (rw waits refl, no_clash shared l ls s (inl waits))
no_clash shared l (m ∷ ls) s (inr free) =
    (ground arith, no_clash shared l ls s (inr (ground arith)))

-- A refusal, or the table after the write with the answer whether the lock is held.
abbrev pub answer : {W : Type 0} → Bool → Res W → Bool → Res (W × Bool)
answer refuse r held = if refuse then fail keyexist else (r >>= λ w'. ok (w', held))

stored-inv :
    {W : Type 0} (refuse : Bool) (r : Res W) (held acquired : Bool) (w : W)
    → answer refuse r held ≡ ok (w, acquired)
    → (r ≡ ok w) × (refuse ≡ false) × (held ≡ acquired)
stored-inv true r held acquired w h = cc
stored-inv false (ok v) held acquired w h = (ground arith, refl, ground arith)
stored-inv false (fail rc) held acquired w h = cc

module _ (db : Db) where
  lock_find_lem :
      Serves db
      → (w : db.World) (inum : ℕ) (shared : Bool)
      → lock_find db w inum shared
        ≡ (if any_conflict shared (db.lock_dups w inum) then ok tt else fail notfound)
  unfolding lock_find
  lock_find_lem good w inum shared = rw (good.opens w, good.ends w inum) refl

  store_lock_lem :
      (w : db.World) (sid fh inum now : ℕ) (shared wait conflict : Bool)
      → store_lock db w sid fh inum now shared wait conflict
        ≡ answer
            (not wait && conflict)
            (db.lock_put w inum (new_lock sid fh inum now shared conflict))
            (not conflict)
  unfolding store_lock
  store_lock_lem w sid fh inum now shared true c = refl
  store_lock_lem w sid fh inum now shared false true = refl
  store_lock_lem w sid fh inum now shared false false = refl

  -- cldb_lock_add by what cldb_lock_find is to find.
  pub lock_add_lem :
      Serves db
      → (w : db.World) (sid fh inum now : ℕ) (shared wait : Bool)
      → lock_add db w sid fh inum now shared wait
        ≡ answer
            (not wait && any_conflict shared (db.lock_dups w inum))
            (db.lock_put w inum
              (new_lock sid fh inum now shared (any_conflict shared (db.lock_dups w inum))))
            (not (any_conflict shared (db.lock_dups w inum)))
  unfolding lock_add
  lock_add_lem good w sid fh inum now shared wait =
      elim (Bool-cases (any_conflict shared (db.lock_dups w inum))) [
        | inl held ↦
            rw (lock_add, lock_find_lem good w inum shared, held)
              (store_lock_lem w sid fh inum now shared wait true)
        | inr free ↦
            rw (lock_add, lock_find_lem good w inum shared, free)
              (store_lock_lem w sid fh inum now shared wait false)
      ]

  -- When cldb_lock_add succeeds on an inode whose held locks are exclusive, they are exclusive
  -- afterwards, where the lock table works as documented and does not fail.
  pub lock_add-Exclusive :
      Serves db
      → IsLockTable db
      → (w w' : db.World) (sid fh inum now : ℕ) (shared wait acquired : Bool)
      → Exclusive (db.lock_dups w inum)
      → lock_add db w sid fh inum now shared wait ≡ ok (w', acquired)
      → Exclusive (db.lock_dups w' inum)
  lock_add-Exclusive good t w w' sid fh inum now shared wait acquired e h =
      let c = any_conflict shared (db.lock_dups w inum) in
      let l = new_lock sid fh inum now shared c in
      let (shared_bit, pending_bit) = new_lock_bits sid fh inum now shared c in
      let (put, _, _) =
        stored-inv (not wait && c) (db.lock_put w inum l) (not c) acquired w'
          (rw (lock_add_lem good w sid fh inum now shared wait) at h) in
      let (a, b, before, after) = t.dups-put w w' inum l put in
      let free : All (λ m. clash l m ≡ false) (db.lock_dups w inum) =
        no_clash shared l (db.lock_dups w inum) shared_bit (cases c pending_bit) in
      Exclusive-put l (db.lock_dups w inum) (db.lock_dups w' inum) a b before after free e
    where
      cases : (c : Bool) {p : Bool} → p ≡ c → (p ≡ true) ⊎ (c ≡ false)
      cases true q = inl q
      cases false q = inr refl

-- Every inode's locks are exclusive.
abbrev pub AllExclusive : (db : Db) → db.World → Type 0
AllExclusive db w = (k : ℕ) → Exclusive (db.lock_dups w k)

All-without_first :
    (P : RawLock → Type 0) (sid fh : ℕ) (ls : List RawLock)
    → All P ls
    → All P (without_first sid fh ls)
All-without_first P sid fh [] h = tt
All-without_first P sid fh (l ∷ ls) h = elim (Bool-cases ((l.sid == sid) && (fh == l.fh))) [
  | inl mine ↦ rw mine h.1
  | inr keep ↦ rw keep (h.0, All-without_first P sid fh ls h.1)
]

without_first-Exclusive :
    (sid fh : ℕ) (ls : List RawLock) → Exclusive ls → Exclusive (without_first sid fh ls)
without_first-Exclusive sid fh [] e = tt
without_first-Exclusive sid fh (l ∷ ls) e = elim (Bool-cases ((l.sid == sid) && (fh == l.fh))) [
  | inl mine ↦ rw mine e.1
  | inr keep ↦ rw keep (
    All-without_first (λ m. clash l m ≡ false) sid fh ls e.0,
    without_first-Exclusive sid fh ls e.1,
  )
]

same_or_not : (P : ℕ → Type 0) (inum k : ℕ) → P inum → (inum ≢ k → P k) → P k
same_or_not P inum k here there = elim (Bool-cases (inum == k)) [
  | inl same ↦ rw (← ==→eq inum k same) here
  | inr differs ↦ there (ground (arith, differs))
]

module _ (db : Db) (good : Serves db) (t : IsLockTable db) where
  lock_add-put :
      (w w' : db.World) (sid fh inum now : ℕ) (shared wait acquired : Bool)
      → lock_add db w sid fh inum now shared wait ≡ ok (w', acquired)
      → (l : RawLock) × (db.lock_put w inum l ≡ ok w')
  lock_add-put w w' sid fh inum now shared wait acquired h =
      let c = any_conflict shared (db.lock_dups w inum) in
      let l = new_lock sid fh inum now shared c in
      let (put, _, _) =
        stored-inv (not wait && c) (db.lock_put w inum l) (not c) acquired w'
          (rw (lock_add_lem db good w sid fh inum now shared wait) at h) in
      (l, put)

  pub lock_add-AllExclusive :
      (w w' : db.World) (sid fh inum now : ℕ) (shared wait acquired : Bool)
      → AllExclusive db w
      → lock_add db w sid fh inum now shared wait ≡ ok (w', acquired)
      → AllExclusive db w'
  lock_add-AllExclusive w w' sid fh inum now shared wait acquired e h k =
      let (l, put) = lock_add-put w w' sid fh inum now shared wait acquired h in
      same_or_not (λ j. Exclusive (db.lock_dups w' j)) inum k
        (lock_add-Exclusive db good t w w' sid fh inum now shared wait acquired (e inum) h)
        (λ ne. rw (t.dups-put_ne w w' inum k l put ne) (e k))

  pub lock_del-AllExclusive :
      (w w' : db.World) (sid fh inum : ℕ)
      → AllExclusive db w
      → lock_del db w sid fh inum ≡ ok w'
      → AllExclusive db w'
  lock_del-AllExclusive w w' sid fh inum e h k =
      elim (Bool-cases (has_lock sid fh (db.lock_dups w inum))) [
        | inr free ↦ cc (lock_del-none db t good w sid fh inum free, h)
        | inl mine ↦
            let (v, run, here, there) = lock_del-without_first db t good w sid fh inum mine in
            let same : v ≡ w' = cc (run, h) in
            rw (← same) (
              same_or_not (λ j. Exclusive (db.lock_dups v j)) inum k
                (rw here (without_first-Exclusive sid fh (db.lock_dups w inum) (e inum)))
                (λ ne. rw (there k ne) (e k)))
      ]
