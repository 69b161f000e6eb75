-- ===== src/Cld/Lock/Adding.antt =====
-- cldb_lock_add of cld/cldb.c against the records of the inode: who has to wait, who is refused, and
-- which record is written.
use hail.Base.{
  ℕ, ◌≡◌, ◌⊎◌, refl, ◌∙◌, Bool, true, false, not, ◌&&◌, List, [], ◌∷◌, inl, inr, Bool-cases, All,
  arith,
}
use hail.Cld.{RawLock}
use hail.Cld.Db.{Db, keyexist, Res, ok, fail, ◌>>=◌, Serves}
use hail.Cld.Lock.{is_shared, is_pending, conflicts, any_conflict, new_lock, lock_add}
use hail.Cld.Lock.Exclusion.{answer, new_lock_bits, lock_add_lem}

-- A lock beside which a new one can be held: it only waits, or both are shared.
abbrev pub Beside : Bool → RawLock → Type 0
Beside shared m = (is_pending m ≡ true) ⊎ ((is_shared m ≡ true) × (shared ≡ true))

-- A lock that is held, where it or the new one is exclusive.
abbrev pub Against : Bool → RawLock → Type 0
Against shared m = (is_pending m ≡ false) × ((is_shared m ≡ false) ⊎ (shared ≡ false))

-- One of the locks is.
abbrev pub Blocked : Bool → List RawLock → Type 0
Blocked shared [] = ⊥
Blocked shared (m ∷ ms) = Against shared m ⊎ Blocked shared ms

-- The record of a session's lock by one of its handles.
pub record IsLock (sid fh inum now : ℕ) (shared pending : Bool) (l : RawLock) : Type 0 where
  pub of_sid : l.sid ≡ sid
  pub of_fh : l.fh ≡ fh
  pub of_inum : l.inum ≡ inum
  pub of_ctime : l.ctime ≡ now
  pub shared_bit : is_shared l ≡ shared
  pub pending_bit : is_pending l ≡ pending

new_lock-IsLock :
    (sid fh inum now : ℕ) (shared pending : Bool)
    → IsLock sid fh inum now shared pending (new_lock sid fh inum now shared pending)
unfolding new_lock
new_lock-IsLock sid fh inum now shared pending =
    let (s, p) = new_lock_bits sid fh inum now shared pending in
    record {
      of_sid = refl;
      of_fh = refl;
      of_inum = refl;
      of_ctime = refl;
      shared_bit = s;
      pending_bit = p;
    }

conflicts_lem : (shared : Bool) (m : RawLock) → conflicts shared m ≡ true → Against shared m
unfolding conflicts
conflicts_lem shared m h = ground arith

conflicts_none : (shared : Bool) (m : RawLock) → conflicts shared m ≡ false → Beside shared m
unfolding conflicts
conflicts_none shared m h = ground arith

any_conflict-Blocked :
    (shared : Bool) (ms : List RawLock) → any_conflict shared ms ≡ true → Blocked shared ms
unfolding any_conflict
any_conflict-Blocked shared [] h = cc
any_conflict-Blocked shared (m ∷ ms) h = elim (Bool-cases (conflicts shared m)) [
  | inl here ↦ inl (conflicts_lem shared m here)
  | inr there ↦ inr (any_conflict-Blocked shared ms (ground (arith, there)))
]

any_conflict-none :
    (shared : Bool) (ms : List RawLock) → any_conflict shared ms ≡ false → All (Beside shared) ms
unfolding any_conflict
any_conflict-none shared [] h = tt
any_conflict-none shared (m ∷ ms) h = elim (Bool-cases (conflicts shared m)) [
  | inl here ↦ absurd (ground (arith, here))
  | inr there ↦ (conflicts_none shared m there, any_conflict-none shared ms (ground (arith, there)))
]

never_refused :
    {W : Type 0} (wait : Bool) (r : Res W)
    → answer (not wait && false) r true ≡ (r >>= λ w'. ok (w', true))
never_refused true r = refl
never_refused false r = refl

module _ (db : Db) where
  -- One record of the new lock is written, and the answer says whether it is held.
  abbrev pub Written : db.World → ℕ → ℕ → ℕ → ℕ → Bool → Bool → Res (db.World × Bool) → Type 0
  Written w sid fh inum now shared pending r =
      (l : RawLock) × IsLock sid fh inum now shared pending l
      × (r ≡ (db.lock_put w inum l >>= λ w'. ok (w', not pending)))

  -- On a lock table whose cursor opens and whose scans end by DB_NOTFOUND: if every record of the
  -- inode is a pending lock, or both it and the new lock are shared, cldb_lock_add writes one
  -- record with the caller's session, handle, inode, time and sharing, which is not pending, and
  -- says that the lock is held; otherwise some record is a held lock of which it or the new one
  -- is exclusive, and a caller that waits gets one record, which is pending, with the answer that
  -- the lock is not held, where one that does not wait gets DB_KEYEXIST and writes nothing. A
  -- failure of the write is passed on.
  pub lock_add-Written :
      Serves db
      → (w : db.World) (sid fh inum now : ℕ) (shared wait : Bool)
      → let r = lock_add db w sid fh inum now shared wait in
        (All (Beside shared) (db.lock_dups w inum) × Written w sid fh inum now shared false r)
        ⊎ (Blocked shared (db.lock_dups w inum)
            × (((wait ≡ true) × Written w sid fh inum now shared true r)
                ⊎ ((wait ≡ false) × (r ≡ fail keyexist))))
  lock_add-Written good w sid fh inum now shared wait =
      let eq = lock_add_lem db good w sid fh inum now shared wait in
      elim (Bool-cases (any_conflict shared (db.lock_dups w inum))) [
        | inr free ↦ inl (
          any_conflict-none shared (db.lock_dups w inum) free,
          (
            new_lock sid fh inum now shared false,
            new_lock-IsLock sid fh inum now shared false,
            eq
                ∙ rw free (
                    never_refused wait
                      (db.lock_put w inum (new_lock sid fh inum now shared false))),
          ),
        )
        | inl held ↦ inr (
          any_conflict-Blocked shared (db.lock_dups w inum) held,
          elim (Bool-cases wait) [
            | inl patient ↦ inl (
              patient,
              (
                new_lock sid fh inum now shared true,
                new_lock-IsLock sid fh inum now shared true,
                eq ∙ rw (patient, held) refl,
              ),
            )
            | inr tries ↦ inr (tries, eq ∙ rw (tries, held) refl)
          ],
        )
      ]
