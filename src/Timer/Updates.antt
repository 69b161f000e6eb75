-- ===== src/Timer/Updates.antt =====
-- What timer_add and timer_del of lib/libtimer.c change.
use hail.Base.{
  ℕ, ◌+◌, ◌≡◌, ◌≢◌, true, false, ltb, ◌==◌, ==→eq, if◌then◌else◌, inl, inr, Bool-cases, arith,
}
use hail.Timer.Glist.{ListOps}
use hail.Timer.Sorted.{occurs, IsValid}
use hail.Timer.Laws.{timer_add-IsValid, timer_del-IsValid}
use hail.Timer.{Timers, update, timer_add, timer_del}

eq-or-ne : (t u : ℕ) → (t == u) ≡ false → t ≢ u
eq-or-ne t u h e = ground (arith, h, e)

module _ (g : ListOps) where
  -- From a well-formed list, timer_add makes a well-formed list in which the timer is listed, has
  -- not fired, and expires at the given time, though after the mark of the last run; no other
  -- timer changes.
  pub timer_add-update :
      (s : Timers) (t expires : ℕ)
      → IsValid s
      → IsValid (timer_add g s t expires)
        × ((u : ℕ)
            → (timer_add g s t expires).timer u
              ≡ update s.timer t
                  (record {
                    fired = false;
                    on_list = true;
                    expires = if ltb expires (s.runmark + 1) then s.runmark + 1 else expires;
                  })
                  u)
  timer_add-update s t expires v =
      let (valid, this, others, _) = timer_add-IsValid g s t expires v in
      (
        valid,
        λ u. elim (Bool-cases (t == u)) [
          | inl hit ↦ let e = ==→eq t u hit in rw (hit, ← e) this
          | inr miss ↦ rw miss (others u (eq-or-ne t u miss))
        ],
      )

  -- From a well-formed list, timer_del makes a well-formed list that has lost the timer and no
  -- other one, and the timer is no longer marked as listed.
  pub timer_del-occurs :
      (s : Timers) (t : ℕ)
      → IsValid s
      → IsValid (timer_del g s t)
        × (((timer_del g s t).timer t).on_list ≡ false)
        × ((u : ℕ) → occurs u (timer_del g s t).list ≡ (if t == u then 0 else occurs u s.list))
  timer_del-occurs s t v =
      let (valid, off, gone, others, _) = timer_del-IsValid g s t v in
      (
        valid,
        off,
        λ u. elim (Bool-cases (t == u)) [
          | inl hit ↦ let e = ==→eq t u hit in rw (hit, ← e) gone
          | inr miss ↦ rw miss (others u (eq-or-ne t u miss))
        ],
      )
