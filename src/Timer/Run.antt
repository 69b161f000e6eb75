-- ===== src/Timer/Run.antt =====
-- cld_timers_run of lib/libtimer.c ends, whatever the callbacks add and delete.
use hail.Base.{
  ℕ, zero, suc, ◌+◌, ◌-◌, ◌≤◌, ◌<◌, ◌≡◌, refl, ap, true, false, some, List, [], ◌∷◌, arith, All,
  ltb, ltb→lt, ◌↔◌, inl, inr, Bool-cases, ne→==, ==_refl,
}
use native.Mathlib.Decide.{ℕ_discrete}
use hail.Timer.Glist.{ListOps}
use hail.Timer.Sorted.{occurs, Sorted, IsValid, All-later, Sorted-update}
use hail.Timer.Laws.{due, due-update, apply_ops-IsValid}
use hail.Timer.{Timer, Timers, TimerOp, apply_ops, fire, run_loop, next_timeout, timers_run}

-- Taking the head off keeps the list valid, and takes one timer off those that are due.
fire-IsValid :
    (s : Timers) (t : ℕ) (rest : List ℕ)
    → IsValid s
    → s.list ≡ t ∷ rest
    → IsValid (fire s t rest)
      × ((now : ℕ)
          → (s.timer t).expires ≤ now
          → due (fire s t rest).timer now (fire s t rest).list + 1 ≡ due s.timer now s.list)
unfolding fire
fire-IsValid s t rest v e =
    let new : Timer = record (s.timer t) { on_list = false; fired = true } in
    let order : Sorted s.timer (t ∷ rest) = rw e at v.sorted in
    let gone : occurs t rest ≡ 0 = ground (arith, v.listed t, ap (occurs t) e, ==_refl t) in
    (
      record {
        sorted = Sorted-update s.timer t new rest gone order.1;
        listed = λ u. elim (ℕ_discrete t u) [
          | yes q ↦ rw (← q, ==_refl t) gone
          | no q ↦ rw (ne→== t u q) (ground (arith, v.listed u, ap (occurs u) e, ne→== t u q))
        ];
      },
      λ now h. rw (due-update s.timer now t new rest gone, e) (ground arith),
    )

-- A sorted list whose head is not due has no timer that is.
none_due :
    (f : ℕ → Timer) (now m : ℕ) (l : List ℕ)
    → now < m
    → All (λ u. m ≤ (f u).expires) l
    → All (λ u. now < (f u).expires) l
none_due f now m [] h a = tt
none_due f now m (u ∷ l) h a = (omega arith, none_due f now m l h a.1)

next_timeout_head :
    (now : ℕ) (s : Timers) (t : ℕ) (l : List ℕ)
    → now < (s.timer t).expires
    → next_timeout now s (t ∷ l) ≡ (s.timer t).expires - now
unfolding next_timeout
next_timeout_head now s t l h = ground arith

next_timeout_nil : (now : ℕ) (s : Timers) → next_timeout now s [] ≡ 0
unfolding next_timeout
next_timeout_nil now s = refl

next_timeout_lem :
    (now : ℕ) (s : Timers) (l : List ℕ)
    → Sorted s.timer l
    → All (λ u. now < (s.timer u).expires) l
    → All (λ u. now + next_timeout now s l ≤ (s.timer u).expires) l
      × ((next_timeout now s l ≡ 0) ↔ (l ≡ []))
next_timeout_lem now s [] o a = (tt, ((λ _. refl), (λ _. next_timeout_nil now s)))
next_timeout_lem now s (t ∷ l) o a =
    let e = next_timeout_head now s t l a.0 in
    (
      (omega (arith, e), All-later s.timer _ (s.timer t).expires l (omega (arith, e)) o.0),
      ((λ z. absurd (omega (arith, e))), (λ z. cc)),
    )

module _ (g : ListOps) (cb : ℕ → Timers → List TimerOp) where
  -- With more fuel than there are due timers the loop ends, and no timer that is left is due.
  run_loop_ends :
      (fuel now : ℕ) (s : Timers) (l : List ℕ)
      → IsValid s
      → s.runmark ≡ now
      → s.list ≡ l
      → due s.timer now s.list < fuel
      → (s' : Timers) × (run_loop g fuel cb now s l ≡ some s')
        × IsValid s'
        × (s'.runmark ≡ now)
        × All (λ u. now < (s'.timer u).expires) s'.list
  unfolding run_loop
  run_loop_ends zero now s l v mark e h = absurd (omega arith)
  run_loop_ends (suc f) now s [] v mark e h = (s, refl, v, mark, rw e tt)
  run_loop_ends (suc f) now s (t ∷ rest) v mark e h =
      elim (Bool-cases (ltb now (s.timer t).expires)) [
        | inl later ↦
            let order : Sorted s.timer (t ∷ rest) = rw e at v.sorted in
            let lt = ltb→lt now (s.timer t).expires later in
            (
              s,
              rw later refl,
              v,
              mark,
              rw e (lt, none_due s.timer now (s.timer t).expires rest lt order.0),
            )
        | inr now_due ↦
            let (v', one_less) = fire-IsValid s t rest v e in
            let s' = fire s t rest in
            let (v'', mark'', fewer) =
              apply_ops-IsValid g (cb t s') s' now v' (unfold fire in mark) in
            let (r, run, valid, mark', left) =
              run_loop_ends f now (apply_ops g s' (cb t s')) _ v'' mark'' refl
                (omega (arith, fewer, one_less now (ground arith))) in
            (r, rw now_due run, valid, mark', left)
      ]

  -- From a well-formed list, with more fuel than there are timers due, a run of the timers ends,
  -- whatever timers the callbacks add or delete: the list is well formed again, the mark is the
  -- present time, every timer left expires no earlier than the present time plus the result, and
  -- the result is 0 exactly if the list is empty.
  pub timers_run_ends :
      (fuel now : ℕ) (s : Timers)
      → IsValid s
      → due s.timer now s.list < fuel
      → (s' : Timers) × (timeout : ℕ) × (timers_run g fuel cb now s ≡ some (s', timeout))
        × IsValid s'
        × (s'.runmark ≡ now)
        × All (λ u. now + timeout ≤ (s'.timer u).expires) s'.list
        × ((timeout ≡ 0) ↔ (s'.list ≡ []))
  unfolding timers_run
  timers_run_ends fuel now s v h =
      let start : Timers = record s { runmark = now } in
      let v' : IsValid start = record { sorted = v.sorted; listed = v.listed } in
      let (s', run, valid, mark, left) = run_loop_ends fuel now start s.list v' refl refl h in
      let (bound, empty) = next_timeout_lem now s' s'.list valid.sorted left in
      (s', next_timeout now s' s'.list, rw (run, timers_run) refl, valid, mark, bound, empty)
