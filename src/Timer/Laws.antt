-- ===== src/Timer/Laws.antt =====
-- cld_timer_add and cld_timer_del of lib/libtimer.c, and what they do to the timers that are due.
use hail.Base.{
  ℕ, ◌+◌, ◌≤◌, ◌<◌, ◌≡◌, ◌≢◌, refl, ap, true, false, List, [], ◌∷◌, ◌++◌, arith, ltb, leb, ◌==◌,
  if◌then◌else◌, inl, inr, Bool-cases, ne→==, ==_refl,
}
use native.Mathlib.Nat.{le_trans}
use native.Mathlib.Decide.{ℕ_discrete}
use hail.Timer.Glist.{ListOps}
use hail.Timer.Sorted.{
  occurs, Sorted, IsValid, occurs-append, Sorted-update, insert-Sorted, occurs-remove,
  Sorted-remove,
}
use hail.Timer.{
  Timer, timer_cmp, Timers, TimerOp, adds, dels, update, timer_add, timer_del, apply_op, apply_ops,
}

-- The timers of a list that have run out.
abbrev pub due : (ℕ → Timer) → ℕ → List ℕ → ℕ
due f now [] = 0
due f now (t ∷ l) = (if leb (f t).expires now then 1 else 0) + due f now l

due-append :
    (f : ℕ → Timer) (now : ℕ) (a b : List ℕ) → due f now (a ++ b) ≡ due f now a + due f now b
due-append f now [] b = omega arith
due-append f now (t ∷ a) b = omega (arith, due-append f now a b)

pub due-update :
    (f : ℕ → Timer) (now t : ℕ) (v : Timer) (l : List ℕ)
    → occurs t l ≡ 0
    → due (update f t v) now l ≡ due f now l
due-update f now t v [] h = refl
due-update f now t v (u ∷ l) h = elim (ℕ_discrete t u) [
  | yes q ↦ absurd (ground arith)
  | no q ↦ rw (ne→== t u q, due-update f now t v l (omega arith)) refl
]

occurs_between :
    (u t : ℕ) (l a b : List ℕ)
    → l ≡ a ++ b
    → occurs u (a ++ t ∷ b) ≡ (if t == u then 1 else 0) + occurs u l
occurs_between u t l a b e = rw (e, occurs-append u a (t ∷ b), occurs-append u a b) (omega arith)

module _ (g : ListOps) where
  due-remove-le : (f : ℕ → Timer) (now t : ℕ) (l : List ℕ) → due f now (g.remove t l) ≤ due f now l
  due-remove-le f now t [] = rw (g.remove_nil t) (omega arith)
  due-remove-le f now t (x ∷ l) = elim (ℕ_discrete t x) [
    | yes q ↦ rw (← q, g.remove_here t l) (omega arith)
    | no q ↦ rw (g.remove_there t x l q) (omega (arith, due-remove-le f now t l))
  ]

  -- The list of cld_timer_add once the timer itself is taken off.
  abbrev without : Timers → ℕ → List ℕ
  without s t = if (s.timer t).on_list then g.remove t s.list else s.list

  record Without (s : Timers) (t : ℕ) (l : List ℕ) : Type 0 where
    gone : occurs t l ≡ 0
    others : (u : ℕ) → t ≢ u → occurs u l ≡ occurs u s.list
    sorted : Sorted s.timer l
    fewer : (now : ℕ) → due s.timer now l ≤ due s.timer now s.list

  without_lem : (s : Timers) (t : ℕ) → IsValid s → Without s t (without s t)
  without_lem s t v = elim (Bool-cases (s.timer t).on_list) [
    | inl on ↦ rw on (record {
      gone = ground (arith, occurs-remove g t t s.list, v.listed t);
      others = λ u ne. rw (occurs-remove g t u s.list, ne→== t u ne) (omega arith);
      sorted = Sorted-remove g s.timer t s.list v.sorted;
      fewer = λ now. due-remove-le s.timer now t s.list;
    })
    | inr off ↦ rw off (record {
      gone = ground (arith, v.listed t);
      others = λ u ne. refl;
      sorted = v.sorted;
      fewer = λ now. omega arith;
    })
  ]

  -- The state after `t` is written and inserted into a list that does not hold it.
  abbrev inserted : Timers → ℕ → Timer → List ℕ → Timers
  inserted s t new l =
      let heap = update s.timer t new in
      record s { timer = heap; list = g.insert_sorted (λ a b. timer_cmp (heap a) (heap b)) t l }

  inserted-IsValid :
      (s : Timers) (t : ℕ) (new : Timer) (l : List ℕ)
      → IsValid s
      → Without s t l
      → new.on_list ≡ true
      → IsValid (inserted s t new l)
  inserted-IsValid s t new l v w on =
      let heap : ℕ → Timer = update s.timer t new in
      let (a, b, split, put, below, fits) =
        g.insert_sorted_place (λ x y. timer_cmp (heap x) (heap y)) t l in
      let s' : Sorted heap l = Sorted-update s.timer t new l w.gone w.sorted in
      record {
        sorted = rw put (insert-Sorted heap t a b (rw split at s') below fits);
        listed = λ u.
            rw (put, occurs_between u t l a b split)
              (ground (arith, w.gone, w.others u, v.listed u, on));
      }

  inserted-due :
      (s : Timers) (t : ℕ) (new : Timer) (l : List ℕ) (now : ℕ)
      → Without s t l
      → now < new.expires
      → due (inserted s t new l).timer now (inserted s t new l).list ≤ due s.timer now s.list
  inserted-due s t new l now w later =
      let heap : ℕ → Timer = update s.timer t new in
      let (a, b, split, put, _, _) =
        g.insert_sorted_place (λ x y. timer_cmp (heap x) (heap y)) t l in
      let not_due : leb new.expires now ≡ false = ground arith in
      rw (put, due-append heap now a (t ∷ b), ==_refl t, not_due)
        (omega (
          arith,
          ap (due heap now) split,
          due-append heap now a b,
          due-update s.timer now t new l w.gone,
          w.fewer now,
        ))

  -- Adding a timer, whether it is listed or not, keeps the list in order and duplicate-free, and
  -- sets the timer to expire at the given time, but never at or before the mark of the last run.
  pub timer_add-IsValid :
      (s : Timers) (t expires : ℕ)
      → IsValid s
      → IsValid (timer_add g s t expires)
        × ((timer_add g s t expires).timer t ≡ record {
          fired = false;
          on_list = true;
          expires = if ltb expires (s.runmark + 1) then s.runmark + 1 else expires;
        })
        × ((u : ℕ) → t ≢ u → (timer_add g s t expires).timer u ≡ s.timer u)
        × ((now : ℕ)
            → now ≤ s.runmark
            → due (timer_add g s t expires).timer now (timer_add g s t expires).list
              ≤ due s.timer now s.list)
  unfolding timer_add
  timer_add-IsValid s t expires v =
      let w = without_lem s t v in
      let time = if ltb expires (s.runmark + 1) then s.runmark + 1 else expires in
      let new : Timer = record { fired = false; on_list = true; expires = time } in
      (
        inserted-IsValid s t new (without s t) v w refl,
        rw (==_refl t) refl,
        λ u ne. rw (ne→== t u ne) refl,
        λ now h. inserted-due s t new (without s t) now w (ground arith),
      )

  -- Deleting a timer keeps the list valid, and the timer is not listed afterwards.
  pub timer_del-IsValid :
      (s : Timers) (t : ℕ)
      → IsValid s
      → IsValid (timer_del g s t)
        × (((timer_del g s t).timer t).on_list ≡ false)
        × (occurs t (timer_del g s t).list ≡ 0)
        × ((u : ℕ) → t ≢ u → occurs u (timer_del g s t).list ≡ occurs u s.list)
        × ((now : ℕ)
            → due (timer_del g s t).timer now (timer_del g s t).list ≤ due s.timer now s.list)
  unfolding timer_del
  timer_del-IsValid s t v = elim (Bool-cases (s.timer t).on_list) [
    | inr off ↦ rw off (v, off, rw (v.listed t, off) refl, (λ u ne. refl), (λ now. omega arith))
    | inl on ↦
        let w = without_lem s t v in
        let l : List ℕ = g.remove t s.list in
        let e : without s t ≡ l = rw on refl in
        let w' : Without s t l = rw e at w in
        let new : Timer = record (s.timer t) { on_list = false } in
        rw on (
          record {
            sorted = Sorted-update s.timer t new l w'.gone w'.sorted;
            listed = λ u. elim (ℕ_discrete t u) [
              | yes q ↦ rw (← q, ==_refl t) w'.gone
              | no q ↦ rw (ne→== t u q, w'.others u q) (v.listed u)
            ];
          },
          rw (==_refl t) refl,
          w'.gone,
          w'.others,
          λ now. rw (due-update s.timer now t new l w'.gone) (w'.fewer now),
        )
  ]

  pub apply_op-IsValid :
      (s : Timers) (o : TimerOp) (now : ℕ)
      → IsValid s
      → s.runmark ≡ now
      → IsValid (apply_op g s o)
        × ((apply_op g s o).runmark ≡ now)
        × (due (apply_op g s o).timer now (apply_op g s o).list ≤ due s.timer now s.list)
  unfolding apply_op
  apply_op-IsValid s (adds t expires) now v e =
      let a = timer_add-IsValid s t expires v in (a.0, unfold timer_add in e, a.3 now (omega arith))
  apply_op-IsValid s (dels t) now v e =
      let d = timer_del-IsValid s t v in (d.0, unfold timer_del in ground arith, d.4 now)

  -- Whatever a callback adds and deletes, no more timers are due than before.
  pub apply_ops-IsValid :
      (os : List TimerOp) (s : Timers) (now : ℕ)
      → IsValid s
      → s.runmark ≡ now
      → IsValid (apply_ops g s os)
        × ((apply_ops g s os).runmark ≡ now)
        × (due (apply_ops g s os).timer now (apply_ops g s os).list ≤ due s.timer now s.list)
  unfolding apply_ops
  apply_ops-IsValid [] s now v e = (v, e, omega arith)
  apply_ops-IsValid (o ∷ os) s now v e =
      let (v', mark, fewer) = apply_op-IsValid s o now v e in
      let (v'', mark', fewer') = apply_ops-IsValid os (apply_op g s o) now v' mark in
      (v'', mark', le_trans fewer' fewer)
