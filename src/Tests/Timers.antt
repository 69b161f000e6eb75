-- ===== src/Tests/Timers.antt =====
-- Runs of lib/libtimer.c over lists in memory.
use Prim.Native.Nat.{Ordering}
use hail.Base.{
  ℕ, zero, suc, ◌+◌, ◌≤◌, ◌≡◌, ◌↔◌, refl, ap, true, false, some, List, [], ◌∷◌, ◌++◌, arith, All,
  ◌==◌, ==_refl, ne→==, if◌then◌else◌,
}
use hail.Timer.Glist.{ListOps, HeadFits}
use hail.Timer.Sorted.{occurs, IsValid}
use hail.Timer.Run.{timers_run_ends}
use hail.Timer.{Timer, Timers, TimerOp, adds, timers_run}

abbrev remove : ℕ → List ℕ → List ℕ
remove x [] = []
remove x (y ∷ l) = if x == y then l else y ∷ remove x l

abbrev insert : (ℕ → ℕ → Ordering) → ℕ → List ℕ → List ℕ
insert cmp x [] = x ∷ []
insert cmp x (y ∷ l) = elim (cmp x y) [
  | Ordering.gt ↦ y ∷ insert cmp x l
  | Ordering.lt ↦ x ∷ y ∷ l
  | Ordering.eq ↦ x ∷ y ∷ l
]

abbrev Place : (ℕ → ℕ → Ordering) → ℕ → List ℕ → List ℕ → Type 0
Place cmp x l r =
    (a : List ℕ) × (b : List ℕ) × (l ≡ a ++ b)
    × (r ≡ a ++ x ∷ b)
    × All (λ y. cmp x y ≡ Ordering.gt) a
    × HeadFits cmp x b

insert-Place : (cmp : ℕ → ℕ → Ordering) (x : ℕ) (l : List ℕ) → Place cmp x l (insert cmp x l)
insert-Place cmp x [] = ([], [], refl, refl, tt, tt)
insert-Place cmp x (y ∷ l) = by_order (cmp x y) refl (insert-Place cmp x l)
  where
    by_order :
        (o : Ordering)
        → cmp x y ≡ o
        → Place cmp x l (insert cmp x l)
        → Place cmp x (y ∷ l) (insert cmp x (y ∷ l))
    by_order Ordering.gt e ih =
        let (a, b, before, after, above, fits) = ih in
        rw (insert, e) (y ∷ a, b, ap (◌∷◌ y) before, ap (◌∷◌ y) after, (e, above), fits)
    by_order Ordering.lt e ih = rw (insert, e) ([], y ∷ l, refl, refl, tt, λ h. cc)
    by_order Ordering.eq e ih = rw (insert, e) ([], y ∷ l, refl, refl, tt, λ h. cc)

abbrev glist : ListOps
glist = record {
  remove = remove;
  remove_nil = λ x. refl;
  remove_here = λ x l. rw (==_refl x) refl;
  remove_there = λ x y l ne. rw (ne→== x y ne) refl;
  insert_sorted = insert;
  insert_sorted_place = insert-Place;
}

-- Timer 0 is due at 5; no other is listed.
abbrev one_timer : ℕ → Timer
one_timer zero = record { fired = false; on_list = true; expires = 5 }
one_timer (suc n) = record { fired = false; on_list = false; expires = 0 }

abbrev one : Timers
one = record { timer = one_timer; list = 0 ∷ []; runmark = 3 }

one-listed : (t : ℕ) → occurs t one.list ≡ (if (one.timer t).on_list then 1 else 0)
one-listed zero = refl
one-listed (suc t) = ground arith

one-IsValid : IsValid one
one-IsValid = record { sorted = (tt, tt); listed = one-listed }

-- The callback of timer 0 arms timer 1.
abbrev chain : ℕ → Timers → List TimerOp
chain zero s = adds 1 20 ∷ []
chain (suc n) s = []

timers_run_ends_example :
    (s' : Timers) × (timeout : ℕ) × (timers_run glist 3 chain 9 one ≡ some (s', timeout))
    × IsValid s'
    × (s'.runmark ≡ 9)
    × All (λ u. 9 + timeout ≤ (s'.timer u).expires) s'.list
    × ((timeout ≡ 0) ↔ (s'.list ≡ []))
timers_run_ends_example = timers_run_ends glist chain 3 9 one one-IsValid (omega arith)
