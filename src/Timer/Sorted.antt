-- ===== src/Timer/Sorted.antt =====
-- The order and the membership of the timer list of lib/libtimer.c.
use Prim.Native.Nat.{Ordering}
use hail.Base.{
  ℕ, ◌+◌, ◌-◌, ◌≤◌, ◌<◌, ◌≡◌, ◌≢◌, List, [], ◌∷◌, ◌++◌, arith, All, All-append, All-split, ◌==◌,
  if◌then◌else◌, ne→==,
}
use native.Mathlib.Decide.{ℕ_discrete}
use hail.Timer.Glist.{ListOps, HeadFits}
use hail.Timer.{Timer, Timers, timer_cmp, update}

abbrev pub occurs : ℕ → List ℕ → ℕ
occurs t [] = 0
occurs t (u ∷ l) = (if u == t then 1 else 0) + occurs t l

abbrev pub Sorted : (ℕ → Timer) → List ℕ → Type 0
Sorted f [] = Unit
Sorted f (t ∷ l) = All (λ u. (f t).expires ≤ (f u).expires) l × Sorted f l

-- The list is in order of expiry, and holds each timer that is marked as listed once, no other.
pub record IsValid (s : Timers) : Type 0 where
  pub sorted : Sorted s.timer s.list
  pub listed : (t : ℕ) → occurs t s.list ≡ (if (s.timer t).on_list then 1 else 0)

pub occurs-append : (t : ℕ) (a b : List ℕ) → occurs t (a ++ b) ≡ occurs t a + occurs t b
occurs-append t [] b = omega arith
occurs-append t (x ∷ a) b = omega (arith, occurs-append t a b)

-- A timer that is not in the list can be written freely.
pub All-update :
    (P : Timer → Type 0) (f : ℕ → Timer) (t : ℕ) (v : Timer) (l : List ℕ)
    → occurs t l ≡ 0
    → All (λ u. P (f u)) l
    → All (λ u. P (update f t v u)) l
All-update P f t v [] h a = tt
All-update P f t v (u ∷ l) h a = elim (ℕ_discrete t u) [
  | yes q ↦ absurd (ground arith)
  | no q ↦ (rw (ne→== t u q) a.0, All-update P f t v l (omega arith) a.1)
]

pub Sorted-update :
    (f : ℕ → Timer) (t : ℕ) (v : Timer) (l : List ℕ)
    → occurs t l ≡ 0
    → Sorted f l
    → Sorted (update f t v) l
Sorted-update f t v [] h s = tt
Sorted-update f t v (u ∷ l) h s = elim (ℕ_discrete t u) [
  | yes q ↦ absurd (ground arith)
  | no q ↦ (
    rw (ne→== t u q) (All-update (λ x. (f u).expires ≤ x.expires) f t v l (omega arith) s.0),
    Sorted-update f t v l (omega arith) s.1,
  )
]

pub All-later :
    (f : ℕ → Timer) (m n : ℕ) (l : List ℕ)
    → m ≤ n
    → All (λ u. n ≤ (f u).expires) l
    → All (λ u. m ≤ (f u).expires) l
All-later f m n [] h a = tt
All-later f m n (u ∷ l) h a = (omega arith, All-later f m n l h a.1)

timer_cmp-le : (a b : Timer) → timer_cmp a b ≢ Ordering.gt → a.expires ≤ b.expires
unfolding timer_cmp
timer_cmp-le a b h = ground arith

timer_cmp-lt : (a b : Timer) → timer_cmp a b ≡ Ordering.gt → b.expires < a.expires
unfolding timer_cmp
timer_cmp-lt a b h = ground arith

-- What `insert_sorted` gives at the place that it finds.
pub insert-Sorted :
    (f : ℕ → Timer) (t : ℕ) (a b : List ℕ)
    → Sorted f (a ++ b)
    → All (λ u. timer_cmp (f t) (f u) ≡ Ordering.gt) a
    → HeadFits (λ x y. timer_cmp (f x) (f y)) t b
    → Sorted f (a ++ t ∷ b)
insert-Sorted f t [] [] s below fits = (tt, s)
insert-Sorted f t [] (y ∷ b) s below fits =
    let h = timer_cmp-le (f t) (f y) fits in
    ((h, All-later f (f t).expires (f y).expires b h s.0), s)
insert-Sorted f t (x ∷ a) b s below fits =
    let (before, after) = All-split (λ u. (f x).expires ≤ (f u).expires) a b s.0 in
    let h = timer_cmp-lt (f t) (f x) below.0 in
    (
      All-append (λ u. (f x).expires ≤ (f u).expires) a (t ∷ b) before (omega arith, after),
      insert-Sorted f t a b s.1 below.1 fits,
    )

module _ (g : ListOps) where
  pub occurs-remove :
      (t u : ℕ) (l : List ℕ) → occurs u (g.remove t l) ≡ occurs u l - (if t == u then 1 else 0)
  occurs-remove t u [] = rw (g.remove_nil t) (ground arith)
  occurs-remove t u (x ∷ l) = elim (ℕ_discrete t x) [
    | yes q ↦ rw (← q, g.remove_here t l) (ground arith)
    | no q ↦ rw (g.remove_there t x l q) (ground (arith, occurs-remove t u l))
  ]

  pub All-remove : (P : ℕ → Type 0) (t : ℕ) (l : List ℕ) → All P l → All P (g.remove t l)
  All-remove P t [] h = rw (g.remove_nil t) tt
  All-remove P t (x ∷ l) h = elim (ℕ_discrete t x) [
    | yes q ↦ rw (← q, g.remove_here t l) h.1
    | no q ↦ rw (g.remove_there t x l q) (h.0, All-remove P t l h.1)
  ]

  pub Sorted-remove : (f : ℕ → Timer) (t : ℕ) (l : List ℕ) → Sorted f l → Sorted f (g.remove t l)
  Sorted-remove f t [] h = rw (g.remove_nil t) tt
  Sorted-remove f t (x ∷ l) h = elim (ℕ_discrete t x) [
    | yes q ↦ rw (← q, g.remove_here t l) h.1
    | no q ↦
        rw (g.remove_there t x l q)
          (All-remove (λ u. (f x).expires ≤ (f u).expires) t l h.0, Sorted-remove f t l h.1)
  ]
