-- ===== src/Timer.antt =====
-- The timers of lib/libtimer.c. A timer is a number that stands for its address; its fields live in
-- a heap. Seconds do not wrap.
pub mod Glist
pub mod Sorted
pub mod Laws
pub mod Run
pub mod Updates
use Prim.Native.Nat.{Ordering}
use hail.Base.{
  ℕ, zero, suc, ◌+◌, ◌-◌, Bool, true, false, Option, none, some, List, [], ◌∷◌, ltb, ◌==◌,
  if◌then◌else◌,
}
use Glist.{ListOps}

pub record Timer : Type 0 where
  pub fired : Bool
  pub on_list : Bool
  pub expires : ℕ

pub record Timers : Type 0 where
  pub timer : ℕ → Timer
  pub list : List ℕ
  pub runmark : ℕ

-- The results 1, 0 and -1.
unfoldable pub timer_cmp : Timer → Timer → Ordering
timer_cmp a b =
    if ltb b.expires a.expires
    then Ordering.gt
    else (if a.expires == b.expires then Ordering.eq else Ordering.lt)

abbrev pub update {ℓ} : {A : Type ℓ} → (ℕ → A) → ℕ → A → ℕ → A
update f t v u = if t == u then v else f u

-- What a callback may do to the list.
pub data TimerOp : Type 0 where
  adds : ℕ → ℕ → TimerOp
  dels : ℕ → TimerOp

-- The head of the list is taken off and marked.
pub fire : Timers → ℕ → List ℕ → Timers
fire s t rest = record s {
  timer = update s.timer t (record (s.timer t) { on_list = false; fired = true });
  list = rest;
}

pub next_timeout : ℕ → Timers → List ℕ → ℕ
next_timeout now s [] = 0
next_timeout now s (t ∷ rest) = if ltb now (s.timer t).expires then (s.timer t).expires - now else 1

module _ (g : ListOps) where
  pub timer_add : Timers → ℕ → ℕ → Timers
  timer_add s t expires =
      let timer_list = if (s.timer t).on_list then g.remove t s.list else s.list in
      let time = if ltb expires (s.runmark + 1) then s.runmark + 1 else expires in
      let heap = update s.timer t (record { fired = false; on_list = true; expires = time }) in
      record s {
        timer = heap;
        list = g.insert_sorted (λ a b. timer_cmp (heap a) (heap b)) t timer_list;
      }

  pub timer_del : Timers → ℕ → Timers
  timer_del s t =
      if (s.timer t).on_list
      then record s {
        timer = update s.timer t (record (s.timer t) { on_list = false });
        list = g.remove t s.list;
      }
      else s

  pub apply_op : Timers → TimerOp → Timers
  apply_op s (adds t expires) = timer_add s t expires
  apply_op s (dels t) = timer_del s t

  pub apply_ops : Timers → List TimerOp → Timers
  apply_ops s [] = s
  apply_ops s (o ∷ os) = apply_ops (apply_op s o) os

  -- The loop; `none` says that the fuel ran out. `cb` is what the callback of a timer does.
  pub run_loop : ℕ → (ℕ → Timers → List TimerOp) → ℕ → Timers → List ℕ → Option Timers
  run_loop zero cb now s l = none
  run_loop (suc f) cb now s [] = some s
  run_loop (suc f) cb now s (t ∷ rest) =
      let s' = fire s t rest in
      let s'' = apply_ops s' (cb t s') in
      let later = run_loop f cb now s'' s''.list in
      if ltb now (s.timer t).expires then some s else later

  pub timers_run : ℕ → (ℕ → Timers → List TimerOp) → ℕ → Timers → Option (Timers × ℕ)
  unfolding run_loop next_timeout
  timers_run fuel cb now s = elim (run_loop fuel cb now (record s { runmark = now }) s.list) [
    | none ↦ none
    | some s' ↦ some (s', next_timeout now s' s'.list)
  ]
