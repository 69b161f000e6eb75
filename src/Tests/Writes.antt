-- ===== src/Tests/Writes.antt =====
-- Runs of the asynchronous writes of lib/atcp.c.
use hail.Base.{
  inl, inr, Bool-cases, ℕ, ◌≡◌, refl, true, Option, none, some, List, [], ◌∷◌, ◌++◌, arith, Bool,
  if◌then◌else◌, ◌==◌,
}
use hail.Atcp.{Write, WrState, atcp_writeq, wr_event, wr_init, took, wr_iov}
use hail.Atcp.Stream.{stream, callbacks, Pending}
use hail.Atcp.Order.{marks, new_writes, wr_event-in_order}
use hail.Atcp.Count.{Short, IsValid, Reach, here, next, queued, ready, Reach-IsValid}

-- The callback with the data 1 queues one more write.
abbrev reacts : ℕ → List (List ℕ × Option ℕ)
reacts f = if f == 1 then (9 ∷ [], none) ∷ [] else []

abbrev returns : ℕ → Bool
returns f = true

abbrev two : WrState
two = record {
  writing = true;
  write_cnt = 5;
  write_cnt_max = 5;
  write_q =
      record { buf = 1 ∷ 2 ∷ []; whole = 2; cb = some 1 }
      ∷ record { buf = 3 ∷ 4 ∷ 5 ∷ []; whole = 3; cb = some 2 }
      ∷ [];
  write_compl_q = [];
  opt_write = 0;
}

wr_event-in_order_example :
    let r = wr_event reacts returns true (took 3) two in
    (done : List Write) × (kept : List Write) × (callbacks done ++ callbacks kept ≡ 1 ∷ 2 ∷ [])
    × (stream kept ≡ 4 ∷ 5 ∷ [])
    × Pending kept
    × (r.1 ≡ marks true ([] ++ callbacks done))
    × (r.0.write_q ≡ kept ++ new_writes reacts returns ([] ++ callbacks done))
    × (r.0.write_compl_q ≡ [])
wr_event-in_order_example =
    wr_event-in_order reacts returns 3 two (omega arith) (omega arith, (omega arith, tt))

abbrev one : WrState
one = (atcp_writeq (1 ∷ 2 ∷ []) (some 1) wr_init).0

reacts-Short : (f : ℕ) → Short (reacts f)
reacts-Short f = elim (Bool-cases (f == 1)) [
  | inl first ↦ rw first (omega arith, tt)
  | inr other ↦ rw other tt
]

one-Reach : Reach reacts returns reacts-Short wr_init one
one-Reach = next here (queued (1 ∷ 2 ∷ []) (some 1) (omega arith) refl)

abbrev sent : WrState
sent = (wr_event reacts returns true (took 2) one).0

Reach-IsValid_example : IsValid sent
unfolding wr_iov atcp_writeq wr_init
Reach-IsValid_example =
    Reach-IsValid reacts returns reacts-Short sent
      (next one-Reach (ready true (took 2) (omega arith) refl))
