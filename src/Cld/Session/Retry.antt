-- ===== src/Cld/Session/Retry.antt =====
-- What session_retry of cld/session.c sends again, and the time that it arms its timer with.
use hail.Base.{
  ℕ, ◌+◌, ◌≤◌, ◌<◌, ◌≡◌, refl, Bool, true, ◌||◌, some, List, [], ◌∷◌, map, arith, ◌⊎◌, All, ltb,
  ◌==◌, if◌then◌else◌, inl, inr, Bool-cases,
}
use hail.Cld.Session.{Packet, OutPkt, Session, retry_loop, session_retry}

abbrev pub resend : ℕ → OutPkt → OutPkt
resend now o = if ltb now o.next_retry then o else record o { next_retry = o.next_retry + 5 }

abbrev pub due : ℕ → List OutPkt → List Packet
due now [] = []
due now (o ∷ os) = if ltb now o.next_retry then due now os else o.pkt ∷ due now os

-- The least retry time, where 0 stands for none yet.
abbrev earliest : ℕ → List OutPkt → ℕ
earliest next [] = next
earliest next (o ∷ os) =
    earliest (if (next == 0) || ltb o.next_retry next then o.next_retry else next) os

retry_loop_lem :
    (now : ℕ) (tx : Packet → Bool) (next : ℕ) (q : List OutPkt)
    → ((p : Packet) → tx p ≡ true)
    → retry_loop now tx next q ≡ (map (resend now) q, due now q, earliest next q)
unfolding retry_loop
retry_loop_lem now tx next [] h = refl
retry_loop_lem now tx next (o ∷ os) h =
    let next' = if (next == 0) || ltb o.next_retry next then o.next_retry else next in
    elim (Bool-cases (ltb now o.next_retry)) [
      | inl later ↦ rw (retry_loop, retry_loop_lem now tx next' os h, later) refl
      | inr is_due ↦ rw (retry_loop, retry_loop_lem now tx next' os h, is_due, h o.pkt) refl
    ]

-- Where the socket takes every packet, a retry sends exactly the packets that are due, in the
-- order of the queue, postpones each of them by five seconds and keeps the others as they are.
pub session_retry-due :
    (current now : ℕ) (tx : Packet → Bool) (s : Session)
    → ((p : Packet) → tx p ≡ true)
    → ((session_retry current now tx s).0.out_q ≡ map (resend current) s.out_q)
      × ((session_retry current now tx s).1 ≡ due current s.out_q)
unfolding session_retry
session_retry-due current now tx s h = out_q_cases s.out_q refl
  where
    out_q_cases :
        (q : List OutPkt)
        → s.out_q ≡ q
        → ((session_retry current now tx s).0.out_q ≡ map (resend current) s.out_q)
          × ((session_retry current now tx s).1 ≡ due current s.out_q)
    out_q_cases [] e = rw (session_retry, e) (e, refl)
    out_q_cases (o ∷ os) e =
        rw (session_retry, e, retry_loop_lem current tx 0 s.out_q h, e) (refl, refl)

-- Some entry of the queue is due.
abbrev pub SomeDue : ℕ → List OutPkt → Type 0
SomeDue now [] = ⊥
SomeDue now (o ∷ os) = (o.next_retry ≤ now) ⊎ SomeDue now os

earliest_le :
    (next : ℕ) (q : List OutPkt) → 0 < next → All (λ o. 0 < o.next_retry) q → earliest next q ≤ next
earliest_le next [] h pos = omega arith
earliest_le next (o ∷ os) h pos =
    let next' = if (next == 0) || ltb o.next_retry next then o.next_retry else next in
    let step : next' ≤ next = ground arith in
    let some_time : 0 < next' = ground (arith, pos.0) in
    omega (arith, earliest_le next' os some_time pos.1)

earliest-SomeDue :
    (now next : ℕ) (q : List OutPkt)
    → All (λ o. 0 < o.next_retry) q
    → SomeDue now q
    → earliest next q ≤ now
earliest-SomeDue now next [] pos h = elim h [ ]
earliest-SomeDue now next (o ∷ os) pos (inr h) =
    earliest-SomeDue now (if (next == 0) || ltb o.next_retry next then o.next_retry else next) os
      pos.1 h
earliest-SomeDue now next (o ∷ os) pos (inl h) =
    let next' = if (next == 0) || ltb o.next_retry next then o.next_retry else next in
    let step : next' ≤ o.next_retry = ground arith in
    let some_time : 0 < next' = ground (arith, pos.0) in
    omega (arith, earliest_le next' os some_time pos.1)

-- Where the socket takes every packet, all retry times are positive and some packet is due, the
-- retry timer is armed with a delay that is reckoned to a time no later than the present.
pub session_retry-stale :
    (current now : ℕ) (tx : Packet → Bool) (s : Session)
    → ((p : Packet) → tx p ≡ true)
    → All (λ o. 0 < o.next_retry) s.out_q
    → SomeDue current s.out_q
    → (next : ℕ) × ((session_retry current now tx s).2 ≡ some (next, now)) × (next ≤ current)
unfolding session_retry
session_retry-stale current now tx s h pos is_due = out_q_cases s.out_q refl is_due
  where
    out_q_cases :
        (q : List OutPkt)
        → s.out_q ≡ q
        → SomeDue current q
        → (next : ℕ) × ((session_retry current now tx s).2 ≡ some (next, now)) × (next ≤ current)
    out_q_cases [] e d = elim d [ ]
    out_q_cases (o ∷ os) e d =
        rw (session_retry, e, retry_loop_lem current tx 0 s.out_q h, e)
          (earliest 0 (o ∷ os), refl, earliest-SomeDue current 0 (o ∷ os) (rw e at pos) d)
