-- ===== src/Cld/Session/Queue.antt =====
-- The output queue of cld/session.c between sess_sendmsg and msg_ack.
use hail.Base.{
  ℕ, ◌≡◌, refl, sym, ◌∙◌, ap, Bool, true, false, Option, none, some, List, [], ◌∷◌, ◌++◌,
  append-nil, arith, Option-cases, All, length, ltb, ◌==◌, ◌||◌, if◌then◌else◌, inl, inr,
  Bool-cases,
}
use hail.Cld.{Op}
use hail.Cld.Session.{
  Body, Packet, OutPkt, Done, no_cb, ping_done, end_sess_done, Session, run_done, ack_loop,
  ack_queue, msg_ack, user_key, queue_all, session_outq, sendmsg, max_msg_sz,
}

-- The queue without the packets of a sequence number.
abbrev pub unacked : ℕ → List OutPkt → List OutPkt
unacked seqid [] = []
unacked seqid (o ∷ os) =
    if o.pkt.body.seqid == seqid then unacked seqid os else o ∷ unacked seqid os

-- The callbacks of the packets of a sequence number, in order.
abbrev pub run_acked : Session → ℕ → List OutPkt → Session
run_acked s seqid [] = s
run_acked s seqid (o ∷ os) =
    run_acked (if o.pkt.body.seqid == seqid then run_done s o.done else s) seqid os

pub ack_loop_lem :
    (s : Session) (seqid : ℕ) (os : List OutPkt)
    → ack_loop s seqid os ≡ (run_acked s seqid os, unacked seqid os)
unfolding ack_loop
ack_loop_lem s seqid [] = refl
ack_loop_lem s seqid (o ∷ os) = elim (Bool-cases (o.pkt.body.seqid == seqid)) [
  | inl hit ↦ rw (hit, ack_loop_lem (run_done s o.done) seqid os) refl
  | inr miss ↦ rw (miss, ack_loop_lem s seqid os) refl
]

-- The retry timer stops when the last packet goes.
abbrev pub timer_after : Option ℕ → List OutPkt → List OutPkt → Option ℕ
timer_after timer [] kept = timer
timer_after timer (o ∷ os) kept = elim kept [ [] ↦ none | _ ∷ _ ↦ timer ]

run_done-timer : (s : Session) (d : Done) → (run_done s d).retry_timer ≡ s.retry_timer
unfolding run_done
run_done-timer s no_cb = refl
run_done-timer s ping_done = refl
run_done-timer s end_sess_done = refl

run_acked-timer :
    (s : Session) (seqid : ℕ) (os : List OutPkt)
    → (run_acked s seqid os).retry_timer ≡ s.retry_timer
run_acked-timer s seqid [] = refl
run_acked-timer s seqid (o ∷ os) = elim (Bool-cases (o.pkt.body.seqid == seqid)) [
  | inl hit ↦
      rw (run_acked, hit) (run_acked-timer (run_done s o.done) seqid os ∙ run_done-timer s o.done)
  | inr miss ↦ rw (run_acked, miss) (run_acked-timer s seqid os)
]

ack_queue_lem :
    (s : Session) (seqid : ℕ) (q : List OutPkt)
    → s.out_q ≡ q
    → ((ack_queue s seqid q).out_q ≡ unacked seqid q)
      × ((ack_queue s seqid q).dead ≡ (run_acked s seqid q).dead)
      × ((ack_queue s seqid q).ping_open ≡ (run_acked s seqid q).ping_open)
      × ((ack_queue s seqid q).retry_timer ≡ timer_after s.retry_timer q (unacked seqid q))
unfolding ack_queue
ack_queue_lem s seqid [] e = (e, refl, refl, refl)
ack_queue_lem s seqid (o ∷ os) e =
    rw (ack_queue, ack_loop_lem s seqid (o ∷ os))
      (
        refl,
        refl,
        refl,
        ap (λ timer. timer_after timer (o ∷ os) (unacked seqid (o ∷ os)))
            (ap (λ r. r.0.retry_timer) (ack_loop_lem s seqid (o ∷ os))
              ∙ run_acked-timer s seqid (o ∷ os)),
      )

-- An acknowledgement takes exactly the packets of its number off the output queue, in order, runs
-- the effects of their callbacks on the session, and stops the retry timer exactly when the last
-- packet of a queue goes.
pub msg_ack-unacked :
    (s : Session) (seqid : ℕ)
    → ((msg_ack s seqid).out_q ≡ unacked seqid s.out_q)
      × ((msg_ack s seqid).dead ≡ (run_acked s seqid s.out_q).dead)
      × ((msg_ack s seqid).ping_open ≡ (run_acked s seqid s.out_q).ping_open)
      × ((msg_ack s seqid).retry_timer ≡ timer_after s.retry_timer s.out_q (unacked seqid s.out_q))
unfolding msg_ack
msg_ack-unacked s seqid = ack_queue_lem s seqid s.out_q refl

-- Acknowledgements of several numbers in a row.
abbrev pub ack_each : Session → List ℕ → Session
ack_each s [] = s
ack_each s (n ∷ ns) = ack_each (msg_ack s n) ns

abbrev mem : ℕ → List ℕ → Bool
mem x [] = false
mem x (n ∷ ns) = (x == n) || mem x ns

abbrev leaving : List ℕ → List OutPkt → List OutPkt
leaving ns [] = []
leaving ns (o ∷ os) = if mem o.pkt.body.seqid ns then leaving ns os else o ∷ leaving ns os

leaving-unacked :
    (n : ℕ) (ns : List ℕ) (q : List OutPkt) → leaving ns (unacked n q) ≡ leaving (n ∷ ns) q
leaving-unacked n ns [] = refl
leaving-unacked n ns (o ∷ os) = elim (Bool-cases (o.pkt.body.seqid == n)) [
  | inl hit ↦ rw hit (leaving-unacked n ns os)
  | inr miss ↦ rw miss (ground (arith, leaving-unacked n ns os))
]

leaving-nil : (q : List OutPkt) → leaving [] q ≡ q
leaving-nil [] = refl
leaving-nil (o ∷ os) = ap (◌∷◌ o) (leaving-nil os)

ack_each-leaving : (s : Session) (ns : List ℕ) → (ack_each s ns).out_q ≡ leaving ns s.out_q
ack_each-leaving s [] = sym (leaving-nil s.out_q)
ack_each-leaving s (n ∷ ns) =
    ack_each-leaving (msg_ack s n) ns
    ∙ ap (leaving ns) (msg_ack-unacked s n).0
    ∙ leaving-unacked n ns s.out_q

abbrev pub seqids : List Packet → List ℕ
seqids [] = []
seqids (p ∷ ps) = p.body.seqid ∷ seqids ps

-- No packet of the queue carries one of the numbers.
abbrev pub Unused : List ℕ → List OutPkt → Type 0
Unused ns = All (λ o. mem o.pkt.body.seqid ns ≡ false)

leaving-old : (ns : List ℕ) (old : List OutPkt) → Unused ns old → leaving ns old ≡ old
leaving-old ns [] h = refl
leaving-old ns (o ∷ os) h = rw h.0 (ap (◌∷◌ o) (leaving-old ns os h.1))

leaving-append :
    (ns : List ℕ) (a b : List OutPkt) → leaving ns (a ++ b) ≡ leaving ns a ++ leaving ns b
leaving-append ns [] b = refl
leaving-append ns (o ∷ a) b = rw (leaving-append ns a b) (ground arith)

module _ (hmac : List ℕ → Body → List ℕ) where
  leaving-new :
      (ns : List ℕ) (now : ℕ) (done : Done) (ps : List Packet)
      → ((x : ℕ) → mem x (seqids ps) ≡ true → mem x ns ≡ true)
      → leaving ns (queue_all hmac now done ps) ≡ []
  unfolding queue_all
  leaving-new ns now done [] sub = refl
  leaving-new ns now done (p ∷ ps) sub =
      rw (sub p.body.seqid (ground arith))
        (leaving-new ns now done ps (λ x h. sub x (ground arith)))

  -- Sent, the packets are queued behind the others.
  sendmsg-queues :
      (now xid : ℕ) (s s' : Session) (msg : Option (List ℕ)) (op : Op) (done : Done)
      → (pkts : List Packet) → sendmsg hmac now xid s msg op done ≡ (s', pkts, true)
      → s'.out_q ≡ s.out_q ++ queue_all hmac now done pkts
  unfolding sendmsg session_outq
  sendmsg-queues now xid s s' none op done pkts = λ e. cc
  sendmsg-queues now xid s s' (some msg) op done pkts =
      elim (Bool-cases (ltb max_msg_sz (length msg))) [
        | inl long ↦ rw long (λ e. cc)
        | inr fits ↦ rw fits (elim (Option-cases (user_key s.user)) [
          | inl keyless ↦ rw keyless (λ e. cc)
          | inr (key, has_key) ↦ rw has_key (λ e.
              sym (ap (λ r. r.0.out_q) e)
              ∙ ap (λ ps. s.out_q ++ queue_all hmac now done ps) (ap (λ r. r.1) e))
        ])
      ]

  -- Once every packet of a message that sess_sendmsg took is acknowledged, the output queue is
  -- what it was before, where no packet of that queue carried one of the message's numbers.
  pub sendmsg-ack_each :
      (now xid : ℕ) (s s' : Session) (msg : Option (List ℕ)) (op : Op) (done : Done)
      → (pkts : List Packet) → sendmsg hmac now xid s msg op done ≡ (s', pkts, true)
      → Unused (seqids pkts) s.out_q
      → (ack_each s' (seqids pkts)).out_q ≡ s.out_q
  sendmsg-ack_each now xid s s' msg op done pkts e fresh =
      let ns = seqids pkts in
      let rest : leaving ns s.out_q ++ leaving ns (queue_all hmac now done pkts) ≡ s.out_q =
        rw (leaving-old ns s.out_q fresh, leaving-new ns now done pkts (λ _ h. h))
          (append-nil s.out_q) in
      ack_each-leaving s' ns
      ∙ ap (leaving ns) (sendmsg-queues now xid s s' msg op done pkts e)
      ∙ leaving-append ns s.out_q (queue_all hmac now done pkts)
      ∙ rest
