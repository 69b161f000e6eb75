-- ===== src/Cld/Session/Frame.antt =====
-- What msg_ack of cld/session.c leaves alone of a session.
use hail.Base.{
  ℕ, ◌≡◌, refl, ◌∙◌, ap, Bool, true, false, List, [], ◌∷◌, All, ◌==◌, inl, inr, Bool-cases,
}
use hail.Cld.{Op}
use hail.Cld.Session.{
  OutPkt, Done, no_cb, ping_done, end_sess_done, Session, run_done, ack_queue, msg_ack,
}
use hail.Cld.Session.Queue.{unacked, run_acked, ack_loop_lem, msg_ack-unacked}

-- Whose the session is, and the message that it is receiving.
abbrev pub frame : Session → ℕ × List ℕ × Op × ℕ × List ℕ
frame s = (s.addr, s.user, s.msg_op, s.msg_xid, s.msg_buf)

run_done-frame : (s : Session) (d : Done) → frame (run_done s d) ≡ frame s
unfolding run_done
run_done-frame s no_cb = refl
run_done-frame s ping_done = refl
run_done-frame s end_sess_done = refl

run_acked-frame :
    (s : Session) (seqid : ℕ) (os : List OutPkt) → frame (run_acked s seqid os) ≡ frame s
run_acked-frame s seqid [] = refl
run_acked-frame s seqid (o ∷ os) = elim (Bool-cases (o.pkt.body.seqid == seqid)) [
  | inl hit ↦
      rw (run_acked, hit) (run_acked-frame (run_done s o.done) seqid os ∙ run_done-frame s o.done)
  | inr miss ↦ rw (run_acked, miss) (run_acked-frame s seqid os)
]

ack_queue-frame :
    (s : Session) (seqid : ℕ) (q : List OutPkt) → frame (ack_queue s seqid q) ≡ frame s
unfolding ack_queue
ack_queue-frame s seqid [] = refl
ack_queue-frame s seqid (o ∷ os) =
    ap (λ r. frame r.0) (ack_loop_lem s seqid (o ∷ os)) ∙ run_acked-frame s seqid (o ∷ os)

pub msg_ack-frame : (s : Session) (seqid : ℕ) → frame (msg_ack s seqid) ≡ frame s
unfolding msg_ack
msg_ack-frame s seqid = ack_queue-frame s seqid s.out_q

abbrev pub ends : Done → Bool
ends no_cb = false
ends ping_done = false
ends end_sess_done = true

-- No packet of the queue is the answer to CMO_END_SESS.
abbrev pub NotEnding : List OutPkt → Type 0
NotEnding = All (λ o. ends o.done ≡ false)

run_done-dead : (s : Session) (d : Done) → ends d ≡ false → (run_done s d).dead ≡ s.dead
unfolding run_done
run_done-dead s no_cb h = refl
run_done-dead s ping_done h = refl
run_done-dead s end_sess_done h = cc

run_acked-dead :
    (s : Session) (seqid : ℕ) (os : List OutPkt)
    → NotEnding os
    → (run_acked s seqid os).dead ≡ s.dead
run_acked-dead s seqid [] h = refl
run_acked-dead s seqid (o ∷ os) h = elim (Bool-cases (o.pkt.body.seqid == seqid)) [
  | inl hit ↦
      rw (run_acked, hit)
        (run_acked-dead (run_done s o.done) seqid os h.1 ∙ run_done-dead s o.done h.0)
  | inr miss ↦ rw (run_acked, miss) (run_acked-dead s seqid os h.1)
]

pub msg_ack-dead : (s : Session) (seqid : ℕ) → NotEnding s.out_q → (msg_ack s seqid).dead ≡ s.dead
msg_ack-dead s seqid h = (msg_ack-unacked s seqid).1 ∙ run_acked-dead s seqid s.out_q h

unacked-NotEnding : (seqid : ℕ) (q : List OutPkt) → NotEnding q → NotEnding (unacked seqid q)
unacked-NotEnding seqid [] h = tt
unacked-NotEnding seqid (o ∷ os) h = elim (Bool-cases (o.pkt.body.seqid == seqid)) [
  | inl hit ↦ rw hit (unacked-NotEnding seqid os h.1)
  | inr miss ↦ rw miss (h.0, unacked-NotEnding seqid os h.1)
]

pub msg_ack-NotEnding :
    (s : Session) (seqid : ℕ) → NotEnding s.out_q → NotEnding (msg_ack s seqid).out_q
msg_ack-NotEnding s seqid h = rw ((msg_ack-unacked s seqid).0) (unacked-NotEnding seqid s.out_q h)
