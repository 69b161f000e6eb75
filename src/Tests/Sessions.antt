-- ===== src/Tests/Sessions.antt =====
-- Runs of the sessions of cld/session.c and of lib/cldc.c.
use hail.Base.{
  ◌+◌, ℕ, ◌≤◌, ◌≡◌, refl, Bool, true, false, none, some, List, [], ◌∷◌, ◌++◌, map, arith, inl, ◌⊎◌,
  if◌then◌else◌,
}
use hail.Cld.{open_op, event_op, nop}
use hail.Cld.Session.{
  Body, Packet, no_cb, ping_done, OutPkt, Session, user_key, fragments, number, seqid_after,
  sign_all, queue_all, session_outq, sendmsg, session_retry, msg_ack, sess_timeout,
}
use hail.Cld.Session.Fragments.{bodies}
use hail.Cld.Session.Queue.{
  unacked, run_acked, timer_after, msg_ack-unacked, ack_each, seqids, sendmsg-ack_each,
}
use hail.Cld.Session.Timeout.{kept, disposed, send_ping, session_timeout, session_timeout-cases}
use hail.Cld.Session.Retry.{resend, due, session_retry-due, session_retry-stale}
use hail.Cldc
use hail.Cldc.{Client, Rx, acked}
use hail.Cldc.Reassembly.{receive_all, replies, sendmsg-receive_all}
use hail.Cldc.Duplicates.{receive_pkt-again}

-- A signature that the runs can compute.
abbrev pub hmac : List ℕ → Body → List ℕ
hmac key b = key ++ b.payload

abbrev pub user : List ℕ
user = 117 ∷ 49 ∷ []

abbrev body : Bool → Bool → List ℕ → ℕ → Body
body first last payload seqid = record {
  sid = 8;
  user = user;
  first = first;
  last = last;
  info = none;
  payload = payload;
  seqid = seqid;
}

abbrev queued : ℕ → ℕ → OutPkt
queued seqid next = record {
  pkt = record { body = body true true [] seqid; sha = [] };
  next_retry = next;
  done = ping_done;
}

abbrev pub session : Session
session = record {
  sid = 8;
  sock_fd = 4;
  addr = 77;
  last_contact = 1000;
  next_fh = 3;
  next_seqid_in = 20;
  next_seqid_out = 40;
  out_q = queued 38 990 ∷ queued 39 1500 ∷ [];
  user = user;
  ping_open = true;
  dead = false;
  msg_op = nop;
  msg_xid = 0;
  msg_buf = [];
  retry_timer = some 2;
}

abbrev pub client : Client
client = record {
  sid = 8;
  next_seqid_out = 20;
  confirmed = true;
  expired = false;
  user = user;
  secret_key = user;
  addr = 77;
  next_seqid_in = 40;
  next_seqid_in_tr = 15;
  out_msg = [];
  msg_scan_time = 2000;
  expire_time = 3000;
  msg_buf_op = event_op;
  msg_buf = 1 ∷ 2 ∷ [];
}

abbrev pub short_msg : List ℕ
short_msg = 5 ∷ 6 ∷ 7 ∷ []

abbrev packets : List Packet
packets = (sendmsg hmac 1000 9 session (some short_msg) open_op no_cb).1

abbrev session_after : Session
session_after = (sendmsg hmac 1000 9 session (some short_msg) open_op no_cb).0

abbrev taken_by_socket : Packet → Bool
taken_by_socket p = true

msg_ack-unacked_example :
    ((msg_ack session 39).out_q ≡ unacked 39 session.out_q)
    × ((msg_ack session 39).dead ≡ (run_acked session 39 session.out_q).dead)
    × ((msg_ack session 39).ping_open ≡ (run_acked session 39 session.out_q).ping_open)
    × ((msg_ack session 39).retry_timer
        ≡ timer_after session.retry_timer session.out_q (unacked 39 session.out_q))
msg_ack-unacked_example = msg_ack-unacked session 39

sendmsg-ack_each_example : (ack_each session_after (seqids packets)).out_q ≡ session.out_q
unfolding sendmsg fragments number seqid_after sign_all queue_all session_outq user_key
sendmsg-ack_each_example =
    sendmsg-ack_each hmac 1000 9 session session_after (some short_msg) open_op no_cb packets refl
      (refl, (refl, tt))

session_retry-due_example :
    ((session_retry 1000 1000 taken_by_socket session).0.out_q ≡ map (resend 1000) session.out_q)
    × ((session_retry 1000 1000 taken_by_socket session).1 ≡ due 1000 session.out_q)
session_retry-due_example = session_retry-due 1000 1000 taken_by_socket session (λ p. refl)

session_retry-stale_example :
    (next : ℕ) × ((session_retry 1000 1000 taken_by_socket session).2 ≡ some (next, 1000))
    × (next ≤ 1000)
session_retry-stale_example =
    session_retry-stale 1000 1000 taken_by_socket session (λ p. refl)
      (omega arith, (omega arith, tt)) (inl (omega arith))

sendmsg-receive_all_example :
    receive_all hmac 1001 77 packets client
    ≡ replies hmac 1001 77 open_op short_msg (bodies packets)
unfolding sendmsg fragments number seqid_after sign_all queue_all session_outq user_key
    hail.Cldc.user_key
sendmsg-receive_all_example =
    sendmsg-receive_all hmac 1001 77 1000 9 session session_after user short_msg open_op no_cb
      packets client refl refl refl refl refl refl

abbrev again : Body
again = body false false (3 ∷ []) 39

receive_pkt-again_example :
    ((hail.Cldc.receive_pkt hmac 1001 77
        (some (record { body = again; sha = hmac user again }))
        client).0.msg_buf
      ≡ client.msg_buf ++ again.payload)
    × ((hail.Cldc.receive_pkt hmac 1001 77
          (some (record { body = again; sha = hmac user again }))
          client).1
        ≡ acked 39)
unfolding hail.Cldc.user_key
receive_pkt-again_example =
    receive_pkt-again hmac 1001 77 user client again refl (λ e. cc) refl refl refl refl refl
      (omega arith) (omega arith) (omega arith) (omega arith)

session_timeout-cases_example :
    ((session.dead ≡ true) ⊎ (session.last_contact + sess_timeout ≤ 1030))
      × (session_timeout hmac 1030 1030 9 session ≡ disposed)
    ⊎ ((session.dead ≡ false)
        × ((delay : ℕ) × (1 ≤ delay)
            × (1030 + delay ≤ session.last_contact + sess_timeout)
            × (session_timeout hmac 1030 1030 9 session
                ≡ kept
                    (if session.ping_open
                      then (session, [])
                      else send_ping hmac 1030 1030 9 session)
                    delay)))
session_timeout-cases_example = session_timeout-cases hmac 1030 1030 9 session
