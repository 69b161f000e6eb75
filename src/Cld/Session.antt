-- ===== src/Cld/Session.antt =====
-- Sessions of the file service, cld/session.c: the output queue, its retries and acknowledgements.
pub mod Fragments
pub mod Queue
pub mod Frame
pub mod Retry
pub mod Timeout
use hail.Base.{
  ℕ, zero, suc, ◌+◌, ◌-◌, ◌%◌, ◌/◌, ◌^◌, Bool, true, false, not, ◌&&◌, ◌||◌, Option, none, some,
  List, [], ◌∷◌, ◌++◌, length, take, drop, ltb, leb, ◌==◌, if◌then◌else◌, get_elem?,
}
use hail.Cld.{Op, ping, RawSession}

-- CLD_MAX_PKT_MSG_SZ, CLD_MAX_MSG_SZ, CLD_RETRY_START, CLD_SESS_TIMEOUT
abbrev pub max_pkt_msg_sz : ℕ
max_pkt_msg_sz = 1024

abbrev pub max_msg_sz : ℕ
max_msg_sz = 196608

abbrev pub retry_start : ℕ
retry_start = 2

abbrev pub sess_timeout : ℕ
sess_timeout = 60

abbrev pub u64 : ℕ
u64 = 2 ^ 64

-- What a packet is signed over: its header, where `info` is there on a first packet, its piece of
-- the message, and the sequence number of the footer.
pub record Body : Type 0 where
  pub sid : ℕ
  pub user : List ℕ
  pub first : Bool
  pub last : Bool
  pub info : Option (Op × ℕ)
  pub payload : List ℕ
  pub seqid : ℕ

pub record Packet : Type 0 where
  pub body : Body
  pub sha : List ℕ

-- The callbacks that are given to sess_sendmsg.
pub data Done : Type 0 where
  no_cb ping_done end_sess_done : Done

pub record OutPkt : Type 0 where
  pub pkt : Packet
  pub next_retry : ℕ
  pub done : Done

-- Times are seconds; the two timers are the delays that they were last armed with.
pub record Session : Type 0 where
  pub sid : ℕ
  pub sock_fd : ℕ
  pub addr : ℕ
  pub last_contact : ℕ
  pub next_fh : ℕ
  pub next_seqid_in : ℕ
  pub next_seqid_out : ℕ
  pub out_q : List OutPkt
  pub user : List ℕ
  pub ping_open : Bool
  pub dead : Bool
  pub msg_op : Op
  pub msg_xid : ℕ
  pub msg_buf : List ℕ
  pub retry_timer : Option ℕ

-- user_key: the user's name is the key, unless it is empty or has no end within 32 bytes.
unfoldable pub user_key : List ℕ → Option (List ℕ)
user_key [] = none
user_key (c ∷ cs) = if leb 32 (length (c ∷ cs)) then none else some (c ∷ cs)

-- The loop that breaks a message into packets. Each round but the last takes 1024 bytes off, so
-- the length of the message is fuel enough.
unfoldable pub fragments : ℕ → Session → Op → ℕ → Bool → List ℕ → List Body
fragments zero s op xid first msg = []
fragments (suc f) s op xid first msg =
    let last = leb (length msg) max_pkt_msg_sz in
    let chunk = if last then msg else take max_pkt_msg_sz msg in
    let body : Body = record {
      sid = s.sid;
      user = s.user;
      first = first;
      last = last;
      info = if first then some (op, xid) else none;
      payload = chunk;
      seqid = 0;
    } in
    let more = fragments f s op xid false (drop max_pkt_msg_sz msg) in
    if last then body ∷ [] else body ∷ more

-- next_seqid_le, for each packet of a message
unfoldable pub number : ℕ → List Body → List Body
number seq [] = []
number seq (b ∷ bs) = record b { seqid = seq } ∷ number ((seq + 1) % u64) bs

unfoldable pub seqid_after : ℕ → List Body → ℕ
seqid_after seq [] = seq
seqid_after seq (b ∷ bs) = seqid_after ((seq + 1) % u64) bs

-- `hmac` is HMAC-SHA1 with a key over the bytes of a packet.
module _ (hmac : List ℕ → Body → List ℕ) where
  unfoldable pub sign_all : List ℕ → List Body → List Packet
  sign_all key [] = []
  sign_all key (b ∷ bs) = record { body = b; sha = hmac key b } ∷ sign_all key bs

  unfoldable pub queue_all : ℕ → Done → List Packet → List OutPkt
  queue_all now done [] = []
  queue_all now done (p ∷ ps) =
      record { pkt = p; next_retry = now + retry_start; done = done } ∷ queue_all now done ps

  -- session_outq
  unfoldable pub session_outq : Session → List OutPkt → Session
  session_outq s new = record s {
    out_q = s.out_q ++ new;
    retry_timer = elim s.out_q [ [] ↦ some retry_start | _ ∷ _ ↦ s.retry_timer ];
  }

  -- sess_sendmsg of a message that was serialised to `msg`, where `none` is a failure of that, with
  -- enough memory: the session, what is handed to the socket, and the result.
  unfoldable pub sendmsg :
      ℕ → ℕ → Session → Option (List ℕ) → Op → Done → Session × List Packet × Bool
  unfolding fragments number seqid_after sign_all queue_all session_outq
  sendmsg now xid s none op done = (s, [], false)
  sendmsg now xid s (some msg) op done =
      if ltb max_msg_sz (length msg)
      then (s, [], false)
      else (let bodies = fragments (suc (length msg)) s op xid true msg in
          elim (user_key s.user) [
            | none ↦ (record s { next_seqid_out = (s.next_seqid_out + 1) % u64 }, [], false)
            | some key ↦
                let pkts = sign_all key (number s.next_seqid_out bodies) in
                (
                  session_outq (record s { next_seqid_out = seqid_after s.next_seqid_out bodies })
                      (queue_all now done pkts),
                  pkts,
                  true,
                )
          ])

-- A done callback: session_ping_done, or end_sess_done, which marks the session dead.
pub run_done : Session → Done → Session
run_done s no_cb = s
run_done s ping_done = record s { ping_open = false }
run_done s end_sess_done = record s { dead = true }

-- The loop of msg_ack over the queue: the entries that stay, and the session after the callbacks.
pub ack_loop : Session → ℕ → List OutPkt → Session × List OutPkt
unfolding run_done
ack_loop s seqid [] = (s, [])
ack_loop s seqid (o ∷ os) =
    let hit = o.pkt.body.seqid == seqid in
    let (s', kept) = ack_loop (if hit then run_done s o.done else s) seqid os in
    if hit then (s', kept) else (s', o ∷ kept)

-- What msg_ack does to a session whose queue is `q`.
pub ack_queue : Session → ℕ → List OutPkt → Session
unfolding ack_loop
ack_queue s seqid [] = s
ack_queue s seqid (o ∷ os) =
    let (s', kept) = ack_loop s seqid (o ∷ os) in
    record s' { out_q = kept; retry_timer = elim kept [ [] ↦ none | _ ∷ _ ↦ s'.retry_timer ] }

pub msg_ack : Session → ℕ → Session
unfolding ack_queue
msg_ack s seqid = ack_queue s seqid s.out_q

-- sess_retry_output over the queue: the queue afterwards, the packets handed to the socket, and the
-- earliest retry time that was seen, 0 for none. `tx` says whether tcp_tx succeeds on a packet.
pub retry_loop : ℕ → (Packet → Bool) → ℕ → List OutPkt → List OutPkt × List Packet × ℕ
retry_loop now tx next [] = ([], [], next)
retry_loop now tx next (o ∷ os) =
    let next' = if (next == 0) || ltb o.next_retry next then o.next_retry else next in
    let (q, sent, n) = retry_loop now tx next' os in
    if ltb now o.next_retry
    then (o ∷ q, sent, n)
    else (if tx o.pkt
        then (record o { next_retry = o.next_retry + 5 } ∷ q, o.pkt ∷ sent, n)
        else (o ∷ os, o.pkt ∷ [], next'))

-- session_retry: with a queue, the timer is armed with the difference to the reported time. The
-- delay is written as the two times, since it may be negative.
pub session_retry : ℕ → ℕ → (Packet → Bool) → Session → Session × List Packet × Option (ℕ × ℕ)
unfolding retry_loop
session_retry current now tx s = elim s.out_q [
  | [] ↦ (s, [], none)
  | _ ∷ _ ↦
      let (q, sent, next) = retry_loop current tx 0 s.out_q in
      (record s { out_q = q }, sent, some (next, now))
]
