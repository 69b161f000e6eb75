-- ===== src/Cld/Server.antt =====
-- The reception of client packets, cld/server.c: from a packet that was read, by cli_rd_pkt, to the
-- call of its handler. The table of sessions is the map that it stands for, and a session that the
-- code changes through its pointer is written back to it.
pub mod Parts
pub mod Steps
pub mod Safety
pub mod Newcomers
pub mod Greeting
pub mod Packets
pub mod Delivery
pub mod Interruption
use hail.Base.{
  ℕ, ◌+◌, ◌%◌, Bool, true, false, not, ◌&&◌, Option, none, some, List, [], ◌++◌, length, take, ltb,
  ◌==◌, if◌then◌else◌,
}
use hail.Cld.{
  Code, sess_exists, sess_inval, bad_pkt, sig_inval, Op, nop, new_sess, open_op, get_meta, get_op,
  put_op, close_op, del_op, lock_op, unlock_op, trylock, ack_op, end_sess, ping, not_master,
  event_op, ack_frag,
}
use hail.Cld.Session.{Body, Packet, Session, user_key, max_msg_sz, u64, msg_ack}
use hail.Cld.Dir.{same_bytes}
use hail.Cld.Signature.{authcheck}

-- struct client
pub record Conn : Type 0 where
  pub fd : ℕ
  pub addr : ℕ

pub record Server : Type 0 where
  pub sessions : ℕ → Option Session
  pub is_master : Bool
  pub up : Bool
  pub garbage : ℕ

-- struct pkt_info
pub record PktInfo : Type 0 where
  pub sess : Option Session
  pub seqid : ℕ
  pub xid : ℕ
  pub op : Op

-- What becomes of a packet: no answer, an answer by simple_sendresp or simple_sendmsg, or the call
-- of a handler, which a request gives the bytes of its message. `crashed` is a use of a session
-- that is not there.
pub data Action : Type 0 where
  dropped redirected : Action
  refused : Code → Action
  frag_acked : ℕ → Action
  request : Op → List ℕ → Action
  acked : ℕ → Action
  nop_reply new_session unexpected crashed : Action
  end_session : ℕ → Action

-- Where tcp_rx sends a whole message.
pub data Route : Type 0 where
  to_handler to_ack to_nop to_new to_end to_none : Route

unfoldable pub route : Op → Route
route get_op = to_handler
route get_meta = to_handler
route open_op = to_handler
route put_op = to_handler
route close_op = to_handler
route del_op = to_handler
route unlock_op = to_handler
route trylock = to_handler
route lock_op = to_handler
route ack_op = to_ack
route nop = to_nop
route new_sess = to_new
route end_sess = to_end
route ping = to_none
route not_master = to_none
route event_op = to_none
route ack_frag = to_none

abbrev pub is_ack : Op → Bool
is_ack ack_op = true
is_ack _ = false

abbrev pub is_new_sess : Op → Bool
is_new_sess new_sess = true
is_new_sess _ = false

abbrev pub store : ℕ → Session → Server → Server
store sid s sv = record sv { sessions = λ k. if k == sid then some s else sv.sessions k }

-- The op and the number of a message, which its first packet has.
abbrev pub first_info : Body → Option (Op × ℕ)
first_info b = if b.first then b.info else none

abbrev pub info_of : ℕ → Option Session → Option (Op × ℕ) → Option PktInfo
info_of seqid s (some (op, xid)) = some (record { sess = s; seqid = seqid; xid = xid; op = op })
info_of seqid none none = none
info_of seqid (some s) none =
    some (record { sess = some s; seqid = seqid; xid = s.msg_xid; op = s.msg_op })

unfoldable pub get_pkt_info : Server → Body → Option PktInfo
get_pkt_info sv b = info_of b.seqid (sv.sessions b.sid) (first_info b)

-- strncmp of two names over CLD_MAX_USERNAME bytes
abbrev pub same_user : List ℕ → List ℕ → Bool
same_user a b = same_bytes (take 32 a) (take 32 b)

-- The checks against the session that is there.
unfoldable pub check_session : PktInfo → Session → Body → Conn → Option Code
check_session info s b conn =
    if is_new_sess info.op
    then some sess_exists
    else (if not (s.addr == conn.addr)
        then some sess_inval
        else (if not (same_user b.user s.user)
            then some sess_inval
            else (if s.dead then some sess_inval else none)))

-- The error code, if there is one.
unfoldable pub validate_pkt_session : PktInfo → Body → Conn → Option Code
unfolding check_session
validate_pkt_session info b conn = elim info.sess [
  | none ↦ if is_new_sess info.op then none else some sess_inval
  | some s ↦ check_session info s b conn
]

-- What there is of the message before a packet, and whether the message still fits with it.
abbrev pub begun : Body → Session → List ℕ
begun b s = if b.first then [] else s.msg_buf

unfoldable pub message_fits : Body → Session → Bool
message_fits b s = not (ltb max_msg_sz (length (begun b s) + length b.payload))

-- tcp_rx on the session of a packet, up to the handling of a complete message.
unfoldable pub collect : ℕ → Conn → PktInfo → Body → Session → Session
unfolding message_fits
collect now conn info b s = record s {
  last_contact = now;
  sock_fd = conn.fd;
  next_seqid_in = if is_ack info.op then s.next_seqid_in else (s.next_seqid_in + 1) % u64;
  msg_op = if b.first then info.op else s.msg_op;
  msg_xid = if b.first then info.xid else s.msg_xid;
  msg_buf = if message_fits b s then begun b s ++ b.payload else begun b s;
}

-- The switch of tcp_rx, for a packet with a session `s`; `decodes` says whether the XDR code for an
-- op takes the bytes of a message.
unfoldable pub dispatch : (Op → List ℕ → Bool) → PktInfo → Session → Route → Session × Action
dispatch decodes info s to_handler =
    (s, if decodes info.op s.msg_buf then request info.op s.msg_buf else refused bad_pkt)
dispatch decodes info s to_ack = (msg_ack s info.seqid, acked info.seqid)
dispatch decodes info s to_nop = (s, nop_reply)
dispatch decodes info s to_new = (s, new_session)
dispatch decodes info s to_end = (s, end_session info.xid)
dispatch decodes info s to_none = (s, unexpected)

-- The switch for a packet without a session.
unfoldable pub dispatch_new : Route → Action
dispatch_new to_new = new_session
dispatch_new to_none = unexpected
dispatch_new _ = crashed

-- How tcp_rx ends, by whether the message still fits and whether the packet is its last, where
-- `r` is what the switch makes of the session.
unfoldable pub conclude :
    ℕ → ℕ → Bool → Bool → Session → Session × Action → Server → Server × Action
conclude sid seqid false last s r sv = (store sid s sv, refused bad_pkt)
conclude sid seqid true false s r sv = (store sid s sv, frag_acked seqid)
conclude sid seqid true true s r sv = (store sid r.0 sv, r.1)

unfoldable pub tcp_rx : (Op → List ℕ → Bool) → ℕ → Conn → PktInfo → Body → Server → Server × Action
unfolding message_fits collect dispatch dispatch_new route conclude
tcp_rx decodes now conn info b sv = elim info.sess [
  | none ↦ (sv, if b.last then dispatch_new (route info.op) else frag_acked info.seqid)
  | some s ↦
      let s1 = collect now conn info b s in
      conclude b.sid info.seqid (message_fits b s) b.last s1
        (dispatch decodes info s1 (route info.op)) sv
]

-- A refusal, a redirection or garbage ends cli_rd_pkt before the next read is asked for.
abbrev pub reads_on : Action → Bool
reads_on dropped = false
reads_on redirected = false
reads_on (refused code) = false
reads_on _ = true

module _ (hmac : List ℕ → Body → List ℕ) (decodes : Op → List ℕ → Bool) where
  -- The error code, if there is one; the key of a user is its name.
  unfoldable pub pkt_chk_sig : Packet → Option Code
  unfolding user_key authcheck
  pkt_chk_sig p =
      if authcheck hmac (user_key p.body.user) p.body p.sha then none else some sig_inval

  -- `none` is a packet that parse_pkt_header rejects. The last result says whether the connection
  -- is read on from.
  unfoldable pub cli_rd_pkt : ℕ → Conn → Option Packet → Server → Server × Action × Bool
  unfolding get_pkt_info validate_pkt_session pkt_chk_sig tcp_rx
  cli_rd_pkt now conn none sv = (record sv { garbage = (sv.garbage + 1) % u64 }, dropped, false)
  cli_rd_pkt now conn (some p) sv = elim (get_pkt_info sv p.body) [
    | none ↦ (record sv { garbage = (sv.garbage + 1) % u64 }, dropped, false)
    | some info ↦ elim (validate_pkt_session info p.body conn) [
      | some code ↦ (sv, refused code, false)
      | none ↦ elim (pkt_chk_sig p) [
        | some code ↦ (sv, refused code, false)
        | none ↦
            if not (sv.is_master && sv.up)
            then (sv, redirected, false)
            else (let (sv', act) = tcp_rx decodes now conn info p.body sv in
                (sv', act, reads_on act))
      ]
    ]
  ]
