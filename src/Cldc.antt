-- ===== src/Cldc.antt =====
-- The client's side of a session, lib/cldc.c: what cldc_receive_pkt does with the packets of the
-- server, up to the call of rx_complete.
pub mod Reassembly
pub mod Duplicates
pub mod Messages
pub mod Sending
pub mod Listing
use hail.Base.{
  ℕ, ◌+◌, ◌-◌, ◌%◌, ◌^◌, Bool, true, false, not, ◌&&◌, Option, none, some, List, [], ◌∷◌, ◌++◌,
  length, ltb, leb, ◌==◌, if◌then◌else◌,
}
use hail.Cld.{Op, new_sess, not_master, ack_frag}
use hail.Cld.Session.{Body, Packet, max_msg_sz, u64}
use hail.Cld.Dir.{same_bytes}
use hail.Cld.Signature.{authcheck}

-- CLDC_MSG_SCAN, CLDC_MSG_REMEMBER, CLDC_SESS_EXPIRE
abbrev pub msg_scan : ℕ
msg_scan = 60

abbrev pub msg_remember : ℕ
msg_remember = 25

abbrev pub sess_expire : ℕ
sess_expire = 120

-- struct cldc_msg: a message and its packets.
pub record OutMsg : Type 0 where
  pub xid : ℕ
  pub op : Op
  pub done : Bool
  pub expire_time : ℕ
  pub pkts : List Packet

-- struct cldc_session
pub record Client : Type 0 where
  pub sid : ℕ
  pub user : List ℕ
  pub secret_key : List ℕ
  pub addr : ℕ
  pub next_seqid_in : ℕ
  pub next_seqid_in_tr : ℕ
  pub next_seqid_out : ℕ
  pub confirmed : Bool
  pub expired : Bool
  pub out_msg : List OutMsg
  pub msg_scan_time : ℕ
  pub expire_time : ℕ
  pub msg_buf_op : Op
  pub msg_buf : List ℕ

pub data Errno : Type 0 where
  eproto eacces ebade ebadslt : Errno

-- How cldc_receive_pkt ends: an error, an ACK of a packet, or rx_complete with a whole message.
pub data Rx : Type 0 where
  refused : Errno → Rx
  acked : ℕ → Rx
  complete : Op → List ℕ → ℕ → Rx

-- user_key, for a session of `sess_user` with `secret_key`
unfoldable pub user_key : List ℕ → List ℕ → List ℕ → Option (List ℕ)
user_key sess_user secret_key [] = none
user_key sess_user secret_key (u ∷ us) =
    if leb 32 (length (u ∷ us))
    then none
    else (if same_bytes sess_user (u ∷ us) then some secret_key else none)

-- seqid_after_eq, seqid_before_eq and seqid_in_range of include/cldc.h: the sign of the difference
-- as a signed 64-bit number.
unfoldable pub seqid_after_eq : ℕ → ℕ → Bool
seqid_after_eq a b = ltb ((a + u64 - b) % u64) (2 ^ 63)

unfoldable pub seqid_in_range : ℕ → ℕ → ℕ → Bool
unfolding seqid_after_eq
seqid_in_range a b c = seqid_after_eq a b && seqid_after_eq c a

-- The default case of accept_seqid.
unfoldable pub in_sequence : Client → ℕ → Option Client
unfolding seqid_in_range
in_sequence c seqid =
    if seqid == c.next_seqid_in
    then some (record c {
      next_seqid_in = (c.next_seqid_in + 1) % u64;
      next_seqid_in_tr = (c.next_seqid_in_tr + 1) % u64;
    })
    else (if seqid_in_range seqid c.next_seqid_in_tr c.next_seqid_in then some c else none)

unfoldable pub accept_seqid : Client → ℕ → Op → Option Client
unfolding in_sequence
accept_seqid c seqid new_sess = some (record c {
  next_seqid_in = (seqid + 1) % u64;
  next_seqid_in_tr = ((seqid + 1) % u64 + u64 - msg_remember) % u64;
})
accept_seqid c seqid not_master = some c
accept_seqid c seqid ack_frag = some c
accept_seqid c seqid _ = in_sequence c seqid

abbrev pub unexpired : ℕ → List OutMsg → List OutMsg
unexpired now [] = []
unexpired now (m ∷ ms) = if ltb m.expire_time now then unexpired now ms else m ∷ unexpired now ms

-- sess_expire_outmsg, when it is due
abbrev pub expire_outmsg : ℕ → Client → Client
expire_outmsg now c = record c {
  out_msg = if leb c.msg_scan_time now then unexpired now c.out_msg else c.out_msg;
  msg_scan_time = if leb c.msg_scan_time now then now + msg_scan else c.msg_scan_time;
}

-- The message op: a first packet says its own.
abbrev pub next_op : Body → Op → Op
next_op b old = elim b.info [ none ↦ old | some (op, xid) ↦ if b.first then op else old ]

abbrev pub begin_op : Body → Client → Client
begin_op b c = record c { msg_buf_op = next_op b c.msg_buf_op }

-- From the check of the message's length on.
unfoldable pub append_payload : ℕ → Body → Client → Client × Rx
append_payload now b c =
    let start = if b.first then [] else c.msg_buf in
    let c1 : Client = record c { msg_buf = start } in
    if ltb max_msg_sz (length start + length b.payload)
    then (c1, refused eproto)
    else (let c2 : Client = record c1 {
      msg_buf = start ++ b.payload;
      expire_time = now + sess_expire;
    } in
        (c2, if b.last then complete c2.msg_buf_op c2.msg_buf b.seqid else acked b.seqid))

-- `hmac` signs; `none` is a packet whose header cannot be decoded or has the wrong magic.
module _ (hmac : List ℕ → Body → List ℕ) where
  unfoldable pub authentic : Client → Packet → Bool
  unfolding user_key authcheck
  authentic c p = authcheck hmac (user_key c.user c.secret_key p.body.user) p.body p.sha

  unfoldable pub receive_pkt : ℕ → ℕ → Option Packet → Client → Client × Rx
  unfolding authentic accept_seqid append_payload
  receive_pkt now from none c = (c, refused eproto)
  receive_pkt now from (some p) c =
      if not (authentic c p)
      then (c, refused eacces)
      else (if not (c.addr == from)
          then (c, refused ebade)
          else (let c1 = begin_op p.body (expire_outmsg now c) in
              elim (accept_seqid c1 p.body.seqid c1.msg_buf_op) [
                | none ↦ (c1, refused ebadslt)
                | some c2 ↦ append_payload now p.body c2
              ]))
