-- ===== src/Cldc/Messages.antt =====
-- The messages that a client sends, lib/cldc.c: cldc_new_msg, sess_send and the requests.
use hail.Base.{
  ℕ, zero, suc, ◌+◌, ◌/◌, ◌%◌, Bool, true, false, not, ◌||◌, Option, none, some, List, [], ◌∷◌,
  length, take, drop, ltb, ◌==◌, if◌then◌else◌,
}
use hail.Cld.{
  Op, nop, new_sess, open_op, get_op, put_op, close_op, del_op, lock_op, unlock_op, trylock,
  end_sess,
}
use hail.Cld.Session.{Body, Packet, u64}
use hail.Cld.Signature.{authsign}
use hail.Cldc.{Client, OutMsg, user_key}

-- CLDC_MSG_EXPIRE, CLD_INODE_NAME_MAX, CLD_MAX_PAYLOAD_SZ
abbrev pub msg_expire : ℕ
msg_expire = 300

abbrev pub inode_name_max : ℕ
inode_name_max = 256

abbrev pub max_payload_sz : ℕ
max_payload_sz = 131072

-- The number of packets for a body: one, if there is none.
unfoldable pub n_pkts : ℕ → ℕ
n_pkts len = if len == 0 then 1 else (len + 1023) / 1024

-- The loop of cldc_new_msg, which has `n` packets left to make.
unfoldable pub make_pkts : Client → Op → ℕ → ℕ → Bool → List ℕ → List Body
make_pkts c op xid zero first body = []
make_pkts c op xid (suc n) first body =
    record {
      sid = c.sid;
      user = c.user;
      first = first;
      last = n == 0;
      info = if first then some (op, xid) else none;
      payload = take 1024 body;
      seqid = 0;
    }
    ∷ make_pkts c op xid n false (drop 1024 body)

-- What came of sess_send: it ended with 0, the signature failed, or the transport did.
pub data Sent : Type 0 where
  sent unsigned not_sent : Sent

module _ (hmac : List ℕ → Body → List ℕ) (pkt_send : Packet → Bool) where
  -- The loop of sess_send from a sequence number on: the next number, the packets that the
  -- transport was given, and the result.
  unfoldable pub send_pkts : Option (List ℕ) → ℕ → List Body → ℕ × List Packet × Sent
  unfolding authsign
  send_pkts key seq [] = (seq, [], sent)
  send_pkts key seq (b ∷ bs) =
      let b1 : Body = record b { seqid = seq } in
      let (next, pkts, result) = send_pkts key ((seq + 1) % u64) bs in
      elim (authsign hmac key b1) [
        | none ↦ ((seq + 1) % u64, [], unsigned)
        | some sha ↦
            let p : Packet = record { body = b1; sha = sha } in
            if pkt_send p then (next, p ∷ pkts, result) else ((seq + 1) % u64, p ∷ [], not_sent)
      ]

  -- cldc_new_msg, with memory, of a body that was encoded, and sess_send. A message that was not
  -- sent whole is not kept.
  unfoldable pub send_msg : ℕ → ℕ → Client → Op → List ℕ → Client × List Packet × Sent
  unfolding n_pkts make_pkts send_pkts user_key
  send_msg now xid c op body =
      let bodies = make_pkts c op xid (n_pkts (length body)) true body in
      let key = user_key c.user c.secret_key c.user in
      let (next, pkts, result) = send_pkts key c.next_seqid_out bodies in
      let msg : OutMsg = record {
        xid = xid;
        op = op;
        done = false;
        expire_time = now + msg_expire;
        pkts = pkts;
      } in
      (
        record c {
          next_seqid_out = next;
          out_msg = elim result [
            | sent ↦ msg ∷ c.out_msg
            | unsigned ↦ c.out_msg
            | not_sent ↦ c.out_msg
          ];
        },
        pkts,
        result,
      )

-- struct cldc_fh
pub record Fh : Type 0 where
  pub fh : ℕ
  pub valid : Bool

-- The requests of a client, as the arguments of their XDR codes.
pub data Request : Type 0 where
  nop_req new_sess_req end_sess_req : Request
  del_req : List ℕ → Request
  open_req : List ℕ → ℕ → ℕ → Request
  close_req : ℕ → Request
  lock_req : ℕ → ℕ → Bool → Request
  unlock_req : ℕ → Request
  put_req : ℕ → List ℕ → Request
  get_req : ℕ → Request

unfoldable pub op_of : Request → Op
op_of nop_req = nop
op_of new_sess_req = new_sess
op_of end_sess_req = end_sess
op_of (del_req path) = del_op
op_of (open_req path mode events) = open_op
op_of (close_req fh) = close_op
op_of (lock_req fh flags wait) = if wait then lock_op else trylock
op_of (unlock_req fh) = unlock_op
op_of (put_req fh bytes) = put_op
op_of (get_req fh) = get_op

-- The first byte is a slash, and the length at most CLD_INODE_NAME_MAX.
unfoldable pub bad_path : List ℕ → Bool
bad_path [] = true
bad_path (c ∷ cs) = not (c == 47) || ltb inode_name_max (length (c ∷ cs))

-- The results of a request: -EINVAL, -EPIPE, or what sess_send returned.
pub data Result : Type 0 where
  einval epipe : Result
  result : Sent → Result

-- `encode` is the XDR code that rpcgen makes.
module _ (hmac : List ℕ → Body → List ℕ) (pkt_send : Packet → Bool) (encode : Request → List ℕ)
    (now xid : ℕ) where
  unfoldable pub send_request : Client → Request → Client × List Packet × Result
  unfolding send_msg op_of
  send_request c req =
      let (c', pkts, r) = send_msg hmac pkt_send now xid c (op_of req) (encode req) in
      (c', pkts, result r)

  unfoldable pub cldc_nop : Client → Client × List Packet × Result
  unfolding send_request
  cldc_nop c = if not c.confirmed then (c, [], einval) else send_request c nop_req

  unfoldable pub cldc_end_sess : Client → Client × List Packet × Result
  unfolding send_request
  cldc_end_sess c = if not c.confirmed then (c, [], einval) else send_request c end_sess_req

  unfoldable pub cldc_del : Client → List ℕ → Client × List Packet × Result
  unfolding send_request bad_path
  cldc_del c path =
      if not c.confirmed
      then (c, [], einval)
      else (if bad_path path then (c, [], einval) else send_request c (del_req path))

  unfoldable pub cldc_open : Client → List ℕ → ℕ → ℕ → Client × List Packet × Result
  unfolding send_request bad_path
  cldc_open c path mode events =
      if not c.confirmed
      then (c, [], einval)
      else (if bad_path path then (c, [], einval) else send_request c (open_req path mode events))

  -- The handle is no longer valid once the message is made.
  unfoldable pub cldc_close : Client → Fh → Fh × Client × List Packet × Result
  unfolding send_request
  cldc_close c fh =
      let (c', pkts, r) = send_request c (close_req fh.fh) in
      if not fh.valid
      then (fh, c, [], einval)
      else (if c.expired
          then (record fh { valid = false }, c, [], epipe)
          else (record fh { valid = false }, c', pkts, r))

  unfoldable pub cldc_lock : Client → Fh → ℕ → Bool → Client × List Packet × Result
  unfolding send_request
  cldc_lock c fh flags wait =
      if not fh.valid then (c, [], einval) else send_request c (lock_req fh.fh flags wait)

  unfoldable pub cldc_unlock : Client → Fh → Client × List Packet × Result
  unfolding send_request
  cldc_unlock c fh = if not fh.valid then (c, [], einval) else send_request c (unlock_req fh.fh)

  -- The result of sess_send is not looked at.
  unfoldable pub cldc_put : Client → Fh → List ℕ → Client × List Packet × Result
  unfolding send_request
  cldc_put c fh bytes =
      let (c', pkts, _) = send_request c (put_req fh.fh bytes) in
      if (length bytes == 0) || ltb max_payload_sz (length bytes)
      then (c, [], einval)
      else (if not fh.valid then (c, [], einval) else (c', pkts, result sent))

  -- The choice of the metadata alone is not looked at.
  unfoldable pub cldc_get : Client → Fh → Bool → Client × List Packet × Result
  unfolding send_request
  cldc_get c fh metadata_only =
      if not fh.valid then (c, [], einval) else send_request c (get_req fh.fh)
