-- ===== src/Cldc/Duplicates.antt =====
-- A packet that comes twice, lib/cldc.c.
use hail.Base.{
  ℕ, ◌+◌, ◌^◌, ◌≤◌, ◌<◌, ◌≡◌, ◌≢◌, refl, ◌∙◌, ap, true, false, none, some, List, [], ◌++◌, arith,
  length, ltb, ◌==◌,
}
use hail.Cld.Session.{Body, max_msg_sz}
use hail.Cldc.{
  Client, acked, user_key, append_payload, in_sequence, seqid_in_range, seqid_after_eq,
  expire_outmsg, next_op, begin_op, receive_pkt,
}
use hail.Cldc.Reassembly.{in_order, accept-default, receive_pkt-accepted}

-- The numbers that are remembered, short of wrap-around: the ones from `next_seqid_in_tr` on.
in_sequence-again :
    (c : Client) (seqid : ℕ)
    → seqid < c.next_seqid_in
    → c.next_seqid_in < 2 ^ 63
    → c.next_seqid_in_tr ≤ seqid
    → in_sequence c seqid ≡ some c
unfolding in_sequence seqid_in_range seqid_after_eq
in_sequence-again c seqid old small kept =
    let other : (seqid == c.next_seqid_in) ≡ false = ground (arith, old) in
    let after : seqid_after_eq seqid c.next_seqid_in_tr ≡ true = ground (arith, old, small, kept) in
    let before : seqid_after_eq c.next_seqid_in seqid ≡ true = ground (arith, old, small) in
    rw (other, seqid_in_range, after, before) refl

-- A genuine packet from inside a message whose number was taken already and is still remembered,
-- short of wrap-around and of the length limit, has its bytes added to the message once more, and
-- is acknowledged.
pub receive_pkt-again :
    (hmac : List ℕ → Body → List ℕ) (now from : ℕ) (key : List ℕ) (c : Client) (b : Body)
    → user_key c.user c.secret_key b.user ≡ some key
    → key ≢ []
    → c.addr ≡ from
    → in_order c.msg_buf_op ≡ true
    → b.first ≡ false
    → b.info ≡ none
    → b.last ≡ false
    → b.seqid < c.next_seqid_in
    → c.next_seqid_in < 2 ^ 63
    → c.next_seqid_in_tr ≤ b.seqid
    → length c.msg_buf + length b.payload ≤ max_msg_sz
    → ((receive_pkt hmac now from (some (record { body = b; sha = hmac key b })) c).0.msg_buf
        ≡ c.msg_buf ++ b.payload)
      × ((receive_pkt hmac now from (some (record { body = b; sha = hmac key b })) c).1
          ≡ acked b.seqid)
unfolding append_payload
receive_pkt-again hmac now from key c b has_key full peer ordered f i l old small kept fits =
    let d = begin_op b (expire_outmsg now c) in
    let same_op : next_op b c.msg_buf_op ≡ c.msg_buf_op = rw i refl in
    let short : ltb max_msg_sz (length c.msg_buf + length b.payload) ≡ false =
      ground (arith, fits) in
    let again = receive_pkt-accepted hmac now from key c d b has_key full peer (
      accept-default d b.seqid (next_op b c.msg_buf_op) (ap in_order same_op ∙ ordered)
      ∙ in_sequence-again d b.seqid old small kept) in
    rw (again, append_payload, f, l, short) (refl, refl)
