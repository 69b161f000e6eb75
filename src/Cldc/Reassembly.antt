-- ===== src/Cldc/Reassembly.antt =====
-- The packets that cld/session.c makes of a message, taken in by lib/cldc.c.
use hail.Base.{
  ℕ, suc, ◌+◌, ◌%◌, ◌≤◌, ◌≡◌, ◌≢◌, refl, sym, ◌∙◌, ap, Bool, true, false, none, some, List, [], ◌∷◌,
  ◌++◌, append_assoc, append-nil, arith, length, length-append, ltb, ◌==◌, if◌then◌else◌, inl, inr,
  Bool-cases,
}
use hail.Cld.{
  Op, nop, new_sess, open_op, get_meta, get_op, put_op, close_op, del_op, lock_op, unlock_op,
  trylock, ack_op, end_sess, ping, not_master, event_op, ack_frag,
}
use hail.Cld.Session.{
  Body, Packet, Session, Done, sendmsg, max_msg_sz, u64, fragments, number, sign_all,
}
use hail.Cld.Session
use hail.Cld.Session.Fragments.{payloads, IsMessage, Consecutive, numbered, bodies, bodies-sign_all}
use hail.Cld.Signature.{authcheck-authsign, nonempty}
use hail.Cldc.{
  Client, Rx, acked, complete, user_key, in_sequence, accept_seqid, expire_outmsg, next_op,
  begin_op, append_payload, authentic, receive_pkt, sess_expire,
}

-- Any op whose packets are taken in the order of their numbers.
abbrev pub in_order : Op → Bool
in_order new_sess = false
in_order not_master = false
in_order ack_frag = false
in_order _ = true

abbrev pub advance : Client → Client
advance c = record c {
  next_seqid_in = (c.next_seqid_in + 1) % u64;
  next_seqid_in_tr = (c.next_seqid_in_tr + 1) % u64;
}

in_sequence-next :
    (c : Client) (seqid : ℕ) → seqid ≡ c.next_seqid_in → in_sequence c seqid ≡ some (advance c)
unfolding in_sequence
in_sequence-next c seqid e =
    let hit : (seqid == c.next_seqid_in) ≡ true = ground (arith, e) in rw hit refl

pub accept-default :
    (c : Client) (seqid : ℕ) (op : Op)
    → in_order op ≡ true
    → accept_seqid c seqid op ≡ in_sequence c seqid
unfolding accept_seqid
accept-default c seqid nop h = refl
accept-default c seqid new_sess h = cc
accept-default c seqid open_op h = refl
accept-default c seqid get_meta h = refl
accept-default c seqid get_op h = refl
accept-default c seqid put_op h = refl
accept-default c seqid close_op h = refl
accept-default c seqid del_op h = refl
accept-default c seqid lock_op h = refl
accept-default c seqid unlock_op h = refl
accept-default c seqid trylock h = refl
accept-default c seqid ack_op h = refl
accept-default c seqid end_sess h = refl
accept-default c seqid ping h = refl
accept-default c seqid not_master h = cc
accept-default c seqid event_op h = refl
accept-default c seqid ack_frag h = cc

accept-next :
    (c : Client) (seqid : ℕ) (op : Op)
    → in_order op ≡ true
    → seqid ≡ c.next_seqid_in
    → accept_seqid c seqid op ≡ some (advance c)
accept-next c seqid op h e = accept-default c seqid op h ∙ in_sequence-next c seqid e

le_of_ltb : (a b : ℕ) → ltb a b ≡ false → b ≤ a
le_of_ltb a b h = ground arith

Consecutive-at : (a b : ℕ) (bs : List Body) → a ≡ b → Consecutive b bs → Consecutive a bs
Consecutive-at a b bs e h = rw e h

module _ (hmac : List ℕ → Body → List ℕ) (now from : ℕ) where
  -- One after the other, with what each call returns.
  pub receive_all : List Packet → Client → List Rx
  receive_all [] c = []
  receive_all (p ∷ ps) c =
      let (c', rx) = receive_pkt hmac now from (some p) c in rx ∷ receive_all ps c'

  abbrev taken : Body → Client → Client
  taken b c = advance (begin_op b (expire_outmsg now c))

  -- What receive_pkt does with a packet that passes its checks.
  pub receive_pkt-accepted :
      (key : List ℕ) (c c2 : Client) (b : Body)
      → user_key c.user c.secret_key b.user ≡ some key
      → key ≢ []
      → c.addr ≡ from
      → accept_seqid (begin_op b (expire_outmsg now c)) b.seqid (next_op b c.msg_buf_op) ≡ some c2
      → receive_pkt hmac now from (some (record { body = b; sha = hmac key b })) c
        ≡ append_payload now b c2
  unfolding receive_pkt authentic
  receive_pkt-accepted key c c2 b has_key full peer accepted =
      let here : (c.addr == from) ≡ true = ground (arith, peer) in
      rw (receive_pkt, authentic, has_key, authcheck-authsign hmac key b full, here, accepted) refl

  receive_pkt-next :
      (key : List ℕ) (c : Client) (b : Body)
      → user_key c.user c.secret_key b.user ≡ some key
      → key ≢ []
      → c.addr ≡ from
      → b.seqid ≡ c.next_seqid_in
      → in_order (next_op b c.msg_buf_op) ≡ true
      → receive_pkt hmac now from (some (record { body = b; sha = hmac key b })) c
        ≡ append_payload now b (taken b c)
  receive_pkt-next key c b has_key full peer seq ordered =
      receive_pkt-accepted key c (taken b c) b has_key full peer (
        accept-next (begin_op b (expire_outmsg now c)) b.seqid (next_op b c.msg_buf_op) ordered seq)

  next_op_lem :
      (b : Body) (op : Op) (xid : ℕ) (first : Bool) (old : Op)
      → b.first ≡ first
      → b.info ≡ (if first then some (op, xid) else none)
      → (if first then op else old) ≡ op
      → next_op b old ≡ op
  next_op_lem b op xid true old f i h = rw (next_op, i, f) refl
  next_op_lem b op xid false old f i h = rw (next_op, i) h

  -- The client after a packet of a message of `op`, where `start` is what it had of the message.
  abbrev grown : Body → Op → List ℕ → Client → Client
  grown b op start c = record c {
    next_seqid_in = (c.next_seqid_in + 1) % u64;
    next_seqid_in_tr = (c.next_seqid_in_tr + 1) % u64;
    out_msg = (expire_outmsg now c).out_msg;
    msg_scan_time = (expire_outmsg now c).msg_scan_time;
    expire_time = now + sess_expire;
    msg_buf_op = op;
    msg_buf = start ++ b.payload;
  }

  append_payload-fits :
      (b : Body) (op : Op) (first last : Bool) (c : Client)
      → b.first ≡ first
      → b.last ≡ last
      → next_op b c.msg_buf_op ≡ op
      → length (if first then [] else c.msg_buf) + length b.payload ≤ max_msg_sz
      → append_payload now b (taken b c) ≡ (
        grown b op (if first then [] else c.msg_buf) c,
        if last
            then complete op ((if first then [] else c.msg_buf) ++ b.payload) b.seqid
            else acked b.seqid,
      )
  unfolding append_payload
  append_payload-fits b op first last c f l o fits =
      let start : List ℕ = if first then [] else c.msg_buf in
      let short : ltb max_msg_sz (length start + length b.payload) ≡ false = ground (arith, fits) in
      rw (append_payload, o, f, l, short) refl

  pub replies : Op → List ℕ → List Body → List Rx
  replies op whole [] = []
  replies op whole (b ∷ []) = complete op whole b.seqid ∷ []
  replies op whole (b ∷ c ∷ bs) = acked b.seqid ∷ replies op whole (c ∷ bs)

  module _ (s : Session) (key : List ℕ) (op : Op) (xid : ℕ) where
    round :
        (first last : Bool) (b : Body) (c : Client)
        → user_key c.user c.secret_key s.user ≡ some key
        → key ≢ []
        → c.addr ≡ from
        → in_order op ≡ true
        → (if first then op else c.msg_buf_op) ≡ op
        → b.user ≡ s.user
        → b.first ≡ first
        → b.last ≡ last
        → b.info ≡ (if first then some (op, xid) else none)
        → b.seqid ≡ c.next_seqid_in
        → length (if first then [] else c.msg_buf) + length b.payload ≤ max_msg_sz
        → receive_pkt hmac now from (some (record { body = b; sha = hmac key b })) c ≡ (
          grown b op (if first then [] else c.msg_buf) c,
          if last
              then complete op ((if first then [] else c.msg_buf) ++ b.payload) b.seqid
              else acked b.seqid,
        )
    round first last b c has_key full peer ordered started user f l i seq fits =
        let o = next_op_lem b op xid first c.msg_buf_op f i started in
        receive_pkt-next key c b (ap (user_key c.user c.secret_key) user ∙ has_key) full peer seq
          (ap in_order o ∙ ordered)
        ∙ append_payload-fits b op first last c f l o fits

    receive_all-replies :
        (first : Bool) (bs : List Body) (c : Client)
        → user_key c.user c.secret_key s.user ≡ some key
        → key ≢ []
        → c.addr ≡ from
        → in_order op ≡ true
        → (if first then op else c.msg_buf_op) ≡ op
        → IsMessage s (some (op, xid)) first bs
        → Consecutive c.next_seqid_in bs
        → length (if first then [] else c.msg_buf) + length (payloads bs) ≤ max_msg_sz
        → receive_all (sign_all hmac key bs) c
          ≡ replies op ((if first then [] else c.msg_buf) ++ payloads bs) bs
    unfolding sign_all receive_all replies
    receive_all-replies first [] c has_key full peer ordered started shape seqs fits =
        elim shape [ ]
    receive_all-replies first (b ∷ []) c has_key full peer ordered started shape seqs fits =
        let (_, user, f, l, i, _) = shape in
        let fits_here : length (if first then [] else c.msg_buf) + length b.payload ≤ max_msg_sz =
          omega (arith, fits, length-append b.payload []) in
        rw
          (
            receive_all,
            round first true b c has_key full peer ordered started user f l i seqs.0 fits_here,
            append-nil b.payload,
          )
          refl
    receive_all-replies first (b ∷ d ∷ bs) c has_key full peer ordered started shape seqs fits =
        let start : List ℕ = if first then [] else c.msg_buf in
        let ((_, user, f, l, i, _), rest) = shape in
        let split = length-append b.payload (payloads (d ∷ bs)) in
        let fits_here : length start + length b.payload ≤ max_msg_sz = omega (arith, fits, split) in
        let fits_rest : length (start ++ b.payload) + length (payloads (d ∷ bs)) ≤ max_msg_sz =
          omega (arith, fits, split, length-append start b.payload) in
        let ih =
          receive_all-replies false (d ∷ bs) (grown b op start c) has_key full peer ordered refl
            rest seqs.1 fits_rest in
        rw
          (
            receive_all,
            round first false b c has_key full peer ordered started user f l i seqs.0 fits_here,
          )
          (ap (◌∷◌ (acked b.seqid)) (
            ih
            ∙ ap (λ whole. replies op whole (d ∷ bs))
                (append_assoc start b.payload (payloads (d ∷ bs)))))

  -- Where sess_sendmsg took a message, the client that is handed its packets in the order in
  -- which they were made acknowledges each but the last, and the last completes the message with
  -- its op and exactly its bytes: where the two sides agree on user, key, address and next
  -- sequence number, the signature is a function of key and packet, and the op is not
  -- CMO_NEW_SESS, CMO_NOT_MASTER or CMO_ACK_FRAG.
  pub sendmsg-receive_all :
      (sent xid : ℕ) (s s' : Session) (key msg : List ℕ) (op : Op) (done : Done)
      (pkts : List Packet)
      → (c : Client) → sendmsg hmac sent xid s (some msg) op done ≡ (s', pkts, true)
      → Session.user_key s.user ≡ some key
      → user_key c.user c.secret_key s.user ≡ some key
      → c.addr ≡ from
      → c.next_seqid_in ≡ s.next_seqid_out
      → in_order op ≡ true
      → receive_all pkts c ≡ replies op msg (bodies pkts)
  unfolding sendmsg
  sendmsg-receive_all sent xid s s' key msg op done pkts c e signs has_key peer agree ordered =
      elim (Bool-cases (ltb max_msg_sz (length msg))) [
        | inl long ↦ cc (rw (sendmsg, long) at e)
        | inr fits ↦
            let bs = number s.next_seqid_out (fragments (suc (length msg)) s op xid true msg) in
            let (bytes, shape, seqs) = numbered s op xid s.next_seqid_out msg in
            let are : sign_all hmac key bs ≡ pkts =
              ap (λ r. r.1) (rw (sendmsg, fits, signs) at e) in
            let enough : length (payloads bs) ≤ max_msg_sz =
              omega (arith, le_of_ltb max_msg_sz (length msg) fits, ap length bytes) in
            rw (← are) (
              receive_all-replies s key op xid true bs c has_key (nonempty s.user key signs) peer
                ordered refl shape (Consecutive-at c.next_seqid_in s.next_seqid_out bs agree seqs)
                (omega (arith, enough))
              ∙ ap (λ whole. replies op whole bs) bytes
              ∙ ap (replies op msg) (sym (bodies-sign_all hmac key bs)))
      ]
