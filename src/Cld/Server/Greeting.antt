-- ===== src/Cld/Server/Greeting.antt =====
-- The greeting of a client: msg_new_sess of cld/session.c and the reply at lib/cldc.c.
use hail.Base.{
  ℕ, suc, ◌+◌, ◌-◌, ◌%◌, ◌≤◌, ◌<◌, ◌≡◌, ◌≢◌, refl, ◌∙◌, Bool, true, false, ◌&&◌, some, List, [],
  ◌∷◌, length, take, take-all, ltb, leb, ==_refl, inl, inr, Bool-cases, some-inj, arith,
}
use hail.Cld.{Code, ok_code, Op, new_sess}
use hail.Cld.Db.{Db, ok}
use hail.Cld.Session.{
  Body, Packet, Session, Done, no_cb, u64, user_key, fragments, number, seqid_after, sign_all,
  queue_all, session_outq, sendmsg,
}
use hail.Cld.Signature.{nonempty, same_bytes_refl}
use hail.Cld.Server.{Conn, Server, same_user}
use hail.Cld.Server.Packets.{Ready}
use hail.Cld.Server.Newcomers.{Table, session_encode, newcomer, welcomed, msg_new_sess}
use hail.Htab.{need_resize, get}
use hail.Htab.Buckets.{IsValid}
use hail.Htab.Laws.{put-get}
use hail.Cldc
use hail.Cldc.{
  Client, Rx, complete, accept_seqid, begin_op, expire_outmsg, append_payload, receive_pkt,
  msg_remember,
}
use hail.Cldc.Reassembly.{receive_pkt-accepted}
use hail.Cldc.Sending.{own_key}

key_lem : (user key : List ℕ) → user_key user ≡ some key → (length user < 32) × (user ≡ key)
unfolding user_key
key_lem [] key h = cc
key_lem (c ∷ cs) key h = elim (Bool-cases (leb 32 (length (c ∷ cs)))) [
  | inl long ↦ cc (rw (user_key, long) at (h))
  | inr fits ↦ (ground (arith, fits), some-inj (rw (user_key, fits) at (h)))
]

-- The packet of a message that fits in one.
abbrev pub only : Session → Op → ℕ → List ℕ → Body
only s op xid msg = record {
  sid = s.sid;
  user = s.user;
  first = true;
  last = true;
  info = some (op, xid);
  payload = msg;
  seqid = s.next_seqid_out;
}

fragments_one :
    (s : Session) (op : Op) (xid : ℕ) (msg : List ℕ)
    → leb (length msg) 1024 ≡ true
    → fragments (suc (length msg)) s op xid true msg ≡ record (only s op xid msg) { seqid = 0 } ∷ []
unfolding fragments
fragments_one s op xid msg one = rw (fragments, one) refl

module _ (hmac : List ℕ → Body → List ℕ) where
  sendmsg-only :
      (now xid : ℕ) (s : Session) (msg key : List ℕ) (op : Op) (done : Done)
      → length msg ≤ 1024
      → user_key s.user ≡ some key
      → let p : Packet = record { body = only s op xid msg; sha = hmac key (only s op xid msg) } in
        sendmsg hmac now xid s (some msg) op done ≡ (
          session_outq hmac
              (record s { next_seqid_out = (s.next_seqid_out + 1) % u64 })
              (queue_all hmac now done (p ∷ [])),
          p ∷ [],
          true,
        )
  unfolding sendmsg number seqid_after sign_all
  sendmsg-only now xid s msg key op done small keyed =
      let fits : ltb 196608 (length msg) ≡ false = ground (arith, small) in
      let one : leb (length msg) 1024 ≡ true = ground (arith, small) in
      rw (sendmsg, fits, keyed, fragments_one s op xid msg one) refl

  -- The reply to CMO_NEW_SESS sets what the client expects next.
  receive_new_sess :
      (now from : ℕ) (key : List ℕ) (c : Client) (s : Session) (xid : ℕ) (msg : List ℕ)
      → Cldc.user_key c.user c.secret_key s.user ≡ some key
      → key ≢ []
      → c.addr ≡ from
      → length msg ≤ 1024
      → let b = only s new_sess xid msg in
        let r = receive_pkt hmac now from (some (record { body = b; sha = hmac key b })) c in
        (r.1 ≡ complete new_sess msg s.next_seqid_out)
        × (r.0.next_seqid_in ≡ (s.next_seqid_out + 1) % u64)
  unfolding accept_seqid append_payload
  receive_new_sess now from key c s xid msg has_key full peer small =
      let b = only s new_sess xid msg in
      let d = begin_op b (expire_outmsg now c) in
      let c2 : Client = record d {
        next_seqid_in = (b.seqid + 1) % u64;
        next_seqid_in_tr = ((b.seqid + 1) % u64 + u64 - msg_remember) % u64;
      } in
      let fits : ltb 196608 (0 + length msg) ≡ false = ground (arith, small) in
      rw
        (receive_pkt-accepted hmac now from key c c2 b has_key full peer refl, append_payload, fits)
        (refl, refl)

  module _ (encode : Code → ℕ → List ℕ) (calloc : ℕ → Bool) (db : Db) where
    -- When msg_new_sess can store the session, the table of the sessions, of which no enlargement
    -- is due, has a live session for the client's number, address and user that expects the
    -- sequence number after the request's, and the reply is one packet that the client completes
    -- with its op and bytes, after which the client expects exactly the number that the session
    -- will use next: where the table is well formed and compares a number as equal to itself,
    -- htab_put gets its memory, the client's secret is the key that the server has for its user,
    -- the reply has at most 1024 bytes, and the server is the master.
    pub new_sess-agrees :
        (now rnd xid xid_in later from : ℕ) (conn : Conn) (b : Body) (sessions : Table)
        (sv : Server) (w w' : db.World)
        → (c : Client) → db.session_new w (session_encode (newcomer now rnd conn b)) ≡ ok w'
        → user_key b.user ≡ some c.secret_key
        → c.user ≡ b.user
        → c.addr ≡ from
        → length (encode ok_code xid_in) ≤ 1024
        → (sv.is_master && sv.up) ≡ true
        → IsValid sessions
        → need_resize sessions ≡ false
        → calloc 40 ≡ true
        → sessions.cmp_fn b.sid b.sid ≡ true
        → let r = msg_new_sess hmac encode calloc db now rnd xid conn b xid_in sessions w in
          (s : Session) × (p : Packet) × (r.2 ≡ welcomed (p ∷ []))
          × Ready b.sid b.user conn (record sv { sessions = get r.0 }) s
          × (s.next_seqid_in ≡ (b.seqid + 1) % u64)
          × ((receive_pkt hmac later from (some p) c).1
              ≡ complete new_sess (encode ok_code xid_in) rnd)
          × ((receive_pkt hmac later from (some p) c).0.next_seqid_in ≡ s.next_seqid_out)
    unfolding msg_new_sess newcomer session_outq
    new_sess-agrees now rnd xid xid_in later from conn b sessions sv w w' c stored keyed same peer
          small up valid roomy mem self =
        let (short, name) = key_lem b.user c.secret_key keyed in
        let uncut : take 31 b.user ≡ b.user = take-all 31 b.user (omega arith) in
        let s0 = newcomer now rnd conn b in
        let key0 : user_key s0.user ≡ some c.secret_key = rw uncut keyed in
        let msg = encode ok_code xid_in in
        let body = only s0 new_sess xid msg in
        let p : Packet = record { body = body; sha = hmac c.secret_key body } in
        let told =
          session_outq hmac (record s0 { next_seqid_out = (rnd + 1) % u64 })
            (queue_all hmac now no_cb (p ∷ [])) in
        let named : same_user b.user (take 31 b.user) ≡ true =
          rw uncut (same_bytes_refl (take 32 b.user)) in
        let has : Cldc.user_key c.user c.secret_key (take 31 b.user) ≡ some c.secret_key =
          rw (uncut, same) (own_key b.user c.secret_key keyed) in
        let (came, agree) =
          receive_new_sess later from c.secret_key c s0 xid msg has
            (nonempty b.user c.secret_key keyed) peer small in
        let (after, did, _, _, found) = put-get calloc sessions b.sid told valid roomy mem in
        let there : get after b.sid ≡ some told =
          found b.sid ∙ rw (==_refl (sessions.hash_fn b.sid), self) refl in
        let sent = sendmsg-only now xid s0 msg c.secret_key new_sess no_cb small key0 in
        rw (msg_new_sess, stored)
          (rw (sent, did)
            (rw sent (told, p, refl, (there, refl, refl, named, up), refl, came, agree)))
