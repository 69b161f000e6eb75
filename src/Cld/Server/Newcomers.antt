-- ===== src/Cld/Server/Newcomers.antt =====
-- How sessions come to be, cld/session.c: msg_new_sess for a client's CMO_NEW_SESS, and sess_load
-- for the sessions in the database when the server starts.
use hail.Base.{ℕ, ◌+◌, ◌%◌, Bool, true, false, Option, none, some, List, [], ◌∷◌, take}
use hail.Cld.{Code, ok_code, sess_exists, db_err, nop, new_sess, end_sess, RawSession}
use hail.Cld.Db.{Db, Rc, notfound, keyexist, ok, fail}
use hail.Cld.Session.{Body, Packet, Session, no_cb, end_sess_done, u64, sendmsg}
use hail.Cld.Server.{Conn}
use hail.Htab.{Htab, put, del}

-- session_new, where `rnd` is the random number that it draws.
unfoldable pub fresh_session : ℕ → Session
fresh_session rnd = record {
  sid = 0;
  sock_fd = 0;
  addr = 0;
  last_contact = 0;
  next_fh = 2;
  next_seqid_in = 0;
  next_seqid_out = rnd;
  out_q = [];
  user = [];
  ping_open = false;
  dead = false;
  msg_op = nop;
  msg_xid = 0;
  msg_buf = [];
  retry_timer = none;
}

unfoldable pub session_encode : Session → RawSession
session_encode s = record {
  sid = s.sid;
  addr = s.addr;
  user = s.user;
  last_contact = s.last_contact;
  next_fh = s.next_fh;
  next_seqid_in = s.next_seqid_in;
  next_seqid_out = s.next_seqid_out;
}

unfoldable pub session_decode : Session → RawSession → Session
session_decode s raw = record s {
  sid = raw.sid;
  addr = raw.addr;
  last_contact = raw.last_contact;
  next_fh = raw.next_fh;
  next_seqid_out = raw.next_seqid_out;
  next_seqid_in = raw.next_seqid_in;
  user = raw.user;
}

-- The table of the sessions. An entry is a pointer to its session, so that what sess_sendmsg changes
-- after the put is seen in the table.
abbrev pub Table : Type 0
Table = Htab ℕ Session

-- How msg_new_sess answers: by the packets of the new session, or by simple_sendmsg;
-- or htab_put reads outside its table of primes.
pub data Answer : Type 0 where
  welcomed : List Packet → Answer
  turned_away : Code → Answer
  faulted : Answer

unfoldable pub new_code : Rc → Code
new_code keyexist = sess_exists
new_code notfound = db_err
new_code (Rc.other n) = db_err

-- The session of a newcomer, whose name is cut to 31 bytes.
unfoldable pub newcomer : ℕ → ℕ → Conn → Body → Session
unfolding fresh_session
newcomer now rnd conn b = record (fresh_session rnd) {
  sid = b.sid;
  addr = conn.addr;
  user = take 31 b.user;
  sock_fd = conn.fd;
  last_contact = now;
  next_seqid_in = (b.seqid + 1) % u64;
}

-- `encode` is the XDR code of a generic reply, `calloc` says which allocations of htab_put succeed.
module _ (hmac : List ℕ → Body → List ℕ) (encode : Code → ℕ → List ℕ) where
  unfoldable pub msg_new_sess :
      (ℕ → Bool)
      → (db : Db) → ℕ
      → ℕ
      → ℕ
      → Conn
      → Body
      → ℕ
      → Table
      → db.World
      → Table × db.World × Answer
  unfolding newcomer session_encode new_code
  msg_new_sess calloc db now rnd xid conn b xid_in sessions w =
      let s = newcomer now rnd conn b in
      elim (db.session_new w (session_encode s)) [
        | fail rc ↦ ((del sessions b.sid).1, w, turned_away (new_code rc))
        | ok w' ↦
            let (s', pkts, _) =
              sendmsg hmac now xid s (some (encode ok_code xid_in)) new_sess no_cb in
            elim (put calloc sessions b.sid s') [
              | none ↦ (sessions, w', faulted)
              | some (_, sessions') ↦ (sessions', w', welcomed pkts)
            ]
      ]

  -- msg_end_sess: the session lives until its reply is acknowledged.
  unfoldable pub msg_end_sess : ℕ → ℕ → ℕ → Session → Session × List Packet
  msg_end_sess now xid xid_in s =
      let (s', pkts, _) =
        sendmsg hmac now xid s (some (encode ok_code xid_in)) end_sess end_sess_done in
      (s', pkts)

-- The loop of sess_load_db over the sessions of the database; nothing where htab_put faults.
unfoldable pub load_each : (ℕ → Bool) → ℕ → List RawSession → Table → Option Table
unfolding fresh_session session_decode
load_each calloc rnd [] sessions = some sessions
load_each calloc rnd (raw ∷ raws) sessions =
    elim (put calloc sessions raw.sid (session_decode (fresh_session rnd) raw)) [
      | none ↦ none
      | some (_, sessions') ↦ load_each calloc rnd raws sessions'
    ]

module _ (db : Db) where
  abbrev with_code : Bool → Option Table → Option (Table × Bool)
  with_code fine none = none
  with_code fine (some sessions) = some (sessions, fine)

  -- sess_load, and whether it succeeded; a failed commit is only logged.
  unfoldable pub sess_load : (ℕ → Bool) → ℕ → Table → db.World → Option (Table × Bool)
  unfolding load_each
  sess_load calloc rnd sessions w = elim (db.txn_begin w) [
    | fail rc ↦ some (sessions, false)
    | ok t ↦ elim (db.sessions_cursor t) [
      | fail rc ↦ some (sessions, false)
      | ok _ ↦ elim (db.sessions_end t) [
        | notfound ↦ with_code true (load_each calloc rnd (db.sessions_scan t) sessions)
        | keyexist ↦ with_code false (load_each calloc rnd (db.sessions_scan t) sessions)
        | Rc.other n ↦ with_code false (load_each calloc rnd (db.sessions_scan t) sessions)
      ]
    ]
  ]
