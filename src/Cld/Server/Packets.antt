-- ===== src/Cld/Server/Packets.antt =====
-- One packet of a request, taken in by cld/server.c.
use hail.Base.{
  ℕ, ◌+◌, ◌≤◌, ◌≡◌, refl, ap, Bool, true, false, ◌&&◌, none, some, List, [], ◌++◌, length, ltb,
  ◌==◌, ==_refl, if◌then◌else◌, arith,
}
use hail.Cld.{Op, bad_pkt}
use hail.Cld.Session.{Body, Packet, Session, max_msg_sz, user_key}
use hail.Cld.Signature.{authcheck-authsign, nonempty}
use hail.Cld.Server.{
  Conn, Server, PktInfo, Action, refused, request, frag_acked, to_handler, route, get_pkt_info,
  validate_pkt_session, check_session, same_user, is_new_sess, pkt_chk_sig, collect, message_fits,
  dispatch, conclude, tcp_rx, reads_on, cli_rd_pkt,
}

-- A live session `t` of the server for the packets of user `user` on a connection.
abbrev pub Ready : ℕ → List ℕ → Conn → Server → Session → Type 0
Ready sid user conn sv t =
    (sv.sessions sid ≡ some t)
    × (t.dead ≡ false)
    × (t.addr ≡ conn.addr)
    × (same_user user t.user ≡ true)
    × ((sv.is_master && sv.up) ≡ true)

handled_not_new : (op : Op) → route op ≡ to_handler → is_new_sess op ≡ false
unfolding route
handled_not_new op h = ground arith

pub fits_lem :
    (b : Body) (t : Session) (first : Bool)
    → b.first ≡ first
    → length (if first then [] else t.msg_buf) + length b.payload ≤ max_msg_sz
    → message_fits b t ≡ true
unfolding message_fits
fits_lem b t first f fits =
    let under : ltb max_msg_sz (length (if first then [] else t.msg_buf) + length b.payload)
        ≡ false =
      ground (arith, fits) in
    rw (message_fits, f, under) refl

pub collect_lem :
    (now : ℕ) (conn : Conn) (info : PktInfo) (b : Body) (t : Session) (op : Op) (first : Bool)
    → info.op ≡ op
    → b.first ≡ first
    → (if first then op else t.msg_op) ≡ op
    → message_fits b t ≡ true
    → ((collect now conn info b t).msg_op ≡ op)
      × ((collect now conn info b t).msg_buf ≡ (if first then [] else t.msg_buf) ++ b.payload)
unfolding collect
collect_lem now conn info b t op first is_op f started short =
    rw (collect, short, f) (rw is_op started, refl)

module _ (hmac : List ℕ → Body → List ℕ) (decodes : Op → List ℕ → Bool) where
  validate-ready :
      (conn : Conn) (b : Body) (sv : Server) (t : Session) (info : PktInfo)
      → info.sess ≡ some t
      → is_new_sess info.op ≡ false
      → Ready b.sid b.user conn sv t
      → validate_pkt_session info b conn ≡ none
  unfolding validate_pkt_session check_session
  validate-ready conn b sv t info has old (there, alive, addr, user, up) =
      let here : (t.addr == conn.addr) ≡ true = rw addr (==_refl conn.addr) in
      rw (validate_pkt_session, has, check_session, old, here, user, alive) refl

  signed_well :
      (p : Packet) (key : List ℕ)
      → user_key p.body.user ≡ some key
      → p.sha ≡ hmac key p.body
      → pkt_chk_sig hmac decodes p ≡ none
  unfolding pkt_chk_sig
  signed_well p key keyed sha =
      rw
        (
          pkt_chk_sig,
          keyed,
          sha,
          authcheck-authsign hmac key p.body (nonempty p.body.user key keyed),
        )
        refl

  -- What cli_rd_pkt does with a packet that passes its checks.
  pub cli_rd_pkt-accepted :
      (now : ℕ) (conn : Conn) (key : List ℕ) (b : Body) (sv : Server) (t : Session) (info : PktInfo)
      → get_pkt_info sv b ≡ some info
      → info.sess ≡ some t
      → is_new_sess info.op ≡ false
      → Ready b.sid b.user conn sv t
      → user_key b.user ≡ some key
      → cli_rd_pkt hmac decodes now conn (some (record { body = b; sha = hmac key b })) sv ≡ (
        (tcp_rx decodes now conn info b sv).0,
        (tcp_rx decodes now conn info b sv).1,
        reads_on (tcp_rx decodes now conn info b sv).1,
      )
  unfolding cli_rd_pkt
  cli_rd_pkt-accepted now conn key b sv t info found has old ready keyed =
      rw
        (
          cli_rd_pkt,
          found,
          validate-ready conn b sv t info has old ready,
          signed_well (record { body = b; sha = hmac key b }) key keyed refl,
          ready.4,
        )
        refl

  pub info_lem :
      (b : Body) (sv : Server) (t : Session) (op : Op) (xid : ℕ) (first : Bool)
      → sv.sessions b.sid ≡ some t
      → b.first ≡ first
      → b.info ≡ (if first then some (op, xid) else none)
      → (if first then op else t.msg_op) ≡ op
      → (info : PktInfo) × (get_pkt_info sv b ≡ some info)
        × (info.sess ≡ some t)
        × (info.op ≡ op)
        × (info.seqid ≡ b.seqid)
  unfolding get_pkt_info
  info_lem b sv t op xid true there f i started = (
    record { sess = some t; seqid = b.seqid; xid = xid; op = op },
    rw (get_pkt_info, there, f, i) refl,
    refl,
    refl,
    refl,
  )
  info_lem b sv t op xid false there f i started = (
    record { sess = some t; seqid = b.seqid; xid = t.msg_xid; op = t.msg_op },
    rw (get_pkt_info, there, f) refl,
    refl,
    started,
    refl,
  )

  -- What a packet that continues or ends a message of a request leaves, and what becomes of it.
  abbrev pub outcome : Bool → Op → List ℕ → ℕ → Action
  outcome last op whole seqid =
      if last
      then (if decodes op whole then request op whole else refused bad_pkt)
      else frag_acked seqid

  -- tcp_rx, where the message still fits.
  pub tcp_rx-fits :
      (now : ℕ) (conn : Conn) (b : Body) (sv : Server) (t : Session) (info : PktInfo)
      → info.sess ≡ some t
      → message_fits b t ≡ true
      → tcp_rx decodes now conn info b sv
        ≡ conclude b.sid info.seqid true b.last
            (collect now conn info b t)
            (dispatch decodes info (collect now conn info b t) (route info.op))
            sv
  unfolding tcp_rx
  tcp_rx-fits now conn b sv t info has short = rw (tcp_rx, has) (rw short refl)

  dispatch-request :
      (u : Session) (info : PktInfo) (op : Op) (whole : List ℕ)
      → info.op ≡ op
      → route op ≡ to_handler
      → u.msg_buf ≡ whole
      → dispatch decodes info u (route info.op) ≡ (u, outcome true op whole 0)
  unfolding dispatch
  dispatch-request u info op whole is_op handled w =
      rw (is_op, handled)
        (ap (λ bytes. (u, (if decodes op bytes then request op bytes else refused bad_pkt))) w)

  -- The end of tcp_rx for a session `u` that has `whole` of the message.
  finish :
      (conn : Conn) (b : Body) (sv : Server) (u : Session) (info : PktInfo) (op : Op)
      (whole : List ℕ)
      → (last : Bool) → info.op ≡ op
      → info.seqid ≡ b.seqid
      → route op ≡ to_handler
      → u.dead ≡ false
      → u.addr ≡ conn.addr
      → same_user b.user u.user ≡ true
      → (sv.is_master && sv.up) ≡ true
      → u.msg_op ≡ op
      → u.msg_buf ≡ whole
      → let r =
          conclude b.sid info.seqid true last u (dispatch decodes info u (route info.op)) sv in
        (t' : Session) × Ready b.sid b.user conn r.0 t'
        × (t'.msg_op ≡ op)
        × (t'.msg_buf ≡ whole)
        × (r.1 ≡ outcome last op whole b.seqid)
  unfolding conclude
  finish conn b sv u info op whole false is_op is_seq handled d a n up o w =
      (u, (rw (==_refl b.sid) refl, d, a, n, up), o, w, ap frag_acked is_seq)
  finish conn b sv u info op whole true is_op is_seq handled d a n up o w =
      rw (dispatch-request u info op whole is_op handled w)
        (u, (rw (==_refl b.sid) refl, d, a, n, up), o, w, refl)

  step_rx :
      (now : ℕ) (conn : Conn) (b : Body) (sv : Server) (t : Session) (op : Op) (info : PktInfo)
      → (first last : Bool) → info.sess ≡ some t
      → info.op ≡ op
      → info.seqid ≡ b.seqid
      → Ready b.sid b.user conn sv t
      → route op ≡ to_handler
      → b.first ≡ first
      → b.last ≡ last
      → (if first then op else t.msg_op) ≡ op
      → length (if first then [] else t.msg_buf) + length b.payload ≤ max_msg_sz
      → let r = tcp_rx decodes now conn info b sv in
        (t' : Session) × Ready b.sid b.user conn r.0 t'
        × (t'.msg_op ≡ op)
        × (t'.msg_buf ≡ (if first then [] else t.msg_buf) ++ b.payload)
        × (r.1 ≡ outcome last op ((if first then [] else t.msg_buf) ++ b.payload) b.seqid)
  unfolding collect
  step_rx now conn b sv t op info first last has is_op is_seq ready handled f l started fits =
      let short = fits_lem b t first f fits in
      let (o, w) = collect_lem now conn info b t op first is_op f started short in
      rw (tcp_rx-fits now conn b sv t info has short, l)
        (finish conn b sv (collect now conn info b t) info op
          ((if first then [] else t.msg_buf) ++ b.payload) last is_op is_seq handled ready.1 ready.2
          ready.3 ready.4 o w)

  pub step :
      (now : ℕ) (conn : Conn) (key : List ℕ) (b : Body) (sv : Server) (t : Session) (op : Op)
      (xid : ℕ)
      → (first last : Bool) → Ready b.sid b.user conn sv t
      → user_key b.user ≡ some key
      → route op ≡ to_handler
      → b.first ≡ first
      → b.last ≡ last
      → b.info ≡ (if first then some (op, xid) else none)
      → (if first then op else t.msg_op) ≡ op
      → length (if first then [] else t.msg_buf) + length b.payload ≤ max_msg_sz
      → let r =
          cli_rd_pkt hmac decodes now conn (some (record { body = b; sha = hmac key b })) sv in
        (t' : Session) × Ready b.sid b.user conn r.0 t'
        × (t'.msg_op ≡ op)
        × (t'.msg_buf ≡ (if first then [] else t.msg_buf) ++ b.payload)
        × (r.1 ≡ outcome last op ((if first then [] else t.msg_buf) ++ b.payload) b.seqid)
  step now conn key b sv t op xid first last ready keyed handled f l i started fits =
      let (info, found, has, is_op, is_seq) = info_lem b sv t op xid first ready.0 f i started in
      let old : is_new_sess info.op ≡ false = rw is_op (handled_not_new op handled) in
      let served = cli_rd_pkt-accepted now conn key b sv t info found has old ready keyed in
      rw served
        (step_rx now conn b sv t op info first last has is_op is_seq ready handled f l started fits)
