-- ===== src/Cld/Server/Steps.antt =====
-- What the steps of cli_rd_pkt of cld/server.c make of a session.
use hail.Base.{
  ℕ, ◌≡◌, ◌≤◌, refl, sym, ◌∙◌, ap, Bool, true, false, not, inl, inr, Option, none, some, List, ◌++◌,
  length, length-append, ◌==◌, ==→eq, if◌then◌else◌, Bool-cases, arith,
}
use hail.Cld.{sess_exists, sess_inval, Op}
use hail.Cld.Session.{Body, Packet, Session, user_key, max_msg_sz}
use hail.Cld.Session.Frame.{msg_ack-frame}
use hail.Cld.Signature.{authcheck}
use hail.Cld.Server.{
  Conn, Server, PktInfo, Action, Route, to_handler, to_ack, to_nop, to_new, to_end, to_none, route,
  get_pkt_info, info_of, first_info, validate_pkt_session, check_session, same_user, is_new_sess,
  pkt_chk_sig, store, collect, begun, message_fits, dispatch, conclude, tcp_rx,
}
use hail.Cld.Server.Parts.{Accepted}

abbrev sess_or : Option Session → Option PktInfo → Option Session
sess_or s none = s
sess_or s (some info) = info.sess

info_of-sess :
    (seqid : ℕ) (s : Option Session) (i : Option (Op × ℕ)) (info : PktInfo)
    → info_of seqid s i ≡ some info
    → info.sess ≡ s
info_of-sess seqid s (some (op, xid)) info e = ap (sess_or s) (sym e)
info_of-sess seqid none none info e = cc
info_of-sess seqid (some s) none info e = ap (sess_or none) (sym e)

pub get_pkt_info-sess :
    (sv : Server) (b : Body) (info : PktInfo)
    → get_pkt_info sv b ≡ some info
    → info.sess ≡ sv.sessions b.sid
unfolding get_pkt_info
get_pkt_info-sess sv b info = info_of-sess b.seqid (sv.sessions b.sid) (first_info b) info

gates :
    {A : Type 0} (x y : A) (a b c d : Bool)
    → (if a
        then some x
        else (if not b then some y else (if not c then some y else (if d then some y else none))))
      ≡ none
    → (b ≡ true) × (c ≡ true) × (d ≡ false)
gates x y true b c d e = cc
gates x y false false c d e = cc
gates x y false true false d e = cc
gates x y false true true true e = cc
gates x y false true true false e = (refl, refl, refl)

check_session-none :
    (info : PktInfo) (s : Session) (b : Body) (conn : Conn)
    → check_session info s b conn ≡ none
    → (s.addr ≡ conn.addr) × (same_user b.user s.user ≡ true) × (s.dead ≡ false)
unfolding check_session
check_session-none info s b conn e =
    let (same, user, alive) =
      gates sess_exists sess_inval (is_new_sess info.op) (s.addr == conn.addr)
        (same_user b.user s.user) s.dead e in
    (==→eq s.addr conn.addr same, user, alive)

validate-session :
    (info : PktInfo) (s : Session) (b : Body) (conn : Conn)
    → info.sess ≡ some s
    → validate_pkt_session info b conn ≡ none
    → (s.addr ≡ conn.addr) × (same_user b.user s.user ≡ true) × (s.dead ≡ false)
unfolding validate_pkt_session
validate-session info s b conn has e = check_session-none info s b conn (rw has at e)

pub dispatch-msg_buf :
    (decodes : Op → List ℕ → Bool) (info : PktInfo) (s : Session) (r : Route)
    → (dispatch decodes info s r).0.msg_buf ≡ s.msg_buf
unfolding dispatch
dispatch-msg_buf decodes info s to_handler = refl
dispatch-msg_buf decodes info s to_ack = ap (λ f. f.4) (msg_ack-frame s info.seqid)
dispatch-msg_buf decodes info s to_nop = refl
dispatch-msg_buf decodes info s to_new = refl
dispatch-msg_buf decodes info s to_end = refl
dispatch-msg_buf decodes info s to_none = refl

conclude-store :
    (sid seqid : ℕ) (fits last : Bool) (s : Session) (r : Session × Action) (sv : Server)
    → r.0.msg_buf ≡ s.msg_buf
    → (s' : Session) × ((conclude sid seqid fits last s r sv).0 ≡ store sid s' sv)
      × (s'.msg_buf ≡ s.msg_buf)
unfolding conclude
conclude-store sid seqid false last s r sv e = (s, refl, refl)
conclude-store sid seqid true false s r sv e = (s, refl, refl)
conclude-store sid seqid true true s r sv e = (r.0, refl, e)

fits-length :
    (b : Body) (s : Session)
    → message_fits b s ≡ true
    → length (begun b s ++ b.payload) ≤ max_msg_sz
unfolding message_fits
fits-length b s fits =
    let split = length-append (begun b s) b.payload in ground (arith, fits, split)

pub collect-msg_buf :
    (now : ℕ) (conn : Conn) (info : PktInfo) (b : Body) (s : Session)
    → length s.msg_buf ≤ max_msg_sz
    → length (collect now conn info b s).msg_buf ≤ max_msg_sz
unfolding collect
collect-msg_buf now conn info b s h =
    let bound : length (begun b s) ≤ max_msg_sz = ground (arith, h) in
    elim (Bool-cases (message_fits b s)) [
      | inr long ↦ rw (collect, long) bound
      | inl fits ↦ rw (collect, fits) (fits-length b s fits)
    ]

module _ (hmac : List ℕ → Body → List ℕ) (decodes : Op → List ℕ → Bool) where
  pkt_chk_sig-none :
      (p : Packet)
      → pkt_chk_sig hmac decodes p ≡ none
      → authcheck hmac (user_key p.body.user) p.body p.sha ≡ true
  unfolding pkt_chk_sig
  pkt_chk_sig-none p e = elim (Bool-cases (authcheck hmac (user_key p.body.user) p.body p.sha)) [
    | inl good ↦ good
    | inr bad ↦ cc (rw (pkt_chk_sig, bad) at (e))
  ]

  -- A packet of a live session, from its address and user, with a valid signature.
  abbrev pub Genuine : Packet → Conn → Server → Type 0
  Genuine p conn sv =
      (s : Session) × (sv.sessions p.body.sid ≡ some s)
      × (s.dead ≡ false)
      × (s.addr ≡ conn.addr)
      × (same_user p.body.user s.user ≡ true)
      × (authcheck hmac (user_key p.body.user) p.body p.sha ≡ true)

  pub Accepted-Genuine :
      (p : Packet) (conn : Conn) (info : PktInfo) (sv : Server) (s : Session)
      → info.sess ≡ some s
      → Accepted hmac decodes p conn info sv
      → Genuine p conn sv
  unfolding Accepted
  Accepted-Genuine p conn info sv s has (found, valid, signed, here) =
      let (addr, user, alive) = validate-session info s p.body conn has valid in
      (
        s,
        sym (get_pkt_info-sess sv p.body info found) ∙ has,
        alive,
        addr,
        user,
        pkt_chk_sig-none p signed,
      )

  pub tcp_rx-none :
      (now : ℕ) (conn : Conn) (info : PktInfo) (b : Body) (sv : Server)
      → info.sess ≡ none
      → (tcp_rx decodes now conn info b sv).0.sessions ≡ sv.sessions
  unfolding tcp_rx
  tcp_rx-none now conn info b sv has = rw (tcp_rx, has) refl

  -- What tcp_rx leaves of a session `s`.
  pub tcp_rx-some :
      (now : ℕ) (conn : Conn) (info : PktInfo) (b : Body) (sv : Server) (s : Session)
      → info.sess ≡ some s
      → (s' : Session) × ((tcp_rx decodes now conn info b sv).0 ≡ store b.sid s' sv)
        × (s'.msg_buf ≡ (collect now conn info b s).msg_buf)
  unfolding tcp_rx
  tcp_rx-some now conn info b sv s has =
      let s1 : Session = collect now conn info b s in
      rw (tcp_rx, has)
        (conclude-store b.sid info.seqid (message_fits b s) b.last s1
          (dispatch decodes info s1 (route info.op)) sv
          (dispatch-msg_buf decodes info s1 (route info.op)))
