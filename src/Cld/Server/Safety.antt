-- ===== src/Cld/Server/Safety.antt =====
-- What no packet can do to the server, cld/server.c.
use hail.Base.{
  ℕ, ◌≡◌, ◌≤◌, refl, sym, ◌∙◌, ap, Bool, true, false, ◌⊎◌, inl, inr, Option, none, some, List, [],
  ◌∷◌, length, ◌==◌, ==→eq, Bool-cases, Option-cases, some-inj, All, arith,
}
use hail.Cld.{Op}
use hail.Cld.Session.{Body, Packet, Session, max_msg_sz}
use hail.Cld.Server.{
  Conn, Server, PktInfo, Action, crashed, Route, to_handler, to_ack, to_nop, to_new, to_end,
  to_none, route, get_pkt_info, validate_pkt_session, is_new_sess, store, collect, message_fits,
  dispatch, conclude, tcp_rx, cli_rd_pkt,
}
use hail.Cld.Server.Steps.{
  Genuine, get_pkt_info-sess, collect-msg_buf, Accepted-Genuine, tcp_rx-none, tcp_rx-some,
}
use hail.Cld.Server.Parts.{IsQuiet, Accepted, cli_rd_pkt-cases}

abbrev pub is_crashed : Action → Bool
is_crashed crashed = true
is_crashed _ = false

dispatch-alive :
    (decodes : Op → List ℕ → Bool) (info : PktInfo) (s : Session) (r : Route)
    → is_crashed (dispatch decodes info s r).1 ≡ false
unfolding dispatch
dispatch-alive decodes info s to_handler = elim (Bool-cases (decodes info.op s.msg_buf)) [
  | inl good ↦ rw good refl
  | inr bad ↦ rw bad refl
]
dispatch-alive decodes info s to_ack = refl
dispatch-alive decodes info s to_nop = refl
dispatch-alive decodes info s to_new = refl
dispatch-alive decodes info s to_end = refl
dispatch-alive decodes info s to_none = refl

conclude-alive :
    (sid seqid : ℕ) (fits last : Bool) (s : Session) (r : Session × Action) (sv : Server)
    → is_crashed r.1 ≡ false
    → is_crashed (conclude sid seqid fits last s r sv).1 ≡ false
unfolding conclude
conclude-alive sid seqid false last s r sv e = refl
conclude-alive sid seqid true false s r sv e = refl
conclude-alive sid seqid true true s r sv e = e

route-new_sess : (op : Op) → is_new_sess op ≡ true → route op ≡ to_new
unfolding route
route-new_sess op h = ground arith

validate-new :
    (info : PktInfo) (b : Body) (conn : Conn)
    → info.sess ≡ none
    → validate_pkt_session info b conn ≡ none
    → is_new_sess info.op ≡ true
unfolding validate_pkt_session
validate-new info b conn has e = elim (Bool-cases (is_new_sess info.op)) [
  | inl new ↦ new
  | inr old ↦ cc (rw (validate_pkt_session, has, old) at (e))
]

IsQuiet-alive : (a : Action) → IsQuiet a → is_crashed a ≡ false
IsQuiet-alive a h = ground arith

-- No buffer of a session holds more than CLD_MAX_MSG_SZ bytes.
abbrev pub Fits : (ℕ → Option Session) → Type 0
Fits sessions = (k : ℕ) (s : Session) → sessions k ≡ some s → length s.msg_buf ≤ max_msg_sz

Fits-store :
    (sid : ℕ) (t : Session) (sv : Server)
    → Fits sv.sessions
    → length t.msg_buf ≤ max_msg_sz
    → Fits (store sid t sv).sessions
Fits-store sid t sv h small k s e = elim (Bool-cases (k == sid)) [
  | inl here ↦ rw (← some-inj (rw here at e)) small
  | inr there ↦ h k s (rw there at e)
]

module _ (hmac : List ℕ → Body → List ℕ) (decodes : Op → List ℕ → Bool) where
  tcp_rx-alive :
      (now : ℕ) (conn : Conn) (info : PktInfo) (b : Body) (sv : Server)
      → validate_pkt_session info b conn ≡ none
      → is_crashed (tcp_rx decodes now conn info b sv).1 ≡ false
  unfolding tcp_rx
  tcp_rx-alive now conn info b sv valid = elim (Option-cases info.sess) [
    | inr (s, has) ↦
        let s1 : Session = collect now conn info b s in
        rw (tcp_rx, has)
          (conclude-alive b.sid info.seqid (message_fits b s) b.last s1
            (dispatch decodes info s1 (route info.op)) sv
            (dispatch-alive decodes info s1 (route info.op)))
    | inl has ↦ elim (Bool-cases b.last) [
      | inr more ↦ rw (tcp_rx, has, more) refl
      | inl ends ↦
          rw (tcp_rx, has, ends, route-new_sess info.op (validate-new info b conn has valid)) refl
    ]
  ]

  tcp_rx-Fits :
      (now : ℕ) (conn : Conn) (info : PktInfo) (b : Body) (sv : Server)
      → get_pkt_info sv b ≡ some info
      → Fits sv.sessions
      → Fits (tcp_rx decodes now conn info b sv).0.sessions
  tcp_rx-Fits now conn info b sv found h = elim (Option-cases info.sess) [
    | inl has ↦ rw (tcp_rx-none hmac decodes now conn info b sv has) h
    | inr (s, has) ↦
        let (t, kept, buf) = tcp_rx-some hmac decodes now conn info b sv s has in
        let old = h b.sid s (sym (get_pkt_info-sess sv b info found) ∙ has) in
        let small : length t.msg_buf ≤ max_msg_sz =
          rw buf (collect-msg_buf now conn info b s old) in
        rw kept (Fits-store b.sid t sv h small)
  ]

  -- Up to the call of its handler, a packet changes no session but the one whose number it
  -- carries, and that one only if the session is live, the packet comes from its address and its
  -- user, and the signature is valid.
  pub cli_rd_pkt-Genuine :
      (now : ℕ) (conn : Conn) (p : Packet) (sv : Server) (k : ℕ)
      → ((cli_rd_pkt hmac decodes now conn (some p) sv).0.sessions k ≡ sv.sessions k)
        ⊎ ((k ≡ p.body.sid) × Genuine hmac decodes p conn sv)
  unfolding Accepted
  cli_rd_pkt-Genuine now conn p sv k = elim (cli_rd_pkt-cases hmac decodes now conn p sv) [
    | inl (same, quiet) ↦ inl (ap (λ f. f k) same)
    | inr (info, accepted, served) ↦ elim (Option-cases info.sess) [
      | inl has ↦
          inl (rw served (ap (λ f. f k) (tcp_rx-none hmac decodes now conn info p.body sv has)))
      | inr (s, has) ↦
          let (t, kept, _) = tcp_rx-some hmac decodes now conn info p.body sv s has in
          elim (Bool-cases (k == p.body.sid)) [
            | inl here ↦ inr (
              ==→eq k p.body.sid here,
              Accepted-Genuine hmac decodes p conn info sv s has accepted,
            )
            | inr there ↦ inl (rw (served, kept, there) refl)
          ]
    ]
  ]

  -- The packets that come in one after the other, over whatever connections: what they leave of
  -- the server, and what became of each.
  unfoldable pub serve_all : List (ℕ × Conn × Option Packet) → Server → Server × List Action
  serve_all [] sv = (sv, [])
  serve_all ((now, conn, p) ∷ ps) sv =
      let (sv1, act, _) = cli_rd_pkt hmac decodes now conn p sv in
      let (sv2, acts) = serve_all ps sv1 in (sv2, act ∷ acts)

  cli_rd_pkt-safe :
      (now : ℕ) (conn : Conn) (p : Option Packet) (sv : Server)
      → Fits sv.sessions
      → Fits (cli_rd_pkt hmac decodes now conn p sv).0.sessions
        × (is_crashed (cli_rd_pkt hmac decodes now conn p sv).1 ≡ false)
  unfolding cli_rd_pkt Accepted
  cli_rd_pkt-safe now conn none sv h = (h, refl)
  cli_rd_pkt-safe now conn (some p) sv h = elim (cli_rd_pkt-cases hmac decodes now conn p sv) [
    | inl (same, quiet) ↦
        (rw same h, IsQuiet-alive (cli_rd_pkt hmac decodes now conn (some p) sv).1 quiet)
    | inr (info, accepted, served) ↦ rw served (
      tcp_rx-Fits now conn info p.body sv accepted.0 h,
      tcp_rx-alive now conn info p.body sv accepted.1,
    )
  ]

  -- Whatever packets come in over whatever connections, no message of a session grows longer than
  -- CLD_MAX_MSG_SZ, where none was to begin with, and no packet makes the server use a session
  -- that is not there.
  pub serve_all-Fits :
      (ps : List (ℕ × Conn × Option Packet)) (sv : Server)
      → Fits sv.sessions
      → Fits (serve_all ps sv).0.sessions × All (λ a. is_crashed a ≡ false) (serve_all ps sv).1
  unfolding serve_all
  serve_all-Fits [] sv h = (h, tt)
  serve_all-Fits ((now, conn, p) ∷ ps) sv h =
      let (fits, alive) = cli_rd_pkt-safe now conn p sv h in
      let (rest, others) = serve_all-Fits ps (cli_rd_pkt hmac decodes now conn p sv).0 fits in
      (rest, (alive, others))
