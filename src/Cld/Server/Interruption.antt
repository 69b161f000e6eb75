-- ===== src/Cld/Server/Interruption.antt =====
-- A packet of another message between two packets of one, cld/server.c: every first packet of a
-- session begins the session's one buffer anew.
use hail.Base.{
  ℕ, ◌+◌, ◌≤◌, ◌≡◌, refl, sym, ◌∙◌, ap, ◌&&◌, Bool, true, false, none, some, List, [], ◌++◌, length,
  if◌then◌else◌, arith, ==_refl,
}
use hail.Cld.{Op, ack_op}
use hail.Cld.Session.{Body, Session, max_msg_sz, user_key, msg_ack}
use hail.Cld.Server.{
  Conn, Server, PktInfo, acked, route, collect, dispatch, conclude, tcp_rx, cli_rd_pkt, is_new_sess,
  same_user,
}
use hail.Cld.Session.Frame.{NotEnding, msg_ack-frame, msg_ack-dead, msg_ack-NotEnding}
use hail.Cld.Server.Delivery.{Ready-at}
use hail.Cld.Server.Packets.{
  Ready, cli_rd_pkt-accepted, tcp_rx-fits, info_lem, fits_lem, collect_lem,
}

module _ (hmac : List ℕ → Body → List ℕ) (decodes : Op → List ℕ → Bool) where
  dispatch-ack :
      (u : Session) (info : PktInfo)
      → info.op ≡ ack_op
      → dispatch decodes info u (route info.op) ≡ (msg_ack u info.seqid, acked info.seqid)
  unfolding dispatch route
  dispatch-ack u info is_op = rw is_op refl

  finish_ack :
      (conn : Conn) (b : Body) (sv : Server) (u : Session) (info : PktInfo)
      → info.op ≡ ack_op
      → info.seqid ≡ b.seqid
      → NotEnding u.out_q
      → u.dead ≡ false
      → u.addr ≡ conn.addr
      → same_user b.user u.user ≡ true
      → (sv.is_master && sv.up) ≡ true
      → let r =
          conclude b.sid info.seqid true true u (dispatch decodes info u (route info.op)) sv in
        (t' : Session) × Ready b.sid b.user conn r.0 t'
        × (t'.msg_op ≡ u.msg_op)
        × (t'.msg_buf ≡ u.msg_buf)
        × NotEnding t'.out_q
        × (r.1 ≡ acked b.seqid)
  unfolding conclude
  finish_ack conn b sv u info is_op is_seq alive d a n up =
      let same = msg_ack-frame u info.seqid in
      let user_kept : same_user b.user (msg_ack u info.seqid).user ≡ true =
        ap (λ f. same_user b.user f.1) same ∙ n in
      rw (dispatch-ack u info is_op) (
        msg_ack u info.seqid,
        (
          rw (==_refl b.sid) refl,
          msg_ack-dead u info.seqid alive ∙ d,
          ap (λ f. f.0) same ∙ a,
          user_kept,
          up,
        ),
        ap (λ f. f.2) same,
        ap (λ f. f.4) same,
        msg_ack-NotEnding u info.seqid alive,
        ap acked is_seq,
      )

  ack_rx :
      (now : ℕ) (conn : Conn) (b : Body) (sv : Server) (t : Session) (info : PktInfo) (first : Bool)
      → info.sess ≡ some t
      → info.op ≡ ack_op
      → info.seqid ≡ b.seqid
      → Ready b.sid b.user conn sv t
      → NotEnding t.out_q
      → b.first ≡ first
      → b.last ≡ true
      → (if first then ack_op else t.msg_op) ≡ ack_op
      → length (if first then [] else t.msg_buf) + length b.payload ≤ max_msg_sz
      → let r = tcp_rx decodes now conn info b sv in
        (t' : Session) × Ready b.sid b.user conn r.0 t'
        × (t'.msg_op ≡ ack_op)
        × (t'.msg_buf ≡ (if first then [] else t.msg_buf) ++ b.payload)
        × NotEnding t'.out_q
        × (r.1 ≡ acked b.seqid)
  unfolding collect
  ack_rx now conn b sv t info first has is_op is_seq ready alive f l started fits =
      let short = fits_lem b t first f fits in
      let (o, w) = collect_lem now conn info b t ack_op first is_op f started short in
      let (t', ready', o', w', alive', act) =
        finish_ack conn b sv (collect now conn info b t) info is_op is_seq alive ready.1 ready.2
          ready.3 ready.4 in
      rw (tcp_rx-fits hmac decodes now conn b sv t info has short, l)
        (t', ready', o' ∙ o, w' ∙ w, alive', act)

  -- The last packet of a message of op CMO_ACK.
  ack_step :
      (now : ℕ) (conn : Conn) (key : List ℕ) (b : Body) (sv : Server) (t : Session) (xid : ℕ)
      (first : Bool)
      → Ready b.sid b.user conn sv t
      → user_key b.user ≡ some key
      → NotEnding t.out_q
      → b.first ≡ first
      → b.last ≡ true
      → b.info ≡ (if first then some (ack_op, xid) else none)
      → (if first then ack_op else t.msg_op) ≡ ack_op
      → length (if first then [] else t.msg_buf) + length b.payload ≤ max_msg_sz
      → let r =
          cli_rd_pkt hmac decodes now conn (some (record { body = b; sha = hmac key b })) sv in
        (t' : Session) × Ready b.sid b.user conn r.0 t'
        × (t'.msg_op ≡ ack_op)
        × (t'.msg_buf ≡ (if first then [] else t.msg_buf) ++ b.payload)
        × NotEnding t'.out_q
        × (r.1 ≡ acked b.seqid)
  ack_step now conn key b sv t xid first ready keyed alive f l i started fits =
      let (info, found, has, is_op, is_seq) =
        info_lem hmac decodes b sv t ack_op xid first ready.0 f i started in
      let old : is_new_sess info.op ≡ false = rw is_op refl in
      let served =
        cli_rd_pkt-accepted hmac decodes now conn key b sv t info found has old ready keyed in
      rw served (ack_rx now conn b sv t info first has is_op is_seq ready alive f l started fits)

  -- After a genuine CMO_ACK, the last packet of a message is taken for an acknowledgement of its
  -- own number, whatever message it ends: where no packet of the session's output queue is the
  -- answer to CMO_END_SESS, and the two packets' bytes are within the limit.
  pub ack-interrupts :
      (now : ℕ) (conn : Conn) (key : List ℕ) (a b : Body) (xid : ℕ) (sv : Server) (t : Session)
      → Ready a.sid a.user conn sv t
      → user_key a.user ≡ some key
      → NotEnding t.out_q
      → a.first ≡ true
      → a.last ≡ true
      → a.info ≡ some (ack_op, xid)
      → length a.payload ≤ max_msg_sz
      → b.sid ≡ a.sid
      → b.user ≡ a.user
      → b.first ≡ false
      → b.last ≡ true
      → b.info ≡ none
      → length a.payload + length b.payload ≤ max_msg_sz
      → let sv1 =
          (cli_rd_pkt hmac decodes now conn (some (record { body = a; sha = hmac key a })) sv).0 in
        (cli_rd_pkt hmac decodes now conn (some (record { body = b; sha = hmac key b })) sv1).1
        ≡ acked b.seqid
  ack-interrupts now conn key a b xid sv t ready keyed alive af al ai small sid user bf bl bi fits =
      let (t1, ready1, o, w, alive1, _) =
        ack_step now conn key a sv t xid true ready keyed alive af al ai refl
          (omega (arith, small)) in
      let sv1 =
        (cli_rd_pkt hmac decodes now conn (some (record { body = a; sha = hmac key a })) sv).0 in
      let (_, _, _, _, _, act) =
        ack_step now conn key b sv1 t1 xid false
          (Ready-at a.sid b.sid a.user b.user conn sv1 t1 (sym sid) (sym user) ready1)
          (ap user_key user ∙ keyed) alive1 bf bl bi o (omega (arith, fits, ap length w)) in
      act
