-- ===== src/Cld/Server/Delivery.antt =====
-- The messages of a client of lib/cldc.c, taken in by cld/server.c.
use hail.Base.{
  ℕ, suc, ◌+◌, ◌≤◌, ◌≡◌, refl, ◌∙◌, ap, Bool, true, false, Option, some, List, [], ◌∷◌, ◌++◌,
  append_assoc, append-nil, length, length-append, if◌then◌else◌, arith,
}
use hail.Cld.{Op}
use hail.Cld.Session
use hail.Cld.Session.{Body, Packet, Session, max_msg_sz, fragments, number, sign_all, user_key}
use hail.Cld.Session.Fragments.{payloads, IsMessage, numbered, bodies, bodies-sign_all}
use hail.Cld.Server.{Conn, Server, Action, request, frag_acked, to_handler, route, cli_rd_pkt}
use hail.Cld.Server.Packets.{Ready, step}
use hail.Cld.Server.Safety.{serve_all}
use hail.Cldc.{Client}
use hail.Cldc.Messages.{send_msg, sent}
use hail.Cldc.Sending.{send_msg-sent}

-- The packets of a message, come in at one time over one connection.
abbrev pub arrivals : ℕ → Conn → List Packet → List (ℕ × Conn × Option Packet)
arrivals now conn [] = []
arrivals now conn (p ∷ ps) = (now, conn, some p) ∷ arrivals now conn ps

-- Every packet but the last is acknowledged, and the last calls the handler with the bytes.
abbrev pub answers : Op → List ℕ → List Body → List Action
answers op whole [] = []
answers op whole (b ∷ []) = request op whole ∷ []
answers op whole (b ∷ c ∷ bs) = frag_acked b.seqid ∷ answers op whole (c ∷ bs)

pub Ready-at :
    (sid sid' : ℕ) (user user' : List ℕ) (conn : Conn) (sv : Server) (t : Session)
    → sid ≡ sid'
    → user ≡ user'
    → Ready sid user conn sv t
    → Ready sid' user' conn sv t
Ready-at sid sid' user user' conn sv t e f (there, d, a, n, up) =
    (rw (← e) there, d, a, rw (← f) n, up)

module _ (hmac : List ℕ → Body → List ℕ) (decodes : Op → List ℕ → Bool) (now : ℕ) (conn : Conn)
    (s : Session) (key : List ℕ) (op : Op) (xid : ℕ) where
  serve_all-answers :
      (first : Bool) (bs : List Body) (sv : Server) (t : Session)
      → Ready s.sid s.user conn sv t
      → user_key s.user ≡ some key
      → route op ≡ to_handler
      → decodes op ((if first then [] else t.msg_buf) ++ payloads bs) ≡ true
      → (if first then op else t.msg_op) ≡ op
      → IsMessage s (some (op, xid)) first bs
      → length (if first then [] else t.msg_buf) + length (payloads bs) ≤ max_msg_sz
      → (serve_all hmac decodes (arrivals now conn (sign_all hmac key bs)) sv).1
        ≡ answers op ((if first then [] else t.msg_buf) ++ payloads bs) bs
  unfolding sign_all serve_all
  serve_all-answers first [] sv t ready keyed handled good started shape fits = elim shape [ ]
  serve_all-answers first (b ∷ []) sv t ready keyed handled good started shape fits =
      let (sid, user, f, l, i, _) = shape in
      let nil = append-nil b.payload in
      let ready_b : Ready b.sid b.user conn sv t = rw (sid, user) ready in
      let here : length (if first then [] else t.msg_buf) + length b.payload ≤ max_msg_sz =
        omega (arith, fits, length-append b.payload []) in
      let (t', _, _, _, act) =
        step hmac decodes now conn key b sv t op xid first true ready_b (ap user_key user ∙ keyed)
          handled f l i started here in
      rw (act, nil) (rw (rw nil at good) refl)
  serve_all-answers first (b ∷ c ∷ bs) sv t ready keyed handled good started shape fits =
      let start : List ℕ = if first then [] else t.msg_buf in
      let ((sid, user, f, l, i, _), rest) = shape in
      let split = length-append b.payload (payloads (c ∷ bs)) in
      let ready_b : Ready b.sid b.user conn sv t = rw (sid, user) ready in
      let here : length start + length b.payload ≤ max_msg_sz = omega (arith, fits, split) in
      let (t', ready', o, w, act) =
        step hmac decodes now conn key b sv t op xid first false ready_b (ap user_key user ∙ keyed)
          handled f l i started here in
      let bytes : t'.msg_buf ++ payloads (c ∷ bs) ≡ start ++ payloads (b ∷ c ∷ bs) =
        rw w (append_assoc start b.payload (payloads (c ∷ bs))) in
      let p : Packet = record { body = b; sha = hmac key b } in
      let sv1 = (cli_rd_pkt hmac decodes now conn (some p) sv).0 in
      let ready1 = Ready-at b.sid s.sid b.user s.user conn sv1 t' sid user ready' in
      let size = ap length w ∙ length-append start b.payload in
      let ih =
        serve_all-answers false (c ∷ bs) sv1 t' ready1 keyed handled (ap (decodes op) bytes ∙ good)
          o rest (omega (arith, fits, split, size)) in
      rw act (ap (◌∷◌ (frag_acked b.seqid)) (ih ∙ ap (λ whole. answers op whole (c ∷ bs)) bytes))

module _ (hmac : List ℕ → Body → List ℕ) (decodes : Op → List ℕ → Bool)
    (pkt_send : Packet → Bool) where
  -- A message that the client's sess_send got out reaches its handler: the server, which is
  -- handed its packets in the order in which they were made, acknowledges each but the last, and
  -- the last calls the handler of its op with exactly its bytes; where the server is the master,
  -- it has a live session for the client's number, address and user, the client's secret is the
  -- key that the server has for the user, the message is no longer than CLD_MAX_MSG_SZ, its XDR
  -- code decodes it, and the op is one that a handler of cld/msg.c serves.
  pub send_msg-serve_all :
      (made now xid : ℕ) (c : Client) (op : Op) (body : List ℕ) (conn : Conn) (sv : Server)
      (t : Session)
      → (send_msg hmac pkt_send made xid c op body).2 ≡ sent
      → Session.user_key c.user ≡ some c.secret_key
      → Ready c.sid c.user conn sv t
      → route op ≡ to_handler
      → decodes op body ≡ true
      → length body ≤ max_msg_sz
      → let pkts = (send_msg hmac pkt_send made xid c op body).1 in
        (serve_all hmac decodes (arrivals now conn pkts) sv).1 ≡ answers op body (bodies pkts)
  send_msg-serve_all made now xid c op body conn sv t went keyed ready handled good fits =
      let as_c : Session = record t { user = c.user; sid = c.sid } in
      let (bytes, shape, _) = numbered as_c op xid c.next_seqid_out body in
      let bs = number c.next_seqid_out (fragments (suc (length body)) as_c op xid true body) in
      let made_of = send_msg-sent hmac pkt_send made xid c as_c op body refl refl keyed went in
      rw (made_of, bodies-sign_all hmac c.secret_key bs)
        (serve_all-answers hmac decodes now conn as_c c.secret_key op xid true bs sv t ready keyed
            handled (rw bytes good) refl shape (omega (arith, fits, ap length bytes))
          ∙ ap (λ whole. answers op whole bs) bytes)
