-- ===== src/Tests/Receptions.antt =====
-- Runs of the reception of packets, cld/server.c, and of the client's messages, lib/cldc.c.
use hail.Base.{
  ℕ, suc, replicate, ◌≡◌, refl, ap, Bool, true, false, none, some, List, [], ◌∷◌, length, ◌==◌,
  if◌then◌else◌, ◌⊎◌, inl, inr, Bool-cases, some-inj, All, arith,
}
use hail.Cld.{Op, put_op, ack_op, new_sess, Code}
use hail.Cld.Session
use hail.Cld.Session.{Body, Packet, Session, fragments, number, sign_all, max_msg_sz}
use hail.Cld.Session.Fragments.{bodies}
use hail.Cld.Signature.{authsign}
use hail.Cld.Server.{Conn, Server, cli_rd_pkt, acked, route}
use hail.Cld.Server.Packets.{Ready}
use hail.Cld.Server.Steps.{Genuine}
use hail.Cld.Server.Safety.{serve_all, Fits, is_crashed, cli_rd_pkt-Genuine, serve_all-Fits}
use hail.Cld.Server.Delivery.{arrivals, answers, send_msg-serve_all}
use hail.Cld.Server.Interruption.{ack-interrupts}
use hail.Cld.Server.Newcomers.{Table, welcomed, msg_new_sess}
use hail.Cld.Server.Greeting.{new_sess-agrees}
use hail.Htab.{size_of, need_resize, get}
use hail.Htab.Buckets.{IsValid, replicate-Placed}
use mathlib.Core.List.{flatten}
use hail.Cldc.{Client, complete, receive_pkt}
use hail.Cldc.Messages.{send_msg, n_pkts, make_pkts, send_pkts}
use hail.Cldc.Sending.{send_msg-sent}
use hail.Tests.Sessions.{hmac, user, session, client, short_msg}
use hail.Tests.Store.{Mem, mem_db}

abbrev conn : Conn
conn = record { fd = 4; addr = 77 }

abbrev server : Server
server = record {
  sessions = λ k. if k == 8 then some session else none;
  is_master = true;
  up = true;
  garbage = 0;
}

abbrev decodes : Op → List ℕ → Bool
decodes op bytes = true

abbrev takes : Packet → Bool
takes p = true

abbrev fragment : Bool → Op → List ℕ → ℕ → Body
fragment first op payload seqid = record {
  sid = 8;
  user = user;
  first = first;
  last = true;
  info = if first then some (op, 9) else none;
  payload = payload;
  seqid = seqid;
}

abbrev packet : Body → Packet
packet b = record { body = b; sha = hmac user b }

send_msg-serve_all_example :
    let pkts = (send_msg hmac takes 1000 9 client put_op short_msg).1 in
    (serve_all hmac decodes (arrivals 1001 conn pkts) server).1
    ≡ answers put_op short_msg (bodies pkts)
unfolding send_msg n_pkts make_pkts send_pkts authsign hail.Cldc.user_key Session.user_key route
send_msg-serve_all_example =
    send_msg-serve_all hmac decodes takes 1000 1001 9 client put_op short_msg conn server session
      refl refl (refl, refl, refl, refl, refl) refl refl (omega arith)

cli_rd_pkt-Genuine_example :
    ((cli_rd_pkt hmac decodes 1001 conn
          (some (packet (fragment true put_op short_msg 20)))
          server).0.sessions
        8
      ≡ server.sessions 8)
    ⊎ ((◌≡◌ {A = ℕ} 8 8)
        × Genuine hmac decodes (packet (fragment true put_op short_msg 20)) conn server)
cli_rd_pkt-Genuine_example =
    cli_rd_pkt-Genuine hmac decodes 1001 conn (packet (fragment true put_op short_msg 20)) server 8

server-Fits : Fits server.sessions
server-Fits k s e = elim (Bool-cases (k == 8)) [
  | inl here ↦
      let same : session ≡ s = some-inj (rw here at e) in
      rw (← ap (λ x. length x.msg_buf) same) (omega arith)
  | inr there ↦ cc (rw there at e)
]

serve_all-Fits_example :
    Fits
      (serve_all hmac decodes
        ((1001, conn, none) ∷ (1002, conn, some (packet (fragment true put_op short_msg 20))) ∷ [])
        server).0.sessions
    × All
        (λ a. is_crashed a ≡ false)
        (serve_all hmac decodes
          ((1001, conn, none)
            ∷ (1002, conn, some (packet (fragment true put_op short_msg 20)))
            ∷ [])
          server).1
serve_all-Fits_example =
    serve_all-Fits hmac decodes
      ((1001, conn, none) ∷ (1002, conn, some (packet (fragment true put_op short_msg 20))) ∷ [])
      server server-Fits

send_msg-sent_example :
    (send_msg hmac takes 1000 9 client put_op short_msg).1
    ≡ sign_all hmac user
        (number 20 (fragments (suc (length short_msg)) session put_op 9 true short_msg))
unfolding send_msg n_pkts make_pkts send_pkts authsign hail.Cldc.user_key Session.user_key
send_msg-sent_example =
    send_msg-sent hmac takes 1000 9 client session put_op short_msg refl refl refl refl

ack-interrupts_example :
    let a = fragment true ack_op [] 20 in
    let b = fragment false put_op (5 ∷ []) 21 in
    let sv1 = (cli_rd_pkt hmac decodes 1001 conn (some (packet a)) server).0 in
    (cli_rd_pkt hmac decodes 1001 conn (some (packet b)) sv1).1 ≡ acked 21
unfolding Session.user_key
ack-interrupts_example =
    ack-interrupts hmac decodes 1001 conn user (fragment true ack_op [] 20)
      (fragment false put_op (5 ∷ []) 21) 9 server session (refl, refl, refl, refl, refl) refl
      (refl, (refl, tt)) refl refl refl (omega arith) refl refl refl refl refl (omega arith)

abbrev encode : Code → ℕ → List ℕ
encode c xid = 0 ∷ xid ∷ []

abbrev empty : Mem
empty = record { locks = λ k. []; handles = λ s f. none; inodes = λ i. none; contents = λ i. none }

abbrev always : ℕ → Bool
always n = true

abbrev no_sessions : Table
no_sessions = record {
  hash_fn = λ k. k;
  cmp_fn = λ a b. a == b;
  free_key = false;
  free_value = false;
  prime_idx = 0;
  buckets = replicate 5 [];
  n_ent = 0;
}

no_sessions-IsValid : IsValid no_sessions
unfolding size_of flatten
no_sessions-IsValid = record {
  idx = omega arith;
  width = refl;
  placed = replicate-Placed ℕ Session 5 5;
  counted = refl;
}

new_sess-agrees_example :
    let b = fragment true new_sess [] 20 in
    let r = msg_new_sess hmac encode always mem_db 1001 40 6 conn b 9 no_sessions empty in
    (s : Session) × (p : Packet) × (r.2 ≡ welcomed (p ∷ []))
    × Ready 8 user conn (record server { sessions = get r.0 }) s
    × (s.next_seqid_in ≡ 21)
    × ((receive_pkt hmac 1002 77 (some p) client).1 ≡ complete new_sess (0 ∷ 9 ∷ []) 40)
    × ((receive_pkt hmac 1002 77 (some p) client).0.next_seqid_in ≡ s.next_seqid_out)
unfolding Session.user_key need_resize
new_sess-agrees_example =
    new_sess-agrees hmac encode always mem_db 1001 40 6 9 1002 77 conn
      (fragment true new_sess [] 20) no_sessions server empty empty client refl refl refl refl
      (omega arith) refl no_sessions-IsValid refl refl refl
