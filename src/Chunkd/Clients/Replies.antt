-- ===== src/Chunkd/Clients/Replies.antt =====
-- What the operations of chunkd/server.c leave of a client: its user, its state, and what is next.
use hail.Base.{
  ℕ, ◌≡◌, ◌≢◌, inl, inr, refl, Bool, true, false, List, [], ◌∷◌, ◌++◌, if◌then◌else◌, Bool-cases,
  Option-cases, arith,
}
use hail.Chunkd.Clients.{
  ErrCode, success, access_denied, busy, dispose, recycle, resp, ChunkClient, WriteEnd, took, again,
  want_read, broken, cli_writable, cli_write_start,
}
use hail.Chunkd.Clients.Operations.{
  ChkState, off, init, idle, running, ChunkServer, Environment, Call, perform, next_of, Outcome,
  resp_init_req, cli_err, reply, cli_resp_bin, user_authorized, chk_from, chk_start, chk_status,
  volume_open, start_tls_op,
}

pub cli_writable-user : (sent : WriteEnd) (c : ChunkClient) → (cli_writable sent c).user ≡ c.user
unfolding cli_writable
cli_writable-user (took n) c = refl
cli_writable-user again c = refl
cli_writable-user want_read c = refl
cli_writable-user broken c = refl

cli_write_start-user :
    (sent : WriteEnd) (c : ChunkClient) → (cli_write_start sent c).0.user ≡ c.user
unfolding cli_write_start
cli_write_start-user sent c = let k = cli_writable-user sent c in ground arith

cli_err-user :
    (ans : Environment) (code : ErrCode) (ok : Bool) (c : ChunkClient)
    → (cli_err ans code ok c).0.user ≡ c.user
unfolding cli_err
cli_err-user ans code ok c =
    let k = cli_write_start-user ans.sent (record c {
      state = if ok then recycle else dispose;
      write_q = c.write_q ++ resp (resp_init_req c.req.creq code) ∷ [];
    }) in
    ground arith

cli_resp_bin-user :
    (ans : Environment) (buf len : List ℕ) (c : ChunkClient)
    → (cli_resp_bin ans buf len c).0.user ≡ c.user
unfolding cli_resp_bin
cli_resp_bin-user ans buf len c = let k = cli_write_start-user ans.sent in ground arith

-- No function of another file is called, and the user is `u`.
pub record Stays (u : List ℕ) (r : Outcome) : Type 0 where
  pub user_same : r.0.user ≡ u
  pub no_call : (call : Call) → r.2 ≢ perform call

pub never : (b : Bool) (call : Call) → next_of b ≢ perform call
never true call e = cc
never false call e = cc

pub reply-Stays :
    (ans : Environment) (code : ErrCode) (ok : Bool) (srv : ChunkServer) (c : ChunkClient)
    → Stays c.user (reply ans code ok srv c)
unfolding reply
reply-Stays ans code ok srv c = record {
  user_same = (cli_err-user ans code ok c);
  no_call = never (cli_err ans code ok c).1;
}

chk_from-Stays :
    (ans : Environment) (k : ChkState) (srv : ChunkServer) (c : ChunkClient)
    → Stays c.user (chk_from ans k srv c)
unfolding chk_from
chk_from-Stays ans off srv c = reply-Stays ans _ true _ c
chk_from-Stays ans init srv c = reply-Stays ans busy true srv c
chk_from-Stays ans running srv c = reply-Stays ans busy true srv c
chk_from-Stays ans idle srv c = reply-Stays ans success true _ c

pub chk_start-Stays :
    (ans : Environment) (srv : ChunkServer) (c : ChunkClient) → Stays c.user (chk_start ans srv c)
unfolding chk_start
chk_start-Stays ans srv c = elim (Bool-cases (user_authorized srv.chk_users c.user)) [
  | inl h ↦ rw h (chk_from-Stays ans srv.chk_state srv c)
  | inr h ↦ rw h (reply-Stays ans access_denied true srv c)
]

pub chk_status-Stays :
    (ans : Environment) (srv : ChunkServer) (c : ChunkClient) → Stays c.user (chk_status ans srv c)
unfolding chk_status
chk_status-Stays ans srv c = record { user_same = (cli_resp_bin-user ans _ _ c); no_call = never _ }

pub volume_open-Stays :
    (ans : Environment) (srv : ChunkServer) (c : ChunkClient) → Stays c.user (volume_open ans srv c)
unfolding volume_open
volume_open-Stays ans srv c = elim (Option-cases ans.table_err) [
  | inl h ↦ rw h (reply-Stays ans success true srv (record c { table = c.req.key }))
  | inr (err, h) ↦ rw h (reply-Stays ans err true srv c)
]

pub start_tls-Stays :
    (ans : Environment) (srv : ChunkServer) (c : ChunkClient)
    → Stays c.user (start_tls_op ans srv c)
unfolding start_tls_op
start_tls-Stays ans srv c = record { user_same = ground arith; no_call = λ call e. ground arith }

pub cli_writable-disposed :
    (sent : WriteEnd) (c : ChunkClient) → c.state ≡ dispose → (cli_writable sent c).state ≡ dispose
unfolding cli_writable
cli_writable-disposed (took n) c h = h
cli_writable-disposed again c h = h
cli_writable-disposed want_read c h = h
cli_writable-disposed broken c h = refl

cli_write_start-disposed :
    (sent : WriteEnd) (c : ChunkClient)
    → c.state ≡ dispose
    → (cli_write_start sent c).0.state ≡ dispose
unfolding cli_write_start
cli_write_start-disposed sent c h = let k = cli_writable-disposed sent c h in ground arith

pub refusal-disposed :
    (ans : Environment) (code : ErrCode) (srv : ChunkServer) (c : ChunkClient)
    → (reply ans code false srv c).0.state ≡ dispose
unfolding reply cli_err
refusal-disposed ans code srv c =
    let k =
      cli_write_start-disposed ans.sent
        (record c {
          state = dispose;
          write_q = c.write_q ++ resp (resp_init_req c.req.creq code) ∷ [];
        })
        refl in
    ground arith
