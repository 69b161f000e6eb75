-- ===== src/Chunkd/Clients/Operations.antt =====
-- The operations of chunkd/server.c on a request that is complete: cli_err, login_user, chk_start,
-- chk_status, volume_open and cli_evt_exec_req.
use hail.Base.{
  ℕ, Bool, true, false, not, ◌&&◌, ◌||◌, Option, none, some, List, [], ◌∷◌, ◌++◌, length, take,
  drop, replicate, ltb, if◌then◌else◌,
}
use hail.Cld.Dir.{same_bytes}
use hail.Chunkd.Clients.{
  user_sz, ChunkOp, nop, get, get_meta, put, del, list, login, table_open, check_start,
  check_status, start_tls, cp, get_part, unknown, ErrCode, success, access_denied, internal_error,
  invalid_argument, invalid_uri, signature_does_not_match, invalid_table, busy, ClientState,
  dispose, recycle, ssl_accept, c_str, magic_of, req_op, Resp, resp, content, ChunkClient,
  is_nonempty, req_authcheck, valid_req_hdr, WriteEnd, cli_write_start,
}

-- enum chk_state
pub data ChkState : Type 0 where
  off init idle running : ChkState

-- What the operations use of chunkd_srv.
pub record ChunkServer : Type 0 where
  pub chk_state : ChkState
  pub chk_done : List ℕ
  pub chk_users : List (List ℕ)

-- What a read of the socket gives: bytes, none of them at the end of the stream; nothing for now;
-- a write wanted first by SSL; or an error.
pub data Input : Type 0 where
  bytes : List ℕ → Input
  empty : Input
  want_write : Input
  failed : Input

-- What SSL_accept gives.
pub data Accept : Type 0 where
  accepted : Accept
  wants_read : Accept
  wants_write : Accept
  refused : Accept

-- What the system and the libraries answer in one event: the read, the socket write, the memory
-- for the response and for its content, the two calls of cli_writeq, the error of fs_table_open if
-- it fails, chk_spawn, and the SSL functions.
pub record Environment : Type 0 where
  pub input : Input
  pub sent : WriteEnd
  pub memory : Bool
  pub memory2 : Bool
  pub queued : Bool
  pub queued2 : Bool
  pub table_err : Option ErrCode
  pub spawned : Bool
  pub ssl_new : Bool
  pub ssl_set_fd : Bool
  pub ssl_accept : Accept

-- The functions of other files that a request is handed to.
pub data Call : Type 0 where
  object_get : Bool → Call
  object_get_part object_put object_del object_cp volume_list cli_evt_data_in : Call

-- What the event loop does next: go on, wait for an event, hand the client to a function, or
-- nothing, since the client is freed, or since memory past the end of a buffer was written.
pub data Next : Type 0 where
  loop : Next
  wait : Next
  perform : Call → Next
  freed : Next
  overrun : Next

abbrev pub next_of : Bool → Next
next_of b = if b then loop else wait

-- What an event leaves: the client, what it changed of the server, and what is next.
abbrev pub Outcome : Type 0
Outcome = ChunkClient × ChunkServer × Next

abbrev pub disposed : ChunkServer → ChunkClient → Outcome
disposed srv c = (record c { state = dispose }, srv, loop)

-- resp_init_req, with a code
unfoldable pub resp_init_req : List ℕ → ErrCode → Resp
resp_init_req creq code = record {
  magic = magic_of creq;
  resp_code = code;
  nonce = take 4 (drop 12 creq);
  data_len = take 8 (drop 16 creq);
}

unfoldable pub cli_err : Environment → ErrCode → Bool → ChunkClient → ChunkClient × Bool
unfolding resp_init_req cli_write_start
cli_err ans code recycle_ok c =
    let c1 : ChunkClient = record c { state = if recycle_ok then recycle else dispose } in
    if not ans.memory
    then (record c { state = dispose }, true)
    else (if ans.queued
        then cli_write_start ans.sent
            (record c1 { write_q = c.write_q ++ resp (resp_init_req c.req.creq code) ∷ [] })
        else (c1, true))

unfoldable pub reply : Environment → ErrCode → Bool → ChunkServer → ChunkClient → Outcome
unfolding cli_err
reply ans code recycle_ok srv c =
    let (c1, go) = cli_err ans code recycle_ok c in (c1, srv, next_of go)

abbrev pub is_recycle : ClientState → Bool
is_recycle recycle = true
is_recycle _ = false

-- cli_resp_bin; the content's length replaces the request's in the response.
unfoldable pub cli_resp_bin : Environment → List ℕ → List ℕ → ChunkClient → ChunkClient × Bool
unfolding resp_init_req cli_write_start
cli_resp_bin ans buf content_len c =
    let r : Resp = record (resp_init_req c.req.creq success) { data_len = content_len } in
    let c1 : ChunkClient = record c { state = recycle; write_q = c.write_q ++ resp r ∷ [] } in
    let (c2, go) =
      cli_write_start ans.sent (record c1 { write_q = c1.write_q ++ content buf ∷ [] }) in
    if not ans.memory || not ans.memory2 || not ans.queued
    then (record c { state = dispose }, true)
    else (if ans.queued2
        then (c2, is_recycle c2.state || go)
        else (record c1 { state = dispose }, true))

module _ (b64hmac : List ℕ → List ℕ → List ℕ) where
  unfoldable pub login_user : Environment → ChunkServer → ChunkClient → Outcome
  unfolding req_authcheck reply
  login_user ans srv c =
      let key_len = length c.req.key in
      let c1 : ChunkClient = record c { user = c_str c.req.key } in
      if ltb key_len 1 || ltb user_sz key_len
      then reply ans invalid_argument false srv c
      else (if req_authcheck b64hmac c.req (c_str c.req.key)
          then reply ans success true srv c1
          else reply ans signature_does_not_match false srv c1)

-- chk_user_authorized
unfoldable pub user_authorized : List (List ℕ) → List ℕ → Bool
user_authorized [] user = false
user_authorized (s ∷ rest) user = same_bytes user s || user_authorized rest user

unfoldable pub chk_from : Environment → ChkState → ChunkServer → ChunkClient → Outcome
unfolding reply
chk_from ans off srv c =
    let srv1 : ChunkServer = record srv { chk_state = init } in
    reply ans (if ans.spawned then success else internal_error) true srv1 c
chk_from ans init srv c = reply ans busy true srv c
chk_from ans running srv c = reply ans busy true srv c
chk_from ans idle srv c = reply ans success true (record srv { chk_state = running }) c

-- chk_start, without the command that it writes to the pipe of the checking thread
unfoldable pub chk_start : Environment → ChunkServer → ChunkClient → Outcome
unfolding chk_from user_authorized
chk_start ans srv c =
    if user_authorized srv.chk_users c.user
    then chk_from ans srv.chk_state srv c
    else reply ans access_denied true srv c

-- The number of chunk_check_state that a state of the check is reported by.
unfoldable pub check_state : ChkState → ℕ
check_state off = 0
check_state idle = 1
check_state init = 2
check_state running = 2

unfoldable pub chk_status : Environment → ChunkServer → ChunkClient → Outcome
unfolding check_state cli_resp_bin
chk_status ans srv c =
    let (c1, go) =
      cli_resp_bin ans (check_state srv.chk_state ∷ replicate 7 0 ++ srv.chk_done)
        (16 ∷ replicate 7 0) c in
    (c1, srv, next_of go)

-- volume_open
unfoldable pub volume_open : Environment → ChunkServer → ChunkClient → Outcome
unfolding reply
volume_open ans srv c = elim ans.table_err [
  | none ↦ reply ans success true srv (record c { table = c.req.key })
  | some err ↦ reply ans err true srv c
]

unfoldable pub start_tls_op : Environment → ChunkServer → ChunkClient → Outcome
start_tls_op ans srv c =
    if not c.first_req || not ans.ssl_new
    then disposed srv c
    else (if ans.ssl_set_fd
        then (record c { ssl = true; state = ssl_accept }, srv, loop)
        else disposed srv (record c { ssl = true }))

-- The operations that need an open table.
abbrev pub needs_table : ChunkOp → Bool
needs_table get = true
needs_table get_meta = true
needs_table put = true
needs_table del = true
needs_table list = true
needs_table _ = false

abbrev pub is_login : ChunkOp → Bool
is_login login = true
is_login _ = false

abbrev pub needs_no_login : ChunkOp → Bool
needs_no_login login = true
needs_no_login start_tls = true
needs_no_login _ = false

module _ (b64hmac : List ℕ → List ℕ → List ℕ) where
  -- The operation of a request.
  unfoldable pub operation : ChunkOp → Environment → ChunkServer → ChunkClient → Outcome
  unfolding login_user chk_start chk_status volume_open start_tls_op
  operation login ans srv c = login_user b64hmac ans srv c
  operation nop ans srv c = reply ans success true srv c
  operation get ans srv c = (c, srv, perform (object_get true))
  operation get_meta ans srv c = (c, srv, perform (object_get false))
  operation get_part ans srv c = (c, srv, perform object_get_part)
  operation put ans srv c = (c, srv, perform object_put)
  operation del ans srv c = (c, srv, perform object_del)
  operation cp ans srv c = (c, srv, perform object_cp)
  operation list ans srv c = (c, srv, perform volume_list)
  operation table_open ans srv c = volume_open ans srv c
  operation check_start ans srv c = chk_start ans srv c
  operation check_status ans srv c = chk_status ans srv c
  operation start_tls ans srv c = start_tls_op ans srv c
  operation (unknown n) ans srv c = reply ans invalid_uri true srv c

  -- The operation, and what follows it. The functions of other files do not read first_req.
  unfoldable pub operate : ChunkOp → Environment → ChunkServer → ChunkClient → Outcome
  unfolding operation
  operate op ans srv c =
      let (c1, srv1, next) = operation op ans srv c in
      if is_login op && is_nonempty c.user
      then reply ans invalid_argument false srv c
      else (record c1 { first_req = false }, srv1, next)

  -- cli_evt_exec_req
  unfoldable pub exec : Environment → ChunkServer → ChunkClient → Outcome
  unfolding operate valid_req_hdr
  exec ans srv c =
      let op = req_op c.req.creq in
      let logged_in = is_nonempty c.user in
      let have_table = is_nonempty c.table in
      let c1 : ChunkClient = record c { state = recycle } in
      if not (valid_req_hdr c.req.creq)
      then reply ans invalid_argument false srv c
      else (if logged_in && not (req_authcheck b64hmac c.req c.user)
          then reply ans signature_does_not_match false srv c
          else (if not logged_in && not (needs_no_login op)
              then disposed srv c1
              else (if needs_table op && not have_table
                  then reply ans invalid_table false srv c1
                  else operate op ans srv c1)))
