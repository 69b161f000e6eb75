-- ===== src/Chunkd/Clients/Events.antt =====
-- The events of a client, chunkd/server.c: the reading of a request, the states, and the loop of
-- tcp_cli_event.
use hail.Base.{
  ℕ, ◌-◌, ◌%◌, ◌^◌, Bool, true, false, not, ◌&&◌, ◌||◌, Option, none, some, List, [], ◌∷◌, ◌++◌,
  length, take, ltb, ◌==◌, if◌then◌else◌,
}
use hail.Chunkd.Clients.{
  key_sz, req_sz, getpart_sz, ChunkOp, cp, get_part, ClientState, read_fixed, read_var, exec_req,
  data_in, dispose, recycle, ssl_accept, req_op, key_len_of, data_len_of, ChunkReq, ChunkClient,
  is_nonempty, is_cp, WriteEnd, cli_writable,
}
use hail.Chunkd.Clients.Operations.{
  ChunkServer, Input, bytes, empty, want_write, failed, Accept, accepted, wants_read, wants_write,
  refused, Environment, cli_evt_data_in, loop, wait, perform, freed, overrun, Outcome, disposed,
  exec,
}

-- cli_read_data: the bytes that are read and what is left of the client, or an error.
unfoldable pub cli_read_data : ℕ → Input → ChunkClient → Option (List ℕ × ChunkClient)
cli_read_data want input c = if want == 0 then some ([], c) else elim input [
  | bytes bs ↦ if is_nonempty bs then some (take want bs, c) else none
  | empty ↦ some ([], c)
  | want_write ↦ some ([], record c { read_want_write = true })
  | failed ↦ none
]

-- cli_evt_read_fixed after the read, with all the bytes that are held.
unfoldable pub fixed_read : ChunkServer → List ℕ → ChunkClient → Outcome
fixed_read srv held c =
    let key_len = key_len_of held in
    let c1 : ChunkClient = record c { held = held; req = record c.req { creq = held } } in
    if ltb (length held) req_sz
    then (record c { held = held }, srv, wait)
    else (if key_len == 0
        then (record c1 { state = exec_req; req = record c1.req { key = [] } }, srv, loop)
        else (if ltb key_sz key_len then (record c1 { state = dispose }, srv, loop) else (
          record c1 { var_len = key_len; held = []; state = read_var; second_var = false },
          srv,
          loop,
        )))

-- Where the bytes of a record of variable length stand.
abbrev pub store_var : Bool → ChunkOp → List ℕ → ChunkReq → ChunkReq
store_var false op held r = record r { key = held }
store_var true cp held r = record r { key2 = held }
store_var true op held r = record r { creq_getpart = held }

-- The length of the second record of variable length, for the operations that have one. Nothing
-- compares that of CHO_CP with the size of key2.
unfoldable pub second_len : List ℕ → Option ℕ
unfolding req_op
second_len creq = elim (req_op creq) [
  | cp ↦ some (data_len_of creq % 2 ^ 32)
  | get_part ↦ some getpart_sz
  | _ ↦ none
]

-- The end of cli_evt_read_var, by the second record's length.
unfoldable pub var_end : ChunkServer → Option ℕ → ChunkClient → Outcome
var_end srv none c = (record c { state = exec_req }, srv, loop)
var_end srv (some n) c =
    if c.second_var
    then (record c { state = exec_req }, srv, loop)
    else (record c { var_len = n; held = []; state = read_var; second_var = true }, srv, loop)

-- Do the bytes of the present record go past the end of key2? The other buffers are as long as the
-- records that are read into them.
abbrev pub overruns : ChunkClient → List ℕ → Bool
overruns c held = c.second_var && (is_cp (req_op c.req.creq) && ltb key_sz (length held))

-- cli_evt_read_var after the read
unfoldable pub var_read : ChunkServer → List ℕ → ChunkClient → Outcome
unfolding var_end second_len
var_read srv held c =
    if overruns c held
    then (record c { held = held }, srv, overrun)
    else (if ltb (length held) c.var_len
        then (record c { held = held }, srv, wait)
        else var_end srv (second_len c.req.creq)
            (record c { held = held; req = store_var c.second_var (req_op c.req.creq) held c.req }))

-- The two reading states, by what cli_read_data gives.
abbrev pub after_read :
    (ChunkServer → List ℕ → ChunkClient → Outcome)
    → ChunkServer
    → ChunkClient
    → Option (List ℕ × ChunkClient)
    → Outcome
after_read k srv c none = disposed srv c
after_read k srv c (some (bs, c1)) = k srv (c1.held ++ bs) c1

unfoldable pub evt_read_fixed : Environment → ChunkServer → ChunkClient → Outcome
unfolding cli_read_data fixed_read
evt_read_fixed ans srv c =
    after_read fixed_read srv c (cli_read_data (req_sz - length c.held) ans.input c)

unfoldable pub evt_read_var : Environment → ChunkServer → ChunkClient → Outcome
unfolding cli_read_data var_read
evt_read_var ans srv c =
    after_read var_read srv c (cli_read_data (c.var_len - length c.held) ans.input c)

-- cli_evt_dispose
unfoldable pub evt_dispose : ChunkServer → ChunkClient → Outcome
evt_dispose srv c = (c, srv, elim c.write_q [ [] ↦ freed | o ∷ os ↦ wait ])

-- cli_evt_recycle
unfoldable pub evt_recycle : ChunkServer → ChunkClient → Outcome
evt_recycle srv c = elim c.write_q [
  | [] ↦ (record c { held = []; state = read_fixed }, srv, loop)
  | o ∷ os ↦ (c, srv, wait)
]

-- cli_evt_ssl_accept
unfoldable pub evt_ssl_accept : Accept → ChunkServer → ChunkClient → Outcome
evt_ssl_accept accepted srv c = (record c { state = recycle }, srv, loop)
evt_ssl_accept wants_read srv c = (c, srv, wait)
evt_ssl_accept wants_write srv c = (record c { read_want_write = true }, srv, wait)
evt_ssl_accept refused srv c = disposed srv c

module _ (b64hmac : List ℕ → List ℕ → List ℕ) where
  -- state_funcs
  unfoldable pub state_func : ClientState → Environment → ChunkServer → ChunkClient → Outcome
  unfolding evt_read_fixed evt_read_var exec evt_dispose evt_recycle evt_ssl_accept
  state_func read_fixed ans srv c = evt_read_fixed ans srv c
  state_func read_var ans srv c = evt_read_var ans srv c
  state_func exec_req ans srv c = exec b64hmac ans srv c
  state_func data_in ans srv c = (c, srv, perform cli_evt_data_in)
  state_func dispose ans srv c = evt_dispose srv c
  state_func recycle ans srv c = evt_recycle srv c
  state_func ssl_accept ans srv c = evt_ssl_accept ans.ssl_accept srv c

  -- The loop of tcp_cli_event, for as many answers as the system gives: it stops early when a
  -- state has to wait, frees the client or hands it to another function.
  unfoldable pub event_loop : List Environment → ChunkServer → ChunkClient → Outcome
  unfolding state_func
  event_loop [] srv c = (c, srv, loop)
  event_loop (ans ∷ rest) srv c =
      let (c1, srv1, next) = state_func c.state ans srv c in
      let more = event_loop rest srv1 c1 in elim next [ loop ↦ more | other ↦ (c1, srv1, other) ]

abbrev is_dispose : ClientState → Bool
is_dispose dispose = true
is_dispose _ = false

-- tcp_cli_event before its loop: what becomes of the writes, and whether the loop runs.
-- tcp_cli_wr_event comes first, with `ev_write`.
unfoldable pub before_loop : Bool → Bool → WriteEnd → WriteEnd → ChunkClient → ChunkClient × Bool
unfolding cli_writable
before_loop ev_read ev_write sent sent2 c =
    let c1 : ChunkClient =
      if ev_write
      then (if c.read_want_write then record c { read_want_write = false } else cli_writable sent c)
      else c in
    let c2 : ChunkClient =
      if c1.write_want_read
      then cli_writable sent2 (record c1 { write_want_read = false })
      else c1 in
    (c2, not c1.write_want_read && (ev_read || is_dispose c2.state))
