-- ===== src/Chunkd/Clients/History.antt =====
-- A connection of chunkd/server.c over its whole life: its events in any order, with any answers
-- of the system, and the requests that came to be executed.
use hail.Base.{
  ℕ, ◌≡◌, ◌≢◌, ◌⊎◌, inl, inr, refl, sym, ◌∙◌, Bool, true, List, [], ◌∷◌, ◌++◌, Option, none, some,
  ◌-◌, length, ltb, Bool-cases, arith,
}
use hail.Chunkd.Clients.{
  req_sz, ClientState, read_fixed, read_var, exec_req, data_in, dispose, recycle, ssl_accept,
  ChunkReq, ChunkClient, cli_alloc, is_nonempty, WriteEnd,
}
use hail.Chunkd.Clients.Operations.{
  ChunkServer, Input, bytes, empty, want_write, failed, Accept, accepted, wants_read, wants_write,
  refused, Environment, Call, perform, overrun, Outcome, exec,
}
use hail.Chunkd.Clients.Events.{
  cli_read_data, fixed_read, second_len, overruns, var_end, var_read, after_read, evt_read_fixed,
  evt_read_var, evt_dispose, evt_recycle, evt_ssl_accept, state_func, before_loop,
}
use hail.Chunkd.Clients.Replies.{cli_writable-user, cli_writable-disposed}
use hail.Chunkd.Clients.Access.{Authorized, IsLogin, stays, drops, enters, passes, exec-Verdict}

-- The requests that were executed, the latest first.
abbrev pub note : ClientState → ChunkReq → List ChunkReq → List ChunkReq
note exec_req q log = q ∷ log
note _ q log = log

module _ (b64hmac : List ℕ → List ℕ → List ℕ) where
  -- What a connection can come to, as long as no record is read past the end of its buffer. The functions of other files leave a client's user as it is,
  -- and do not run for a client that is disposed of.
  pub data Reach : ChunkClient → List ChunkReq → Type 0 where
    alloc : Reach cli_alloc []
    event :
        {c : ChunkClient} {log : List ChunkReq} (ans : Environment) (srv : ChunkServer)
        → (state_func b64hmac c.state ans srv c).2 ≢ overrun
        → Reach c log
        → Reach (state_func b64hmac c.state ans srv c).0 (note c.state c.req log)
    polled :
        {c : ChunkClient} {log : List ChunkReq} (ev_read ev_write : Bool) (sent sent2 : WriteEnd)
        → Reach c log
        → Reach (before_loop ev_read ev_write sent sent2 c).0 log
    handled :
        {c : ChunkClient} {log : List ChunkReq} (c1 : ChunkClient)
        → c.state ≢ dispose
        → c1.user ≡ c.user
        → Reach c log
        → Reach c1 log

  -- A login of the user, signed by it, is among the requests.
  abbrev pub LoggedIn : List ℕ → List ChunkReq → Type 0
  LoggedIn user [] = ⊥
  LoggedIn user (q ∷ log) = IsLogin b64hmac user q ⊎ LoggedIn user log

  abbrev Known : List ℕ → List ChunkReq → Type 0
  Known user log = (user ≡ []) ⊎ LoggedIn user log

  abbrev Safe : ChunkClient → List ChunkReq → Type 0
  Safe c log = (c.state ≡ dispose) ⊎ Known c.user log

  Known-note :
      (s : ClientState) (q : ChunkReq) (user : List ℕ) (log : List ChunkReq)
      → Known user log
      → Known user (note s q log)
  Known-note exec_req q user log (inl h) = inl h
  Known-note exec_req q user log (inr h) = inr (inr h)
  Known-note read_fixed q user log h = h
  Known-note read_var q user log h = h
  Known-note data_in q user log h = h
  Known-note dispose q user log h = h
  Known-note recycle q user log h = h
  Known-note ssl_accept q user log h = h

  keep : {u v : List ℕ} (log : List ChunkReq) → v ≡ u → Known u log → Known v log
  keep log h k = rw h k

  exec-Safe :
      (ans : Environment) (srv : ChunkServer) (c : ChunkClient) (log : List ChunkReq)
      → Known c.user log
      → Safe (exec b64hmac ans srv c).0 (c.req ∷ log)
  exec-Safe ans srv c log k = elim (exec-Verdict b64hmac ans srv c) [
    | stays s ↦ inr (keep (c.req ∷ log) s.user_same (Known-note exec_req c.req c.user log k))
    | drops s n ↦ inl s
    | enters l n ↦ inr (inr (inl l))
    | passes call e s a ↦ inr (keep (c.req ∷ log) s (Known-note exec_req c.req c.user log k))
  ]

  input_user :
      (i : Input) (c : ChunkClient) (want : ℕ) (p : List ℕ × ChunkClient)
      → cli_read_data want i c ≡ some p
      → p.1.user ≡ c.user
  unfolding cli_read_data
  input_user (bytes bs) c want p h = ground arith
  input_user empty c want p h = ground arith
  input_user want_write c want p h = ground arith
  input_user failed c want p h = ground arith

  after_read-user :
      (o : Option (List ℕ × ChunkClient)) (c : ChunkClient) (srv : ChunkServer)
      (k : ChunkServer → List ℕ → ChunkClient → Outcome)
      → ((p : List ℕ × ChunkClient) → o ≡ some p → p.1.user ≡ c.user)
      → ((held : List ℕ) (c1 : ChunkClient) → (k srv held c1).0.user ≡ c1.user)
      → (after_read k srv c o).0.user ≡ c.user
  after_read-user none c srv k h keep = refl
  after_read-user (some (bs, c1)) c srv k h keep = keep (c1.held ++ bs) c1 ∙ h (bs, c1) refl

  fixed_read-user :
      (srv : ChunkServer) (held : List ℕ) (c : ChunkClient)
      → (fixed_read srv held c).0.user ≡ c.user
  unfolding fixed_read
  fixed_read-user srv held c = ground arith

  var_end-user :
      (srv : ChunkServer) (o : Option ℕ) (c : ChunkClient) → (var_end srv o c).0.user ≡ c.user
  unfolding var_end
  var_end-user srv none c = refl
  var_end-user srv (some n) c = ground arith

  var_read-user :
      (srv : ChunkServer) (held : List ℕ) (c : ChunkClient) → (var_read srv held c).0.user ≡ c.user
  unfolding var_read
  var_read-user srv held c = elim (Bool-cases (overruns c held)) [
    | inl past ↦ rw past refl
    | inr fits ↦ elim (Bool-cases (ltb (length held) c.var_len)) [
      | inl h ↦ rw (fits, h) refl
      | inr h ↦ rw (fits, h) (var_end-user srv (second_len c.req.creq) _)
    ]
  ]

  recycle_user : (srv : ChunkServer) (c : ChunkClient) → (evt_recycle srv c).0.user ≡ c.user
  unfolding evt_recycle
  recycle_user srv c = ground arith

  accept_user :
      (a : Accept) (srv : ChunkServer) (c : ChunkClient) → (evt_ssl_accept a srv c).0.user ≡ c.user
  unfolding evt_ssl_accept
  accept_user accepted srv c = refl
  accept_user wants_read srv c = refl
  accept_user wants_write srv c = refl
  accept_user refused srv c = refl

  polled_user :
      (ev_read ev_write : Bool) (sent sent2 : WriteEnd) (c : ChunkClient)
      → (before_loop ev_read ev_write sent sent2 c).0.user ≡ c.user
  unfolding before_loop
  polled_user r w sent sent2 c = grind (arith, cli_writable-user)

  polled_disposed :
      (ev_read ev_write : Bool) (sent sent2 : WriteEnd) (c : ChunkClient)
      → c.state ≡ dispose
      → (before_loop ev_read ev_write sent sent2 c).0.state ≡ dispose
  unfolding before_loop
  polled_disposed r w sent sent2 c h = grind (arith, cli_writable-disposed)

  event-Safe :
      (s : ClientState) (ans : Environment) (srv : ChunkServer) (c : ChunkClient)
      (log : List ChunkReq)
      → c.state ≡ s
      → Safe c log
      → Safe (state_func b64hmac s ans srv c).0 (note s c.req log)
  unfolding state_func evt_read_fixed evt_read_var evt_dispose evt_recycle evt_ssl_accept
  event-Safe dispose ans srv c log e k = inl e
  event-Safe s ans srv c log e (inl h) = absurd cc
  event-Safe exec_req ans srv c log e (inr k) = exec-Safe ans srv c log k
  event-Safe read_fixed ans srv c log e (inr k) = inr (
      keep log
        (after_read-user _ c srv fixed_read (input_user ans.input c (req_sz - length c.held))
          (fixed_read-user srv))
        k)
  event-Safe read_var ans srv c log e (inr k) = inr (
      keep log
        (after_read-user _ c srv var_read (input_user ans.input c (c.var_len - length c.held))
          (var_read-user srv))
        k)
  event-Safe data_in ans srv c log e (inr k) = inr k
  event-Safe recycle ans srv c log e (inr k) = inr (keep log (recycle_user srv c) k)
  event-Safe ssl_accept ans srv c log e (inr k) =
      inr (keep log (accept_user ans.ssl_accept srv c) k)

  polled-Safe :
      (ev_read ev_write : Bool) (sent sent2 : WriteEnd) (c : ChunkClient) (log : List ChunkReq)
      → Safe c log
      → Safe (before_loop ev_read ev_write sent sent2 c).0 log
  polled-Safe r w sent sent2 c log (inl h) = inl (polled_disposed r w sent sent2 c h)
  polled-Safe r w sent sent2 c log (inr k) = inr (keep log (polled_user r w sent sent2 c) k)

  Reach-Safe : (c : ChunkClient) (log : List ChunkReq) → Reach c log → Safe c log
  unfolding cli_alloc
  Reach-Safe c log alloc = inr (inl refl)
  Reach-Safe c1 log1 (event {c} {log} ans srv _ r) =
      event-Safe c.state ans srv c log refl (Reach-Safe c log r)
  Reach-Safe c1 log (polled {c} er ew s s2 r) = polled-Safe er ew s s2 c log (Reach-Safe c log r)
  Reach-Safe c1 log (handled {c} _ live same r) = elim (Reach-Safe c log r) [
    | inl h ↦ absurd (live h)
    | inr k ↦ inr (keep log same k)
  ]

  known_user :
      (c : ChunkClient) (log : List ChunkReq)
      → Safe c log
      → c.state ≡ exec_req
      → is_nonempty c.user ≡ true
      → LoggedIn c.user log
  known_user c log (inl h) e n = absurd cc
  known_user c log (inr (inl h)) e n = cc (rw h at (n))
  known_user c log (inr (inr l)) e n = l

  -- As long as no record is read past the end of its buffer, when a request of a chunk server's
  -- connection is handed to a function of another file, it has a valid header and the signature
  -- of the connection's user, a login of that user that the user signed was executed before on
  -- the connection, and a table is open if the function is not that of CHO_GET_PART or CHO_CP:
  -- whatever else was received, in whatever pieces, and whatever the system answered, where the
  -- functions of other files leave a client's user as it is and do not run for a client that is
  -- disposed of.
  pub Reach-Authorized :
      (c : ChunkClient) (log : List ChunkReq) (ans : Environment) (srv : ChunkServer) (call : Call)
      → Reach c log
      → c.state ≡ exec_req
      → (exec b64hmac ans srv c).2 ≡ perform call
      → Authorized b64hmac c.user c.table c.req call × LoggedIn c.user log
  Reach-Authorized c log ans srv call r e h = elim (exec-Verdict b64hmac ans srv c) [
    | stays s ↦ absurd (s.no_call call h)
    | drops s n ↦ absurd (n call h)
    | enters l n ↦ absurd (n call h)
    | passes call1 h1 s a ↦
        let same : perform call1 ≡ perform call = sym h1 ∙ h in
        let eq : call1 ≡ call = cc in
        (rw (sym eq) a, known_user c log (Reach-Safe c log r) e a.known)
  ]
