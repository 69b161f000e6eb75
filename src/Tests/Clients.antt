-- ===== src/Tests/Clients.antt =====
-- Runs of the connections of chunkd/server.c, with a signature that is one character.
use hail.Base.{
  ℕ, zero, suc, ◌<◌, ◌≡◌, ◌≢◌, ◌&&◌, refl, Bool, true, false, none, List, [], ◌∷◌, ◌++◌, replicate,
  inr, arith, All,
}
use hail.Chunkd.Clients.{req_op, op_from, chunkd_magic, ChunkReq, ChunkClient, cli_alloc, took}
use hail.Chunkd.Clients.Operations.{
  Next, overrun, off, ChunkServer, Input, bytes, empty, accepted, Environment, object_get,
}
use hail.Chunkd.Clients.Events.{event_loop, second_len, state_func}
use hail.Chunkd.Clients.Access.{Authorized}
use hail.Chunkd.Clients.History.{Reach, alloc, event, note, LoggedIn, Reach-Authorized}
use hail.Chunkd.Clients.Assembly.{read_stream, IsComplete}
use hail.Chunkd.Clients.Assembly.Overrun.{begins, gets, event_loop-overrun}
use hail.Chunkd.Clients.Assembly.Whole.{read_stream-IsComplete}

abbrev first_character : List ℕ → List ℕ → List ℕ
first_character key msg = 65 ∷ []

abbrev request : ℕ → ℕ → List ℕ
request op key_len = chunkd_magic ++ op ∷ 0 ∷ key_len ∷ 0 ∷ replicate 12 0 ++ 65 ∷ replicate 63 0

abbrev fine : Input → Environment
fine i = record {
  input = i;
  sent = took 1;
  memory = true;
  memory2 = true;
  queued = true;
  queued2 = true;
  table_err = none;
  spawned = true;
  ssl_new = true;
  ssl_set_fd = true;
  ssl_accept = accepted;
}

abbrev server : ChunkServer
server = record { chk_state = off; chk_done = replicate 8 0; chk_users = [] }

-- A request for the key, its key in one piece, and what follows it: the execution, and the
-- recycling of the client.
abbrev served : ℕ → ℕ → List Environment
served op k = fine (bytes (request op 1)) ∷ fine (bytes (k ∷ [])) ∷ fine empty ∷ fine empty ∷ []

abbrev asked : ℕ → ℕ → List Environment
asked op k = fine (bytes (request op 1)) ∷ fine (bytes (k ∷ [])) ∷ []

abbrev run : List Environment → ChunkClient → List ChunkReq → ChunkClient × List ChunkReq
unfolding state_func
run [] c log = (c, log)
run (ans ∷ rest) c log =
    run rest (state_func first_character c.state ans server c).0 (note c.state c.req log)

-- No step of a run writes past the end of a buffer.
abbrev within : Next → Bool
within overrun = false
within _ = true

abbrev fits : List Environment → ChunkClient → Bool
unfolding state_func
fits [] c = true
fits (ans ∷ rest) c =
    let (c1, _, next) = state_func first_character c.state ans server c in
    within next && fits rest c1

within-ne : (next : Next) → within next ≡ true → next ≢ overrun
within-ne next h e = cc (rw e at (h))

run-Reach :
    (answers : List Environment) (c : ChunkClient) (log : List ChunkReq)
    → fits answers c ≡ true
    → Reach first_character c log
    → let p = run answers c log in Reach first_character p.0 p.1
unfolding run fits
run-Reach [] c log h r = r
run-Reach (ans ∷ rest) c log h r = run-Reach rest _ _ (ground arith) (
    event ans server (within-ne (state_func first_character c.state ans server c).2 (ground arith))
      r)

abbrev session : List Environment
session = served 6 117 ++ served 7 116 ++ asked 1 107

abbrev reached : ChunkClient × List ChunkReq
reached = run session cli_alloc []

Reach-Authorized_example :
    Authorized first_character reached.0.user reached.0.table reached.0.req (object_get true)
    × LoggedIn first_character reached.0.user reached.1
unfolding run fits cli_alloc
Reach-Authorized_example =
    Reach-Authorized first_character reached.0 reached.1 (fine empty) server (object_get true)
      (run-Reach session cli_alloc [] refl alloc) refl refl

abbrev part_request : List ℕ
part_request = request 12 2

abbrev pieces : List ℕ
pieces = 50 ∷ 50 ∷ 1 ∷ 5 ∷ replicate 99 1

positive : (n : ℕ) → All (λ m. 0 < m) (replicate n 1)
positive zero = tt
positive (suc n) = (omega arith, positive n)

read_stream-IsComplete_example :
    let r =
      read_stream first_character
        (fine empty)
        server
        pieces
        (part_request ++ ((97 ∷ 98 ∷ []) ++ (replicate 8 1 ++ (67 ∷ []))))
        cli_alloc in
    IsComplete part_request (97 ∷ 98 ∷ []) (replicate 8 1) (67 ∷ []) r.0 r.1
unfolding second_len req_op op_from cli_alloc
read_stream-IsComplete_example =
    read_stream-IsComplete part_request (97 ∷ 98 ∷ []) (replicate 8 1) (67 ∷ []) first_character
      (fine empty) server pieces cli_alloc refl refl (omega arith) (omega arith)
      (inr (λ h. cc, refl)) (omega arith, (omega arith, (omega arith, (omega arith, positive 99))))
      (omega arith) refl refl

abbrev copy_request : List ℕ
copy_request =
    chunkd_magic ++ 11 ∷ 0 ∷ 1 ∷ 0 ∷ replicate 4 0 ++ 208 ∷ 7 ∷ replicate 6 0 ++ replicate 64 0

event_loop-overrun_example :
    (event_loop first_character
      (gets (fine empty) copy_request
        ∷ gets (fine empty) (97 ∷ [])
        ∷ gets (fine empty) (replicate 1025 1)
        ∷ [])
      server
      (begins cli_alloc)).2
    ≡ overrun
unfolding req_op op_from
event_loop-overrun_example =
    event_loop-overrun first_character (fine empty) server cli_alloc copy_request (97 ∷ [])
      (replicate 1025 1) refl refl refl (omega arith) (omega arith) (omega arith) (omega arith)
