-- ===== src/Chunkd/Clients/Assembly/Overrun.antt =====
-- A CHO_CP request of chunkd/server.c whose second record is longer than key2.
use hail.Base.{
  ℕ, suc, ◌-◌, ◌%◌, ◌^◌, ◌≤◌, ◌<◌, ◌≡◌, refl, ◌∙◌, ap, true, false, some, List, [], ◌∷◌, ◌++◌,
  length, take-all, ltb, ◌==◌, arith,
}
use hail.Chunkd.Clients.{
  key_sz, req_sz, cp, read_fixed, read_var, req_op, key_len_of, data_len_of, ChunkClient,
}
use hail.Chunkd.Clients.Operations.{ChunkServer, bytes, Environment, loop, overrun, Outcome}
use hail.Chunkd.Clients.Events.{
  cli_read_data, fixed_read, second_len, var_end, var_read, after_read, evt_read_fixed,
  evt_read_var, state_func, event_loop,
}
use hail.Chunkd.Clients.Assembly.{fixed_read-keyed, var_read-end}

-- A read that gives no more than what is asked for.
read_all :
    (want : ℕ) (b : ℕ) (bs : List ℕ) (c : ChunkClient)
    → length (b ∷ bs) ≤ want
    → cli_read_data want (bytes (b ∷ bs)) c ≡ some (b ∷ bs, c)
unfolding cli_read_data
read_all want b bs c h =
    let z : (want == 0) ≡ false = ground arith in rw (z, take-all want (b ∷ bs) h) refl

after_all :
    (k : ChunkServer → List ℕ → ChunkClient → Outcome) (srv : ChunkServer) (c : ChunkClient)
    (want b : ℕ) (bs : List ℕ)
    → length (b ∷ bs) ≤ want
    → after_read k srv c (cli_read_data want (bytes (b ∷ bs)) c) ≡ k srv (c.held ++ b ∷ bs) c
after_all k srv c want b bs h = rw (read_all want b bs c h) refl

-- A client that begins a request.
abbrev pub begins : ChunkClient → ChunkClient
begins c = record c { state = read_fixed; held = [] }

abbrev keyed : List ℕ → ℕ → ChunkClient → ChunkClient
keyed hdr n c = record c {
  req = record c.req { creq = hdr };
  var_len = n;
  held = [];
  state = read_var;
  second_var = false;
}

abbrev copied : List ℕ → List ℕ → ℕ → ChunkClient → ChunkClient
copied hdr key n c = record c {
  req = record c.req { creq = hdr; key = key };
  var_len = n;
  held = [];
  state = read_var;
  second_var = true;
}

abbrev pub gets : Environment → List ℕ → Environment
gets ans bs = record ans { input = bytes bs }

read_header :
    (ans : Environment) (srv : ChunkServer) (c : ChunkClient) (b : ℕ) (hdr : List ℕ) (n : ℕ)
    → length (b ∷ hdr) ≡ req_sz
    → key_len_of (b ∷ hdr) ≡ suc n
    → suc n ≤ key_sz
    → evt_read_fixed (gets ans (b ∷ hdr)) srv (begins c) ≡ (keyed (b ∷ hdr) (suc n) c, srv, loop)
unfolding evt_read_fixed
read_header ans srv c b hdr n len kl small =
    after_all fixed_read srv (begins c) req_sz b hdr (omega (arith, len))
    ∙ fixed_read-keyed srv (b ∷ hdr) (begins c) n len kl small

second_len-cp : (hdr : List ℕ) → req_op hdr ≡ cp → second_len hdr ≡ some (data_len_of hdr % 2 ^ 32)
unfolding second_len
second_len-cp hdr h = rw (second_len, h) refl

read_key :
    (ans : Environment) (srv : ChunkServer) (c : ChunkClient) (hdr : List ℕ) (b : ℕ) (key : List ℕ)
    → req_op hdr ≡ cp
    → evt_read_var (gets ans (b ∷ key)) srv (keyed hdr (length (b ∷ key)) c)
      ≡ (copied hdr (b ∷ key) (data_len_of hdr % 2 ^ 32) c, srv, loop)
unfolding evt_read_var var_end
read_key ans srv c hdr b key op =
    let c1 = keyed hdr (length (b ∷ key)) c in
    after_all var_read srv c1 (length (b ∷ key) - 0) b key (omega arith)
    ∙ var_read-end srv (b ∷ key) c1 refl refl
    ∙ rw (second_len-cp hdr op) refl

read_past :
    (ans : Environment) (srv : ChunkServer) (c : ChunkClient) (hdr key : List ℕ) (n b : ℕ)
    (bs : List ℕ)
    → req_op hdr ≡ cp
    → key_sz < length (b ∷ bs)
    → length (b ∷ bs) ≤ n
    → (evt_read_var (gets ans (b ∷ bs)) srv (copied hdr key n c)).2 ≡ overrun
unfolding evt_read_var var_read
read_past ans srv c hdr key n b bs op long given =
    let c1 = copied hdr key n c in
    let past : ltb key_sz (length (b ∷ bs)) ≡ true = ground arith in
    ap (λ r. r.2) (after_all var_read srv c1 (n - 0) b bs (omega (arith, given)))
    ∙ rw (op, past) refl

module _ (b64hmac : List ℕ → List ℕ → List ℕ) where
  goes_on :
      (ans : Environment) (rest : List Environment) (srv srv1 : ChunkServer) (c c1 : ChunkClient)
      → state_func b64hmac c.state ans srv c ≡ (c1, srv1, loop)
      → event_loop b64hmac (ans ∷ rest) srv c ≡ event_loop b64hmac rest srv1 c1
  unfolding event_loop
  goes_on ans rest srv srv1 c c1 h =
      rw (event_loop, h) (ap (λ r. event_loop b64hmac rest r.1 r.0) h)

  runs_over :
      (ans : Environment) (rest : List Environment) (srv : ChunkServer) (c : ChunkClient)
      → (state_func b64hmac c.state ans srv c).2 ≡ overrun
      → (event_loop b64hmac (ans ∷ rest) srv c).2 ≡ overrun
  unfolding event_loop
  runs_over ans rest srv c h = rw (event_loop, h) refl

  -- Whatever the client, logged in or not, and whatever the signature, a CHO_CP request whose
  -- data_len, in 32 bits, is more than CHD_KEY_SZ makes the server write past the end of key2, as
  -- soon as more than CHD_KEY_SZ bytes of its second record come in: where the fixed part, the
  -- key and these bytes each come in by one read, the key has at least one byte and no more than
  -- CHD_KEY_SZ, and data_len is no less than the bytes that come in.
  pub event_loop-overrun :
      (ans : Environment) (srv : ChunkServer) (c : ChunkClient) (hdr key second : List ℕ)
      → length hdr ≡ req_sz
      → req_op hdr ≡ cp
      → key_len_of hdr ≡ length key
      → 0 < length key
      → length key ≤ key_sz
      → key_sz < length second
      → length second ≤ data_len_of hdr % 2 ^ 32
      → (event_loop b64hmac (gets ans hdr ∷ gets ans key ∷ gets ans second ∷ []) srv (begins c)).2
        ≡ overrun
  unfolding event_loop state_func
  event_loop-overrun ans srv c [] key second len op kl full small long given = absurd (omega arith)
  event_loop-overrun ans srv c (b ∷ hdr) [] second len op kl full small long given =
      absurd (omega arith)
  event_loop-overrun ans srv c (b ∷ hdr) (d ∷ key) [] len op kl full small long given =
      absurd (omega arith)
  event_loop-overrun ans srv c (b ∷ hdr) (d ∷ key) (e ∷ second) len op kl full small long given =
      let hdr1 = b ∷ hdr in
      let n = data_len_of hdr1 % 2 ^ 32 in
      ap (λ r. r.2)
        (goes_on (gets ans hdr1) (gets ans (d ∷ key) ∷ gets ans (e ∷ second) ∷ []) srv srv
            (begins c) (keyed hdr1 (length (d ∷ key)) c)
            (read_header ans srv c b hdr (length key) len kl small)
          ∙ goes_on (gets ans (d ∷ key)) (gets ans (e ∷ second) ∷ []) srv srv
              (keyed hdr1 (length (d ∷ key)) c) (copied hdr1 (d ∷ key) n c)
              (read_key ans srv c hdr1 d key op))
      ∙ runs_over (gets ans (e ∷ second)) [] srv (copied hdr1 (d ∷ key) n c)
          (read_past ans srv c hdr1 (d ∷ key) n e second op long given)
