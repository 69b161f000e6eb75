-- ===== src/Chunkd/Clients/Assembly.antt =====
-- The reading of requests, chunkd/server.c: what a request is made of however its bytes come in.
pub mod Steps
pub mod Whole
pub mod Overrun
use hail.Base.{
  ℕ, zero, suc, ◌+◌, ◌-◌, ◌≤◌, ◌<◌, ◌≡◌, ◌≢◌, ◌⊎◌, inl, inr, refl, sym, ◌∙◌, ap, Bool, true, false,
  not, ◌&&◌, List, [], ◌∷◌, ◌++◌, Option, none, some, take, drop, length, length-append,
  length-drop, append_assoc, append-nil, ltb, ◌==◌, if◌then◌else◌, Bool-cases, arith,
  take-append-drop, lt→ltb, All,
}
use hail.Chunkd.Clients.{
  key_sz, req_sz, ChunkOp, cp, ClientState, read_fixed, read_var, exec_req, req_op, key_len_of,
  ChunkReq, ChunkClient, is_nonempty,
}
use hail.Chunkd.Clients.Operations.{ChunkServer, bytes, Environment, loop, Outcome}
use mathlib.Core.Path.{subst}
use hail.Chunkd.Clients.Events.{
  cli_read_data, fixed_read, store_var, second_len, overruns, var_end, var_read, after_read,
  state_func,
}

-- How many bytes a client's state asks for.
abbrev pub wanted : ClientState → ChunkClient → ℕ
wanted read_fixed c = req_sz - length c.held
wanted read_var c = c.var_len - length c.held
wanted _ c = 0

abbrev pub is_reading : ClientState → Bool
is_reading read_fixed = true
is_reading read_var = true
is_reading _ = false

-- A stream that is read until a request is to be executed. Each size is the number of bytes that
-- the socket has at that time; a read gives as many of them as it asks for.
module _ (b64hmac : List ℕ → List ℕ → List ℕ) (ans : Environment) (srv : ChunkServer) where
  unfoldable pub read_stream : List ℕ → List ℕ → ChunkClient → ChunkClient × List ℕ
  unfolding state_func
  read_stream [] s c = (c, s)
  read_stream (n ∷ sizes) s c =
      let here : Environment = record ans { input = bytes (take n s) } in
      let c1 = (state_func b64hmac c.state here srv c).0 in
      let more = read_stream sizes (drop (length (take (wanted c.state c) (take n s))) s) c1 in
      if is_reading c.state then more else (c, s)

-- The second record, for its length.
abbrev pub Second : Option ℕ → List ℕ → Type 0
Second none second = second ≡ []
Second (some n) second = length second ≡ n

-- What follows the fixed part of a request: nothing without a key, and after a key the second
-- record of the operations that have one.
abbrev pub Follows : List ℕ → List ℕ → List ℕ → Type 0
Follows hdr key second =
    ((key ≡ []) × (second ≡ [])) ⊎ ((key ≢ []) × Second (second_len hdr) second)

-- Where the second record is.
abbrev pub stored : ChunkOp → ChunkReq → List ℕ
stored cp q = q.key2
stored _ q = q.creq_getpart

pub take_wanted : (n : ℕ) (w t : List ℕ) → take (length w) (take n (w ++ t)) ≡ take n w
take_wanted zero [] t = refl
take_wanted zero (b ∷ w) t = refl
take_wanted (suc n) [] t = refl
take_wanted (suc n) (b ∷ w) t = ap (◌∷◌ b) (take_wanted n w t)

pub drop_read : (n : ℕ) (w t : List ℕ) → drop (length (take n w)) (w ++ t) ≡ drop n w ++ t
drop_read zero w t = refl
drop_read (suc n) [] t = refl
drop_read (suc n) (b ∷ w) t = drop_read n w t

pub read_bytes :
    (want : ℕ) (bs : List ℕ) (c : ChunkClient)
    → is_nonempty bs ≡ true
    → cli_read_data want (bytes bs) c ≡ some (take want bs, c)
unfolding cli_read_data
read_bytes zero bs c h = refl
read_bytes (suc want) bs c h = let z : (suc want == 0) ≡ false = ground arith in rw (h, z) refl

module _ (hdr key second rest : List ℕ) where
  -- The reading states, with what is still to come of the present record.
  pub data Phase (c : ChunkClient) (s : List ℕ) : Type 0 where
    at_fixed :
        (b : ℕ) (w : List ℕ)
        → c.state ≡ read_fixed
        → hdr ≡ c.held ++ b ∷ w
        → s ≡ b ∷ w ++ (key ++ (second ++ rest))
        → Phase c s
    at_key :
        (b : ℕ) (w : List ℕ)
        → c.state ≡ read_var
        → c.second_var ≡ false
        → c.var_len ≡ length key
        → c.req.creq ≡ hdr
        → key ≡ c.held ++ b ∷ w
        → s ≡ b ∷ w ++ (second ++ rest)
        → Phase c s
    at_second :
        (b : ℕ) (w : List ℕ)
        → c.state ≡ read_var
        → c.second_var ≡ true
        → c.var_len ≡ length second
        → c.req.creq ≡ hdr
        → c.req.key ≡ key
        → second ≡ c.held ++ b ∷ w
        → s ≡ b ∷ w ++ rest
        → Phase c s
    at_nothing :
        c.state ≡ read_var
        → c.second_var ≡ true
        → c.var_len ≡ 0
        → c.req.creq ≡ hdr
        → c.req.key ≡ key
        → c.held ≡ []
        → second ≡ []
        → s ≡ rest
        → Phase c s

  -- A client whose request is complete.
  pub record IsComplete (c : ChunkClient) (s : List ℕ) : Type 0 where
    pub complete : c.state ≡ exec_req
    pub creq_same : c.req.creq ≡ hdr
    pub key_same : c.req.key ≡ key
    pub second_same : second ≢ [] → stored (req_op hdr) c.req ≡ second
    pub rest_same : s ≡ rest

pub read_in :
    (k : ChunkServer → List ℕ → ChunkClient → Outcome) (srv : ChunkServer) (c : ChunkClient)
    (want n b : ℕ) (w t : List ℕ)
    → want ≡ length (b ∷ w)
    → after_read k srv c (cli_read_data want (bytes (take (suc n) (b ∷ w ++ t))) c)
      ≡ k srv (c.held ++ b ∷ take n w) c
read_in k srv c want n b w t h =
    rw (h, read_bytes (suc (length w)) (b ∷ take n (w ++ t)) c refl, take_wanted n w t) refl

pub empty_or_not : (xs : List ℕ) → (xs ≡ []) ⊎ ((b : ℕ) × (w : List ℕ) × (xs ≡ b ∷ w))
empty_or_not [] = inl refl
empty_or_not (x ∷ xs) = inr (x, xs, refl)

pub nonempty_end : (held : List ℕ) (b : ℕ) (w : List ℕ) → held ++ b ∷ w ≢ []
nonempty_end [] b w h = cc
nonempty_end (x ∷ held) b w h = cc

pub store_lem :
    (op : ChunkOp) (held : List ℕ) (q : ChunkReq)
    → ((store_var true op held q).creq ≡ q.creq)
      × ((store_var true op held q).key ≡ q.key)
      × (stored op (store_var true op held q) ≡ held)
store_lem cp held q = (refl, refl, refl)
store_lem _ held q = (refl, refl, refl)

-- A record after a read: complete, or not yet.
pub data Read (full held w : List ℕ) (b n : ℕ) : Type 0 where
  whole : full ≡ held ++ b ∷ take n w → drop n w ≡ [] → Read full held w b n
  part :
      (b1 : ℕ) (w1 : List ℕ)
      → full ≡ (held ++ b ∷ take n w) ++ b1 ∷ w1
      → drop n w ≡ b1 ∷ w1
      → Read full held w b n

pub read_lem : (full held w : List ℕ) (b n : ℕ) → full ≡ held ++ b ∷ w → Read full held w b n
read_lem full held w b n h = go (drop n w) refl
  where
    go : (d : List ℕ) → drop n w ≡ d → Read full held w b n
    go [] e =
        let same : take n w ≡ w =
          sym (append-nil (take n w)) ∙ ap (λ d. take n w ++ d) (sym e) ∙ take-append-drop n w in
        whole (h ∙ ap (λ v. held ++ b ∷ v) (sym same)) e
    go (b1 ∷ w1) e =
        let same : take n w ++ b1 ∷ w1 ≡ w =
          ap (λ d. take n w ++ d) (sym e) ∙ take-append-drop n w in
        part b1 w1
          (h
            ∙ ap (λ v. held ++ b ∷ v) (sym same)
            ∙ sym (append_assoc held (b ∷ take n w) (b1 ∷ w1)))
          e

pub fixed_read-short :
    (srv : ChunkServer) (h : List ℕ) (c : ChunkClient)
    → length h < req_sz
    → (fixed_read srv h c).0 ≡ record c { held = h }
unfolding fixed_read
fixed_read-short srv h c l = rw (lt→ltb (length h) req_sz l) refl

pub fixed_read-bare :
    (srv : ChunkServer) (h : List ℕ) (c : ChunkClient)
    → length h ≡ req_sz
    → key_len_of h ≡ 0
    → (fixed_read srv h c).0
      ≡ record c { held = h; req = record c.req { creq = h; key = [] }; state = exec_req }
unfolding fixed_read
fixed_read-bare srv h c l k = rw (l, k) refl

pub fixed_read-keyed :
    (srv : ChunkServer) (h : List ℕ) (c : ChunkClient) (n : ℕ)
    → length h ≡ req_sz
    → key_len_of h ≡ suc n
    → suc n ≤ key_sz
    → fixed_read srv h c ≡ (
      record c {
        req = record c.req { creq = h };
        var_len = suc n;
        held = [];
        state = read_var;
        second_var = false;
      },
      srv,
      loop,
    )
unfolding fixed_read
fixed_read-keyed srv h c n l k m =
    let small : ltb key_sz (suc n) ≡ false = ground arith in
    let some_key : (suc n == 0) ≡ false = ground arith in rw (l, k, small, some_key) refl

-- The first record never runs over, and the second one does not as long as key2 is.
pub overruns-first : (c : ChunkClient) (h : List ℕ) → c.second_var ≡ false → overruns c h ≡ false
overruns-first c h e = ground arith

pub overruns-small : (c : ChunkClient) (h : List ℕ) → length h ≤ key_sz → overruns c h ≡ false
overruns-small c h e = ground arith

pub var_read-short :
    (srv : ChunkServer) (h : List ℕ) (c : ChunkClient)
    → overruns c h ≡ false
    → length h < c.var_len
    → (var_read srv h c).0 ≡ record c { held = h }
unfolding var_read
var_read-short srv h c fits l = rw (fits, lt→ltb (length h) c.var_len l) refl

pub var_read-end :
    (srv : ChunkServer) (h : List ℕ) (c : ChunkClient)
    → overruns c h ≡ false
    → length h ≡ c.var_len
    → var_read srv h c
      ≡ var_end srv
          (second_len c.req.creq)
          (record c { held = h; req = store_var c.second_var (req_op c.req.creq) h c.req })
unfolding var_read
var_read-end srv h c fits l =
    let same : ltb (length h) c.var_len ≡ false = ground arith in rw (fits, same) refl
