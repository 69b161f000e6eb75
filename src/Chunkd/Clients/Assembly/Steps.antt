-- ===== src/Chunkd/Clients/Assembly/Steps.antt =====
-- The steps by which a request of chunkd/server.c is read.
use hail.Base.{
  ℕ, ◌≤◌, ◌<◌, ◌≡◌, ◌≢◌, inl, inr, refl, sym, ◌∙◌, ap, true, false, List, [], ◌∷◌, ◌++◌, Option,
  none, some, take, drop, length, length-append, length-drop, arith,
}
use hail.Chunkd.Clients.{
  key_sz, req_sz, read_fixed, read_var, exec_req, req_op, key_len_of, ChunkClient,
}
use hail.Chunkd.Clients.Operations.{ChunkServer}
use hail.Chunkd.Clients.Events.{fixed_read, store_var, second_len, var_end, var_read}
use hail.Chunkd.Clients.Assembly.{
  Second, Follows, Phase, IsComplete, empty_or_not, nonempty_end, store_lem, read_lem,
  fixed_read-short, fixed_read-bare, fixed_read-keyed, var_read-short, var_read-end, overruns-first,
  overruns-small, at_fixed, at_key, at_second, at_nothing, whole, part,
}

module _ (hdr key second rest : List ℕ) where
  -- After a read: still reading, with less to come, or complete.
  pub data After (c : ChunkClient) (s s0 : List ℕ) : Type 0 where
    reads : Phase hdr key second rest c s → length s < length s0 → After c s s0
    ends : IsComplete hdr key second rest c s → After c s s0

  pub shorter : (b : ℕ) (w t : List ℕ) (n : ℕ) → length (drop n w ++ t) < length (b ∷ w ++ t)
  shorter b w t n =
      let d = length-drop n w in
      let a = length-append (drop n w) t in let l = length-append w t in omega arith

  pub no_second : key ≡ [] → Follows hdr key second → second ≡ []
  no_second e (inl (h, k)) = k
  no_second e (inr (h, k)) = absurd (h e)

  pub asked_record : key ≢ [] → Follows hdr key second → Second (second_len hdr) second
  asked_record h (inl (e, k)) = absurd (h e)
  asked_record h (inr (e, k)) = k

  pub fixed_step :
      (b : ℕ) (w : List ℕ) (n : ℕ) (srv : ChunkServer) (c : ChunkClient)
      → length hdr ≡ req_sz
      → key_len_of hdr ≡ length key
      → length key ≤ key_sz
      → Follows hdr key second
      → c.state ≡ read_fixed
      → hdr ≡ c.held ++ b ∷ w
      → After
          (fixed_read srv (c.held ++ b ∷ take n w) c).0
          (drop n w ++ (key ++ (second ++ rest)))
          (b ∷ w ++ (key ++ (second ++ rest)))
  fixed_step b w n srv c len kl small f st h = elim (read_lem hdr c.held w b n h) [
    | part b1 w1 e d ↦
        let l : length (c.held ++ b ∷ take n w) < req_sz =
          omega (arith, ap length e, length-append (c.held ++ b ∷ take n w) (b1 ∷ w1), len) in
        rw (fixed_read-short srv (c.held ++ b ∷ take n w) c l) (
          reads (at_fixed b1 w1 st e (ap (λ v. v ++ (key ++ (second ++ rest))) d))
            (shorter b w (key ++ (second ++ rest)) n))
    | whole e d ↦
        let held : List ℕ = c.held ++ b ∷ take n w in
        let l : length held ≡ req_sz = ap length (sym e) ∙ len in
        let k : key_len_of held ≡ length key = ap key_len_of (sym e) ∙ kl in
        elim (empty_or_not key) [
          | inl bare ↦
              let nothing = no_second bare f in
              rw (fixed_read-bare srv held c l (k ∙ ap length bare)) (
                ends (record {
                  complete = refl;
                  creq_same = sym e;
                  key_same = sym bare;
                  second_same = λ h. absurd (h nothing);
                  rest_same = rw (d, bare, nothing) refl;
                }))
          | inr (b1, w1, keyed) ↦
              rw
                (fixed_read-keyed srv held c (length w1) l (k ∙ ap length keyed)
                  (omega (arith, ap length keyed)))
                (reads
                  (at_key b1 w1 refl refl (ap length (sym keyed)) (sym e) keyed (
                    ap (λ v. v ++ (key ++ (second ++ rest))) d
                    ∙ ap (λ v. v ++ (second ++ rest)) keyed))
                  (shorter b w (key ++ (second ++ rest)) n))
        ]
  ]

  pub key_end :
      (o : Option ℕ) (srv : ChunkServer) (c : ChunkClient) (s0 : List ℕ)
      → Second o second
      → c.second_var ≡ false
      → c.req.creq ≡ hdr
      → c.req.key ≡ key
      → length (second ++ rest) < length s0
      → After (var_end srv o c).0 (second ++ rest) s0
  unfolding var_end
  key_end none srv c s0 e sv cr ks l = ends (record {
    complete = refl;
    creq_same = cr;
    key_same = ks;
    second_same = λ h. absurd (h e);
    rest_same = rw e refl;
  })
  key_end (some m) srv c s0 e sv cr ks l = elim (empty_or_not second) [
    | inl h ↦
        rw sv (
          reads (at_nothing refl refl (sym e ∙ ap length h) cr ks refl h (ap (λ v. v ++ rest) h)) l)
    | inr (b, w, h) ↦
        rw sv (reads (at_second b w refl refl (sym e) cr ks h (ap (λ v. v ++ rest) h)) l)
  ]

  -- The reading of the key.
  pub key_step :
      (b : ℕ) (w : List ℕ) (n : ℕ) (srv : ChunkServer) (c : ChunkClient)
      → Follows hdr key second
      → c.state ≡ read_var
      → c.second_var ≡ false
      → c.var_len ≡ length key
      → c.req.creq ≡ hdr
      → key ≡ c.held ++ b ∷ w
      → After
          (var_read srv (c.held ++ b ∷ take n w) c).0
          (drop n w ++ (second ++ rest))
          (b ∷ w ++ (second ++ rest))
  key_step b w n srv c f st sv vl cr h = elim (read_lem key c.held w b n h) [
    | part b1 w1 e d ↦
        let l : length (c.held ++ b ∷ take n w) < c.var_len =
          omega (arith, vl, ap length e, length-append (c.held ++ b ∷ take n w) (b1 ∷ w1)) in
        rw
          (var_read-short srv (c.held ++ b ∷ take n w) c
            (overruns-first c (c.held ++ b ∷ take n w) sv) l)
          (reads (at_key b1 w1 st sv vl cr e (ap (λ v. v ++ (second ++ rest)) d))
            (shorter b w (second ++ rest) n))
    | whole e d ↦
        let held : List ℕ = c.held ++ b ∷ take n w in
        let key_there : key ≢ [] = λ none. nonempty_end c.held b w (sym h ∙ none) in
        let l : length held ≡ c.var_len = ap length (sym e) ∙ sym vl in
        rw (var_read-end srv held c (overruns-first c held sv) l, sv, d)
          (key_end (second_len c.req.creq) srv
            (record c { held = held; req = record c.req { key = held }; second_var = false })
            (b ∷ w ++ (second ++ rest)) (rw cr (asked_record key_there f)) refl cr (sym e)
            (omega (arith, length-append w (second ++ rest))))
  ]

  pub second_end :
      (o : Option ℕ) (srv : ChunkServer) (c : ChunkClient)
      → c.second_var ≡ true
      → (var_end srv o c).0 ≡ record c { state = exec_req }
  unfolding var_end
  second_end none srv c sv = refl
  second_end (some m) srv c sv = rw sv refl

  pub second_done :
      (held s s0 : List ℕ) (srv : ChunkServer) (c : ChunkClient)
      → c.second_var ≡ true
      → length held ≡ c.var_len
      → c.req.creq ≡ hdr
      → c.req.key ≡ key
      → length second ≤ key_sz
      → second ≡ held
      → s ≡ rest
      → After (var_read srv held c).0 s s0
  second_done held s s0 srv c sv vl cr ks small e r =
      let st = store_lem (req_op c.req.creq) held c.req in
      rw
        (
          var_read-end srv held c (overruns-small c held (omega (arith, small, ap length e))) vl,
          second_end (second_len c.req.creq) srv
              (record c {
                held = held;
                req = store_var c.second_var (req_op c.req.creq) held c.req;
              })
              sv,
          sv,
        )
        (ends (record {
          complete = refl;
          creq_same = st.0 ∙ cr;
          key_same = st.1 ∙ ks;
          second_same = λ h. rw (sym cr) (st.2 ∙ sym e);
          rest_same = r;
        }))

  pub second_step :
      (b : ℕ) (w : List ℕ) (n : ℕ) (srv : ChunkServer) (c : ChunkClient)
      → c.state ≡ read_var
      → c.second_var ≡ true
      → c.var_len ≡ length second
      → c.req.creq ≡ hdr
      → c.req.key ≡ key
      → length second ≤ key_sz
      → second ≡ c.held ++ b ∷ w
      → After (var_read srv (c.held ++ b ∷ take n w) c).0 (drop n w ++ rest) (b ∷ w ++ rest)
  second_step b w n srv c st sv vl cr ks small h = elim (read_lem second c.held w b n h) [
    | part b1 w1 e d ↦
        let l : length (c.held ++ b ∷ take n w) < c.var_len =
          omega (arith, vl, ap length e, length-append (c.held ++ b ∷ take n w) (b1 ∷ w1)) in
        rw
          (var_read-short srv (c.held ++ b ∷ take n w) c
            (overruns-small c (c.held ++ b ∷ take n w) (omega (arith, small, vl, l))) l)
          (reads (at_second b1 w1 st sv vl cr ks e (ap (λ v. v ++ rest) d)) (shorter b w rest n))
    | whole e d ↦
        second_done (c.held ++ b ∷ take n w) _ _ srv c sv (ap length (sym e) ∙ sym vl) cr ks small e
          (ap (λ v. v ++ rest) d)
  ]
