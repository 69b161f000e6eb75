-- ===== src/Chunkd/Clients/Access.antt =====
-- Who is let in by chunkd/server.c: a request's way to an operation.
use hail.Base.{
  ℕ, ◌≡◌, ◌≢◌, inl, inr, refl, sym, Bool, true, false, not, ◌&&◌, ◌||◌, List, [], ◌∷◌, length, ltb,
  ==→eq, Bool-cases, arith,
}
use hail.Cld.Dir.{same_bytes}
use hail.Chunkd.Clients.{
  user_sz, ChunkOp, nop, get, get_meta, put, del, list, login, table_open, check_start,
  check_status, start_tls, cp, get_part, unknown, success, invalid_argument, invalid_uri,
  signature_does_not_match, invalid_table, dispose, recycle, c_str, req_op, sig_of, ChunkReq,
  ChunkClient, is_nonempty, signed_part, req_authcheck, valid_req_hdr,
}
use hail.Chunkd.Clients.Operations.{
  ChunkServer, Environment, Call, object_get, object_get_part, object_put, object_del, object_cp,
  volume_list, cli_evt_data_in, perform, Outcome, login_user, needs_table, is_login, needs_no_login,
  operation, operate, exec,
}
use hail.Chunkd.Clients.Replies.{
  Stays, reply-Stays, chk_start-Stays, chk_status-Stays, volume_open-Stays, start_tls-Stays, never,
  refusal-disposed,
}

same_bytes→eq : (a b : List ℕ) → same_bytes a b ≡ true → a ≡ b
same_bytes→eq [] [] h = refl
same_bytes→eq [] (y ∷ ys) h = cc
same_bytes→eq (x ∷ xs) [] h = cc
same_bytes→eq (x ∷ xs) (y ∷ ys) h =
    let e : x ≡ y = ==→eq x y (ground arith) in
    let es : xs ≡ ys = same_bytes→eq xs ys (ground arith) in cc

-- The functions of other files that serve a request on an open table.
abbrev pub on_table : Call → Bool
on_table (object_get b) = true
on_table object_put = true
on_table object_del = true
on_table volume_list = true
on_table object_get_part = false
on_table object_cp = false
on_table cli_evt_data_in = false

module _ (b64hmac : List ℕ → List ℕ → List ℕ) where
  -- A request that carries a user's signature.
  abbrev pub Signed : List ℕ → ChunkReq → Type 0
  Signed user r = c_str (sig_of r.creq) ≡ b64hmac user (signed_part r)

  -- A request that may be handed to a function, for the user `u` and the table `t`.
  pub record Authorized (u t : List ℕ) (q : ChunkReq) (call : Call) : Type 0 where
    pub known : is_nonempty u ≡ true
    pub header : valid_req_hdr q.creq ≡ true
    pub signed : Signed u q
    pub opened : on_table call ≡ true → is_nonempty t ≡ true

  -- A client's login, which its user signs.
  pub record IsLogin (user : List ℕ) (r : ChunkReq) : Type 0 where
    pub asked : req_op r.creq ≡ login
    pub named : c_str r.key ≡ user
    pub proved : Signed user r

  -- What becomes of a request.
  pub data Verdict (u t : List ℕ) (q : ChunkReq) (r : Outcome) : Type 0 where
    stays : Stays u r → Verdict u t q r
    drops : r.0.state ≡ dispose → ((call : Call) → r.2 ≢ perform call) → Verdict u t q r
    enters : IsLogin r.0.user q → ((call : Call) → r.2 ≢ perform call) → Verdict u t q r
    passes :
        (call : Call) → r.2 ≡ perform call → r.0.user ≡ u → Authorized u t q call → Verdict u t q r

  check-Signed :
      (r : ChunkReq) (user : List ℕ) → req_authcheck b64hmac r user ≡ true → Signed user r
  unfolding req_authcheck
  check-Signed r user h = same_bytes→eq _ _ h

  -- A login, of a client without a user.
  login_user-Verdict :
      (ans : Environment) (srv : ChunkServer) (c : ChunkClient)
      → req_op c.req.creq ≡ login
      → Verdict c.user c.table c.req (login_user b64hmac ans srv c)
  unfolding login_user
  login_user-Verdict ans srv c h =
      elim (Bool-cases (ltb (length c.req.key) 1 || ltb user_sz (length c.req.key))) [
        | inl bad ↦ rw bad (stays (reply-Stays ans invalid_argument false srv c))
        | inr fits ↦
            let c1 : ChunkClient = record c { user = c_str c.req.key } in
            elim (Bool-cases (req_authcheck b64hmac c.req (c_str c.req.key))) [
              | inl good ↦
                  let s = reply-Stays ans success true srv c1 in
                  rw (fits, good)
                    (enters
                      (record {
                        asked = h;
                        named = sym s.user_same;
                        proved = rw s.user_same (check-Signed c.req (c_str c.req.key) good);
                      })
                      s.no_call)
              | inr wrong ↦
                  rw (fits, wrong)
                    (drops (refusal-disposed ans signature_does_not_match srv c1)
                      (reply-Stays ans signature_does_not_match false srv c1).no_call)
            ]
      ]

  -- What a request must have shown before its operation runs.
  record Admitted (op : ChunkOp) (c : ChunkClient) : Type 0 where
    is_op : req_op c.req.creq ≡ op
    hdr : valid_req_hdr c.req.creq ≡ true
    sig : is_nonempty c.user ≡ true → Signed c.user c.req
    log : is_nonempty c.user ≡ false → needs_no_login op ≡ true
    tab : needs_table op ≡ true → is_nonempty c.table ≡ true

  first_req-Verdict :
      (u t : List ℕ) (q : ChunkReq) (r : Outcome)
      → Verdict u t q r
      → Verdict u t q (record r.0 { first_req = false }, r.1, r.2)
  first_req-Verdict u t q r (stays s) =
      stays (record { user_same = s.user_same; no_call = s.no_call })
  first_req-Verdict u t q r (drops s k) = drops s k
  first_req-Verdict u t q r (enters s k) = enters s k
  first_req-Verdict u t q r (passes call e s a) = passes call e s a

  -- An operation of another file.
  call-Verdict :
      (op : ChunkOp) (call : Call) (srv : ChunkServer) (c : ChunkClient)
      → Admitted op c
      → needs_no_login op ≡ false
      → (on_table call ≡ true → needs_table op ≡ true)
      → Verdict c.user c.table c.req (c, srv, perform call)
  call-Verdict op call srv c a nl tabs =
      let known : is_nonempty c.user ≡ true = elim (Bool-cases (is_nonempty c.user)) [
        | inl h ↦ h
        | inr h ↦ let k = a.log h in cc
      ] in
      passes call refl refl (record {
        known = known;
        header = a.hdr;
        signed = a.sig known;
        opened = λ h. a.tab (tabs h);
      })

  operation-Verdict :
      (op : ChunkOp) (ans : Environment) (srv : ChunkServer) (c : ChunkClient)
      → Admitted op c
      → Verdict c.user c.table c.req (operation b64hmac op ans srv c)
  unfolding operation
  operation-Verdict login ans srv c a = login_user-Verdict ans srv c a.is_op
  operation-Verdict nop ans srv c a = stays (reply-Stays ans success true srv c)
  operation-Verdict get ans srv c a = call-Verdict get _ srv c a refl (λ h. refl)
  operation-Verdict get_meta ans srv c a = call-Verdict get_meta _ srv c a refl (λ h. refl)
  operation-Verdict get_part ans srv c a = call-Verdict get_part _ srv c a refl (λ h. cc)
  operation-Verdict put ans srv c a = call-Verdict put _ srv c a refl (λ h. refl)
  operation-Verdict del ans srv c a = call-Verdict del _ srv c a refl (λ h. refl)
  operation-Verdict cp ans srv c a = call-Verdict cp _ srv c a refl (λ h. cc)
  operation-Verdict list ans srv c a = call-Verdict list _ srv c a refl (λ h. refl)
  operation-Verdict table_open ans srv c a = stays (volume_open-Stays ans srv c)
  operation-Verdict check_start ans srv c a = stays (chk_start-Stays ans srv c)
  operation-Verdict check_status ans srv c a = stays (chk_status-Stays ans srv c)
  operation-Verdict start_tls ans srv c a = stays (start_tls-Stays ans srv c)
  operation-Verdict (unknown n) ans srv c a = stays (reply-Stays ans invalid_uri true srv c)

  operate-Verdict :
      (op : ChunkOp) (ans : Environment) (srv : ChunkServer) (c : ChunkClient)
      → Admitted op c
      → Verdict c.user c.table c.req (operate b64hmac op ans srv c)
  unfolding operate
  operate-Verdict op ans srv c a = elim (Bool-cases (is_login op && is_nonempty c.user)) [
    | inl h ↦ rw h (stays (reply-Stays ans invalid_argument false srv c))
    | inr h ↦ rw h (first_req-Verdict _ _ _ _ (operation-Verdict op ans srv c a))
  ]

  pub exec-Verdict :
      (ans : Environment) (srv : ChunkServer) (c : ChunkClient)
      → Verdict c.user c.table c.req (exec b64hmac ans srv c)
  unfolding exec
  exec-Verdict ans srv c =
      let op = req_op c.req.creq in
      let c1 : ChunkClient = record c { state = recycle } in
      elim (Bool-cases (valid_req_hdr c.req.creq)) [
        | inr bad ↦ rw bad (stays (reply-Stays ans invalid_argument false srv c))
        | inl hdr ↦
            elim (Bool-cases (is_nonempty c.user && not (req_authcheck b64hmac c.req c.user))) [
              | inl wrong ↦
                  rw (hdr, wrong) (stays (reply-Stays ans signature_does_not_match false srv c))
              | inr signed ↦
                  elim (Bool-cases (not (is_nonempty c.user) && not (needs_no_login op))) [
                    | inl stranger ↦ rw (hdr, signed, stranger) (drops refl (never true))
                    | inr known ↦ elim (Bool-cases (needs_table op && not (is_nonempty c.table))) [
                      | inl closed ↦
                          rw (hdr, signed, known, closed)
                            (stays (reply-Stays ans invalid_table false srv c1))
                      | inr opened ↦
                          rw (hdr, signed, known, opened)
                            (operate-Verdict op ans srv c1 (record {
                              is_op = refl;
                              hdr = hdr;
                              sig = λ h. check-Signed c.req c.user (ground arith);
                              log = λ h. ground arith;
                              tab = λ h. ground arith;
                            }))
                    ]
                  ]
            ]
      ]
