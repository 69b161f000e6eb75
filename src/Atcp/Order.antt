-- ===== src/Atcp/Order.antt =====
-- The order of the bytes and of the callbacks of lib/atcp.c.
use hail.Base.{
  ℕ, ◌+◌, ◌-◌, ◌%◌, ◌≤◌, ◌≡◌, refl, sym, ◌∙◌, ap, Bool, true, Option, none, some, List, [], ◌∷◌,
  ◌++◌, append_assoc, append-nil, length, drop,
}
use hail.Atcp.{
  widened, size_mod, Write, WrState, atcp_writeq, queue_each, write_free, free_each,
  write_run_compl, wr_completed, took, settle, after_writev, atcp_writable, wr_event,
}
use hail.Atcp.Stream.{stream, callback, callbacks, Pending, wr_completed_lem}

-- What several calls of atcp_writeq put on the queue.
abbrev pub written : List ℕ → Option ℕ → List Write
written [] cb = []
written (c ∷ cs) cb = record { buf = c ∷ cs; whole = length (c ∷ cs); cb = cb } ∷ []

abbrev pub writes_of : List (List ℕ × Option ℕ) → List Write
writes_of [] = []
writes_of ((bytes, cb) ∷ rest) = written bytes cb ++ writes_of rest

abbrev pub marks : Bool → List ℕ → List (ℕ × Bool)
marks done [] = []
marks done (f ∷ fs) = (f, done) ∷ marks done fs

marks-append : (done : Bool) (a b : List ℕ) → marks done (a ++ b) ≡ marks done a ++ marks done b
marks-append done [] b = refl
marks-append done (f ∷ a) b = ap (◌∷◌ (f, done)) (marks-append done a b)

callbacks-append : (a b : List Write) → callbacks (a ++ b) ≡ callbacks a ++ callbacks b
callbacks-append [] b = refl
callbacks-append (w ∷ a) b =
    ap (◌++◌ (callback w.cb)) (callbacks-append a b)
    ∙ sym (append_assoc (callback w.cb) (callbacks a) (callbacks b))

writeq-write_q :
    (bytes : List ℕ) (cb : Option ℕ) (wst : WrState)
    → ((atcp_writeq bytes cb wst).0.write_q ≡ wst.write_q ++ written bytes cb)
      × ((atcp_writeq bytes cb wst).0.write_compl_q ≡ wst.write_compl_q)
unfolding atcp_writeq
writeq-write_q [] cb wst = (sym (append-nil wst.write_q), refl)
writeq-write_q (c ∷ cs) cb wst = (refl, refl)

queue_each-write_q :
    (rs : List (List ℕ × Option ℕ)) (wst : WrState)
    → ((queue_each rs wst).write_q ≡ wst.write_q ++ writes_of rs)
      × ((queue_each rs wst).write_compl_q ≡ wst.write_compl_q)
unfolding queue_each
queue_each-write_q [] wst = (sym (append-nil wst.write_q), refl)
queue_each-write_q ((bytes, cb) ∷ rest) wst =
    let (q, compl) = writeq-write_q bytes cb wst in
    let (q', compl') = queue_each-write_q rest (atcp_writeq bytes cb wst).0 in
    (
      q'
          ∙ ap (λ x. x ++ writes_of rest) q
          ∙ append_assoc wst.write_q (written bytes cb) (writes_of rest),
      compl' ∙ compl,
    )

module _ (reacts : ℕ → List (List ℕ × Option ℕ)) (returns : ℕ → Bool) where
  -- What the callbacks of finished writes queue.
  pub new_writes : List ℕ → List Write
  new_writes [] = []
  new_writes (f ∷ fs) = writes_of (reacts f) ++ new_writes fs

  new_writes-append : (a b : List ℕ) → new_writes (a ++ b) ≡ new_writes a ++ new_writes b
  unfolding new_writes
  new_writes-append [] b = refl
  new_writes-append (f ∷ a) b =
      ap (◌++◌ (writes_of (reacts f))) (new_writes-append a b)
      ∙ sym (append_assoc (writes_of (reacts f)) (new_writes a) (new_writes b))

  write_free_lem :
      (cb : Option ℕ) (w : Write) (wst : WrState)
      → w.cb ≡ cb
      → ((write_free reacts returns w true wst).0.write_q ≡ wst.write_q ++ new_writes (callback cb))
        × ((write_free reacts returns w true wst).0.write_compl_q ≡ wst.write_compl_q)
        × ((write_free reacts returns w true wst).1 ≡ marks true (callback cb))
  unfolding write_free new_writes
  write_free_lem none w wst e = rw (write_free, e) (sym (append-nil wst.write_q), refl, refl)
  write_free_lem (some f) w wst e =
      let wst1 : WrState = record wst {
        write_cnt = (wst.write_cnt + size_mod - widened w.whole % size_mod) % size_mod;
      } in
      let (q, compl) = queue_each-write_q (reacts f) wst1 in
      rw (write_free, e)
        (q ∙ ap (◌++◌ wst.write_q) (sym (append-nil (writes_of (reacts f)))), compl, refl)

  free_each_lem :
      (ws : List Write) (wst : WrState)
      → ((free_each reacts returns ws true wst).0.write_q
          ≡ wst.write_q ++ new_writes (callbacks ws))
        × ((free_each reacts returns ws true wst).0.write_compl_q ≡ wst.write_compl_q)
        × ((free_each reacts returns ws true wst).1 ≡ marks true (callbacks ws))
  unfolding free_each new_writes
  free_each_lem [] wst = (sym (append-nil wst.write_q), refl, refl)
  free_each_lem (w ∷ ws) wst =
      let (q, compl, ran) = write_free_lem w.cb w wst refl in
      let wst1 = (write_free reacts returns w true wst).0 in
      let (q', compl', ran') = free_each_lem ws wst1 in
      (
        q'
            ∙ ap (λ x. x ++ new_writes (callbacks ws)) q
            ∙ append_assoc wst.write_q (new_writes (callback w.cb)) (new_writes (callbacks ws))
            ∙ ap (◌++◌ wst.write_q) (sym (new_writes-append (callback w.cb) (callbacks ws))),
        compl' ∙ compl,
        ap (λ x. x ++ (free_each reacts returns ws true wst1).1) ran
            ∙ ap (◌++◌ (marks true (callback w.cb))) ran'
            ∙ sym (marks-append true (callback w.cb) (callbacks ws)),
      )

  run_compl_lem :
      (wst : WrState)
      → ((write_run_compl reacts returns wst).0.write_q
          ≡ wst.write_q ++ new_writes (callbacks wst.write_compl_q))
        × ((write_run_compl reacts returns wst).0.write_compl_q ≡ [])
        × ((write_run_compl reacts returns wst).1 ≡ marks true (callbacks wst.write_compl_q))
  unfolding write_run_compl
  run_compl_lem wst = free_each_lem wst.write_compl_q (record wst { write_compl_q = [] })

  settle_lem :
      (q : List Write) (wst : WrState)
      → ((settle reacts returns true q wst).0.write_q ≡ wst.write_q)
        × ((settle reacts returns true q wst).0.write_compl_q ≡ wst.write_compl_q)
        × ((settle reacts returns true q wst).1 ≡ [])
  unfolding settle
  settle_lem [] wst = (refl, refl, refl)
  settle_lem (w ∷ ws) wst = (refl, refl, refl)

  -- A writev that took bytes puts the writes that it finished on the completion queue.
  after_writev_lem :
      (n : ℕ) (wst : WrState)
      → ((after_writev reacts returns true n wst).0.write_q ≡ (wr_completed n wst.write_q).0)
        × ((after_writev reacts returns true n wst).0.write_compl_q
            ≡ wst.write_compl_q ++ (wr_completed n wst.write_q).1)
        × ((after_writev reacts returns true n wst).1 ≡ [])
  unfolding after_writev
  after_writev_lem n wst =
      let (q, done) = wr_completed n wst.write_q in
      settle_lem q (record wst { write_q = q; write_compl_q = wst.write_compl_q ++ done })

  -- When a writev takes bytes, the write queue is left with the rest of its bytes in order,
  -- followed by what the callbacks queue, the callbacks of exactly the writes that are finished
  -- run, once each and in the order in which the writes were queued, and the completion queue is
  -- empty: where the writev takes no more bytes than are queued, every queued write has something
  -- left, and ev_del succeeds.
  pub wr_event-in_order :
      (n : ℕ) (wst : WrState)
      → n ≤ length (stream wst.write_q)
      → Pending wst.write_q
      → let r = wr_event reacts returns true (took n) wst in
        (done : List Write) × (kept : List Write) × (callbacks done ++ callbacks kept
          ≡ callbacks wst.write_q)
        × (stream kept ≡ drop n (stream wst.write_q))
        × Pending kept
        × (r.1 ≡ marks true (callbacks wst.write_compl_q ++ callbacks done))
        × (r.0.write_q ≡ kept ++ new_writes (callbacks wst.write_compl_q ++ callbacks done))
        × (r.0.write_compl_q ≡ [])
  unfolding wr_event atcp_writable
  wr_event-in_order n wst bound pending =
      let (bytes, order, _, left) = wr_completed_lem n wst.write_q bound pending in
      let (q, compl, quiet) = after_writev_lem n wst in
      let wst1 = (after_writev reacts returns true n wst).0 in
      let (q', compl', ran) = run_compl_lem wst1 in
      let finished =
        ap callbacks compl ∙ callbacks-append wst.write_compl_q (wr_completed n wst.write_q).1 in
      (
        (wr_completed n wst.write_q).1,
        (wr_completed n wst.write_q).0,
        order,
        bytes,
        left,
        ap (λ x. x ++ (write_run_compl reacts returns wst1).1) quiet
            ∙ ran
            ∙ ap (marks true) finished,
        q'
            ∙ ap (λ x. x ++ new_writes (callbacks wst1.write_compl_q)) q
            ∙ ap (λ fs. (wr_completed n wst.write_q).0 ++ new_writes fs) finished,
        compl',
      )
