-- ===== src/Atcp/Count.antt =====
-- The water level of lib/atcp.c: what is counted is what is queued.
use hail.Base.{
  All, ℕ, zero, suc, min, lt→ltb, ◌==◌, inl, inr, Bool-cases, ◌+◌, ◌-◌, ◌%◌, ◌≤◌, ◌<◌, ◌≡◌, refl,
  sym, ◌∙◌, ap, Bool, true, false, Option, none, some, List, [], ◌∷◌, ◌++◌, take, length,
  length-append, All-append, if◌then◌else◌, arith,
}
use hail.Atcp.{
  size_mod, int_mod, widened, Write, WrState, Ran, atcp_writeq, queue_each, write_free, free_each,
  write_run_compl, write_free_all, bufs, wr_iov, wr_completed, Io, took, again, broken, settle,
  after_writev, atcp_writable, wr_event, start_end, start_from, write_start, wr_init,
}
use hail.Atcp.Stream.{stream, total, Pending, wr_completed_lem}

-- A write whose length is an int.
abbrev pub Sized : Write → Type 0
Sized w = w.whole < int_mod

-- Buffers of which that holds.
abbrev pub Short : List (List ℕ × Option ℕ) → Type 0
Short rs = All (λ r. length r.0 < int_mod) rs

-- The level is the length of all writes that are queued, finished or about to be freed, the last
-- of `rest` bytes; something is left of every write that is queued, and the lengths are ints.
abbrev pub Accounts : WrState → ℕ → Type 0
Accounts wst rest =
    (wst.write_cnt ≡ (total wst.write_q + total wst.write_compl_q + rest) % size_mod)
    × Pending wst.write_q
    × (All Sized wst.write_q × All Sized wst.write_compl_q)

abbrev pub IsValid : WrState → Type 0
IsValid wst = Accounts wst 0

if-IsValid :
    (b : Bool) (r s : WrState × Ran × Bool)
    → IsValid r.0
    → IsValid s.0
    → IsValid (if b then r else s).0
if-IsValid true r s h k = h
if-IsValid false r s h k = k

total-append : (a b : List Write) → total (a ++ b) ≡ total a + total b
total-append [] b = omega arith
total-append (w ∷ a) b = omega (arith, total-append a b)

add_level :
    (cnt q c r n : ℕ)
    → cnt ≡ (q + c + r) % size_mod
    → (cnt + n) % size_mod ≡ (q + (n + 0) + c + r) % size_mod
add_level cnt q c r n h = omega (arith, h)

free_level :
    (cnt s w r : ℕ)
    → cnt ≡ (s + (w + r)) % size_mod
    → (cnt + size_mod - w % size_mod) % size_mod ≡ (s + r) % size_mod
free_level cnt s w r h = omega (arith, h)

writeq-Accounts :
    (bytes : List ℕ) (cb : Option ℕ) (wst : WrState) (rest : ℕ)
    → length bytes < int_mod
    → Accounts wst rest
    → Accounts (atcp_writeq bytes cb wst).0 rest
unfolding atcp_writeq
writeq-Accounts [] cb wst rest small h = h
writeq-Accounts (c ∷ cs) cb wst rest small (level, pending, sized) =
    let w : Write = record { buf = c ∷ cs; whole = length (c ∷ cs); cb = cb } in
    (
      add_level wst.write_cnt (total wst.write_q) (total wst.write_compl_q) rest (length (c ∷ cs))
            level
          ∙ ap (λ x. (x + total wst.write_compl_q + rest) % size_mod)
              (sym (total-append wst.write_q (w ∷ []))),
      All-append (λ x. 0 < length x.buf) wst.write_q (w ∷ []) pending (omega arith, tt),
      (All-append Sized wst.write_q (w ∷ []) sized.0 (small, tt), sized.1),
    )

queue_each-Accounts :
    (rs : List (List ℕ × Option ℕ)) (wst : WrState) (rest : ℕ)
    → Short rs
    → Accounts wst rest
    → Accounts (queue_each rs wst) rest
unfolding queue_each
queue_each-Accounts [] wst rest small h = h
queue_each-Accounts ((bytes, cb) ∷ rs) wst rest small h =
    queue_each-Accounts rs (atcp_writeq bytes cb wst).0 rest small.1
      (writeq-Accounts bytes cb wst rest small.0 h)

freed_level :
    (w : Write) (wst : WrState) (rest : ℕ)
    → Sized w
    → wst.write_cnt ≡ (total wst.write_q + total wst.write_compl_q + (w.whole + rest)) % size_mod
    → (wst.write_cnt + size_mod - widened w.whole % size_mod) % size_mod
      ≡ (total wst.write_q + total wst.write_compl_q + rest) % size_mod
freed_level w wst rest small level =
    rw (lt→ltb w.whole int_mod small)
      (free_level wst.write_cnt (total wst.write_q + total wst.write_compl_q) w.whole rest level)

Accounts-at : (wst : WrState) (a b : ℕ) → a ≡ b → Accounts wst a → Accounts wst b
Accounts-at wst a b e h = rw (← e) h

-- The bytes that one writev is given.
abbrev pub given : List (List ℕ) → ℕ
given [] = 0
given (b ∷ bs) = length b + given bs

given-take : (k : ℕ) (q : List Write) → given (bufs (take k q)) ≤ length (stream q)
given-take zero q = omega arith
given-take (suc k) [] = omega arith
given-take (suc k) (w ∷ ws) = omega (arith, given-take k ws, length-append w.buf (stream ws))

-- A writev takes no more bytes than it is given.
abbrev pub Answers : Io → WrState → Type 0
Answers (took n) wst = n ≤ given (wr_iov wst)
Answers again wst = Unit
Answers broken wst = Unit

Answers-stream : (n : ℕ) (wst : WrState) → Answers (took n) wst → n ≤ length (stream wst.write_q)
unfolding wr_iov
Answers-stream n wst h = omega (arith, h, given-take 32 wst.write_q)

wr_completed-Sized :
    (rc : ℕ) (ws : List Write)
    → All Sized ws
    → All Sized (wr_completed rc ws).0 × All Sized (wr_completed rc ws).1
unfolding wr_completed
wr_completed-Sized rc [] h = (tt, tt)
wr_completed-Sized rc (w ∷ ws) h =
    let sz = min (length w.buf) rc in
    let (left, done) = wr_completed-Sized (rc - sz) ws h.1 in
    elim (Bool-cases (rc == 0)) [
      | inl spent ↦ rw spent (h, tt)
      | inr going ↦ elim (Bool-cases (length w.buf - sz == 0)) [
        | inl all ↦ rw (going, all) (left, (h.0, done))
        | inr part ↦ rw (going, part) (h, tt)
      ]
    ]

-- What the callbacks queue has lengths that are ints.
module _ (reacts : ℕ → List (List ℕ × Option ℕ)) (returns : ℕ → Bool)
    (short : (f : ℕ) → Short (reacts f)) where
  write_free-Accounts :
      (cb : Option ℕ) (w : Write) (done : Bool) (wst : WrState) (rest : ℕ)
      → w.cb ≡ cb
      → Sized w
      → Accounts wst (w.whole + rest)
      → Accounts (write_free reacts returns w done wst).0 rest
  unfolding write_free
  write_free-Accounts none w done wst rest e small (level, pending, sized) =
      rw (write_free, e) (freed_level w wst rest small level, pending, sized)
  write_free-Accounts (some f) w false wst rest e small (level, pending, sized) =
      rw (write_free, e) (freed_level w wst rest small level, pending, sized)
  write_free-Accounts (some f) w true wst rest e small (level, pending, sized) =
      let wst1 : WrState = record wst {
        write_cnt = (wst.write_cnt + size_mod - widened w.whole % size_mod) % size_mod;
      } in
      rw (write_free, e)
        (queue_each-Accounts (reacts f) wst1 rest (short f)
          (freed_level w wst rest small level, pending, sized))

  free_each-Accounts :
      (ws : List Write) (done : Bool) (wst : WrState) (rest : ℕ)
      → All Sized ws
      → Accounts wst (total ws + rest)
      → Accounts (free_each reacts returns ws done wst).0 rest
  unfolding free_each
  free_each-Accounts [] done wst rest small h = Accounts-at wst (0 + rest) rest (omega arith) h
  free_each-Accounts (w ∷ ws) done wst rest small h =
      free_each-Accounts ws done (write_free reacts returns w done wst).0 rest small.1 (
        write_free-Accounts w.cb w done wst (total ws + rest) refl small.0 (
          Accounts-at wst (w.whole + total ws + rest) (w.whole + (total ws + rest)) (omega arith)
            h))

  write_run_compl-IsValid :
      (wst : WrState) → IsValid wst → IsValid (write_run_compl reacts returns wst).0
  unfolding write_run_compl
  write_run_compl-IsValid wst (level, pending, sized) =
      let moved : total wst.write_q + total wst.write_compl_q + 0
          ≡ total wst.write_q + 0 + (total wst.write_compl_q + 0) =
        omega arith in
      free_each-Accounts wst.write_compl_q true (record wst { write_compl_q = [] }) 0 sized.1
        (level ∙ ap (λ x. x % size_mod) moved, pending, (sized.0, tt))

  write_free_all-IsValid :
      (wst : WrState) → IsValid wst → IsValid (write_free_all reacts returns wst).0
  unfolding write_free_all
  write_free_all-IsValid wst h =
      let wst1 = (write_run_compl reacts returns wst).0 in
      let (level, pending, sized) = write_run_compl-IsValid wst h in
      let moved : total wst1.write_q + total wst1.write_compl_q + 0
          ≡ 0 + total wst1.write_compl_q + (total wst1.write_q + 0) =
        omega arith in
      free_each-Accounts wst1.write_q false (record wst1 { write_q = [] }) 0 sized.0
        (level ∙ ap (λ x. x % size_mod) moved, tt, (tt, sized.1))

  settle-IsValid :
      (deleted : Bool) (q : List Write) (wst : WrState)
      → IsValid wst
      → IsValid (settle reacts returns deleted q wst).0
  unfolding settle
  settle-IsValid deleted (w ∷ ws) wst h = h
  settle-IsValid true [] wst h = h
  settle-IsValid false [] wst h = write_free_all-IsValid (record wst { writing = false }) h

  after_writev-IsValid :
      (deleted : Bool) (n : ℕ) (wst : WrState)
      → n ≤ length (stream wst.write_q)
      → IsValid wst
      → IsValid (after_writev reacts returns deleted n wst).0
  unfolding after_writev
  after_writev-IsValid deleted n wst bound (level, pending, sized) =
      let (q, done) = wr_completed n wst.write_q in
      let (_, _, sums, left) = wr_completed_lem n wst.write_q bound pending in
      let small = wr_completed-Sized n wst.write_q sized.0 in
      let moved : total wst.write_q + total wst.write_compl_q + 0
          ≡ total q + total (wst.write_compl_q ++ done) + 0 =
        omega (arith, sums, total-append wst.write_compl_q done) in
      settle-IsValid deleted q
        (record wst { write_q = q; write_compl_q = wst.write_compl_q ++ done })
        (
          level ∙ ap (λ x. x % size_mod) moved,
          left,
          (small.0, All-append Sized wst.write_compl_q done sized.1 small.1),
        )

  atcp_writable-IsValid :
      (deleted : Bool) (io : Io) (wst : WrState)
      → Answers io wst
      → IsValid wst
      → IsValid (atcp_writable reacts returns deleted io wst).0
  unfolding atcp_writable
  atcp_writable-IsValid deleted (took n) wst a h =
      after_writev-IsValid deleted n wst (Answers-stream n wst a) h
  atcp_writable-IsValid deleted again wst a h = h
  atcp_writable-IsValid deleted broken wst a h = write_free_all-IsValid wst h

  start_end-IsValid :
      (added : Bool) (q : List Write) (wst : WrState) (ran : Ran)
      → IsValid wst
      → IsValid (start_end reacts returns added q wst ran).0
  unfolding start_end
  start_end-IsValid added [] wst ran h = h
  start_end-IsValid true (w ∷ ws) wst ran h = h
  start_end-IsValid false (w ∷ ws) wst ran h = h

  start_from-IsValid :
      (deleted added : Bool) (io : Io) (q : List Write) (wst : WrState)
      → Answers io wst
      → IsValid wst
      → IsValid (start_from reacts returns deleted added io q wst).0
  unfolding start_from
  start_from-IsValid deleted added io [] wst a h = h
  start_from-IsValid deleted added io (w ∷ ws) wst a h =
      let (wst1, ran, _) = atcp_writable reacts returns deleted io wst in
      if-IsValid wst.writing (wst, [], false) (start_end reacts returns added wst1.write_q wst1 ran)
        h (start_end-IsValid added wst1.write_q wst1 ran (atcp_writable-IsValid deleted io wst a h))

  write_start-IsValid :
      (deleted added : Bool) (io : Io) (wst : WrState)
      → Answers io wst
      → IsValid wst
      → IsValid (write_start reacts returns deleted added io wst).0
  unfolding write_start
  write_start-IsValid deleted added io wst a h =
      start_from-IsValid deleted added io wst.write_q wst a h

  -- What is done to a state from outside, with whatever answers of the socket and of the events.
  pub data Step (wst wst' : WrState) : Type 0 where
    queued :
        (bytes : List ℕ) (cb : Option ℕ)
        → length bytes < int_mod
        → wst' ≡ (atcp_writeq bytes cb wst).0
        → Step wst wst'
    started :
        (deleted added : Bool) (io : Io)
        → Answers io wst
        → wst' ≡ (write_start reacts returns deleted added io wst).0
        → Step wst wst'
    ready :
        (deleted : Bool) (io : Io)
        → Answers io wst
        → wst' ≡ (wr_event reacts returns deleted io wst).0
        → Step wst wst'
    completed : wst' ≡ (write_run_compl reacts returns wst).0 → Step wst wst'
    freed : wst' ≡ (write_free_all reacts returns wst).0 → Step wst wst'

  pub data Reach (wst : WrState) : WrState → Type 0 where
    here : Reach wst wst
    next : {t u : WrState} → Reach wst t → Step t u → Reach wst u

  Step-IsValid : (wst wst' : WrState) → Step wst wst' → IsValid wst → IsValid wst'
  unfolding wr_event
  Step-IsValid wst wst' (queued bytes cb small e) h = rw e (writeq-Accounts bytes cb wst 0 small h)
  Step-IsValid wst wst' (started deleted added io a e) h =
      rw e (write_start-IsValid deleted added io wst a h)
  Step-IsValid wst wst' (ready deleted io a e) h = rw e (
      write_run_compl-IsValid (atcp_writable reacts returns deleted io wst).0
        (atcp_writable-IsValid deleted io wst a h))
  Step-IsValid wst wst' (completed e) h = rw e (write_run_compl-IsValid wst h)
  Step-IsValid wst wst' (freed e) h = rw e (write_free_all-IsValid wst h)

  -- Whatever is queued, written, completed and freed, in whatever order and with whatever answers
  -- of the socket and the events, write_cnt is the length of all writes that are queued or
  -- finished, modulo 2 ^ 64, every queued write has something left, and the lengths fit an int:
  -- where every buffer that is queued, by a callback too, has fewer than 2 ^ 31 bytes and a
  -- writev takes no more bytes than it is given.
  pub Reach-IsValid : (wst : WrState) → Reach wr_init wst → IsValid wst
  unfolding wr_init
  Reach-IsValid wst here = (refl, tt, (tt, tt))
  Reach-IsValid wst (next {t} r s) = Step-IsValid t wst s (Reach-IsValid t r)
