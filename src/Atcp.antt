-- ===== src/Atcp.antt =====
-- Asynchronous writes, lib/atcp.c: a queue of buffers for a socket, with a callback for each.
pub mod Stream
pub mod Order
pub mod Count
use hail.Base.{
  ℕ, ◌+◌, ◌-◌, ◌%◌, ◌^◌, min, Bool, true, false, ◌||◌, Option, none, some, List, [], ◌∷◌, ◌++◌,
  length, take, drop, ltb, ◌==◌, if◌then◌else◌,
}

abbrev pub size_mod : ℕ
size_mod = 2 ^ 64

-- ATCP_MAX_WR_IOV
abbrev pub max_wr_iov : ℕ
max_wr_iov = 32

-- The lengths of a write are kept as ints: those from here on would be negative.
abbrev pub int_mod : ℕ
int_mod = 2 ^ 31

-- The length of a write, an int that was set from an unsigned int, as the size_t it is taken off.
abbrev pub widened : ℕ → ℕ
widened n = if ltb n int_mod then n else n + (2 ^ 64 - 2 ^ 32)

-- struct atcp_write: what is left of the buffer, whose length is `togo`, its whole length, and the
-- callback with its data, as a number.
pub record Write : Type 0 where
  pub buf : List ℕ
  pub whole : ℕ
  pub cb : Option ℕ

-- struct atcp_wr_state
pub record WrState : Type 0 where
  pub writing : Bool
  pub write_cnt : ℕ
  pub write_cnt_max : ℕ
  pub write_q : List Write
  pub write_compl_q : List Write
  pub opt_write : ℕ

-- atcp_writeq, with memory; false for -EINVAL.
unfoldable pub atcp_writeq : List ℕ → Option ℕ → WrState → WrState × Bool
atcp_writeq [] cb wst = (wst, false)
atcp_writeq (c ∷ cs) cb wst =
    let cnt = (wst.write_cnt + length (c ∷ cs)) % size_mod in
    (
      record wst {
        write_q = wst.write_q ++ record { buf = c ∷ cs; whole = length (c ∷ cs); cb = cb } ∷ [];
        write_cnt = cnt;
        write_cnt_max = if ltb wst.write_cnt_max cnt then cnt else wst.write_cnt_max;
      },
      true,
    )

-- Several calls of atcp_writeq, by a callback.
unfoldable pub queue_each : List (List ℕ × Option ℕ) → WrState → WrState
unfolding atcp_writeq
queue_each [] wst = wst
queue_each ((bytes, cb) ∷ rest) wst = queue_each rest (atcp_writeq bytes cb wst).0

-- The callbacks that have run, each with its `done`.
abbrev pub Ran : Type 0
Ran = List (ℕ × Bool)

-- What a callback does: the writes that it queues, if its write was done, and what it returns.
module _ (reacts : ℕ → List (List ℕ × Option ℕ)) (returns : ℕ → Bool) where
  -- atcp_write_free of a write that is off its queue
  unfoldable pub write_free : Write → Bool → WrState → WrState × Ran × Bool
  unfolding queue_each
  write_free w done wst =
      let wst1 : WrState = record wst {
        write_cnt = (wst.write_cnt + size_mod - widened w.whole % size_mod) % size_mod;
      } in
      elim w.cb [
        | none ↦ (wst1, [], false)
        | some f ↦ (if done then queue_each (reacts f) wst1 else wst1, (f, done) ∷ [], returns f)
      ]

  -- The frees of a list of writes, in order.
  unfoldable pub free_each : List Write → Bool → WrState → WrState × Ran × Bool
  unfolding write_free
  free_each [] done wst = (wst, [], false)
  free_each (w ∷ ws) done wst =
      let (wst1, ran1, again1) = write_free w done wst in
      let (wst2, ran2, again2) = free_each ws done wst1 in (wst2, ran1 ++ ran2, again1 || again2)

  -- atcp_write_run_compl: nothing is added to the completion queue while it runs.
  unfoldable pub write_run_compl : WrState → WrState × Ran × Bool
  unfolding free_each
  write_run_compl wst = free_each wst.write_compl_q true (record wst { write_compl_q = [] })

  -- atcp_write_free_all
  unfoldable pub write_free_all : WrState → WrState × Ran
  unfolding write_run_compl
  write_free_all wst =
      let (wst1, ran1, _) = write_run_compl wst in
      let (wst2, ran2, _) = free_each wst1.write_q false (record wst1 { write_q = [] }) in
      (wst2, ran1 ++ ran2)

-- atcp_wr_iov: the buffers that one writev is given.
abbrev pub bufs : List Write → List (List ℕ)
bufs [] = []
bufs (w ∷ ws) = w.buf ∷ bufs ws

unfoldable pub wr_iov : WrState → List (List ℕ)
wr_iov wst = bufs (take max_wr_iov wst.write_q)

-- atcp_wr_completed over the write queue, for lengths that are ints: what is left of it, and the writes that were done. A
-- writev takes no more bytes than it is given, so that the queue does not run out.
unfoldable pub wr_completed : ℕ → List Write → List Write × List Write
wr_completed rc [] = ([], [])
wr_completed rc (w ∷ ws) =
    let sz = min (length w.buf) rc in
    let (q, done) = wr_completed (rc - sz) ws in
    if rc == 0
    then (w ∷ ws, [])
    else (if length w.buf - sz == 0
        then (q, record w { buf = [] } ∷ done)
        else (record w { buf = drop sz w.buf } ∷ ws, []))

-- The first result of writev that is not EINTR: the bytes taken, EAGAIN, or another error.
pub data Io : Type 0 where
  took : ℕ → Io
  again : Io
  broken : Io

module _ (reacts : ℕ → List (List ℕ × Option ℕ)) (returns : ℕ → Bool) where
  -- The end of atcp_writable, by what is left on the write queue; `deleted` says whether ev_del
  -- succeeds.
  unfoldable pub settle : Bool → List Write → WrState → WrState × Ran × Bool
  unfolding write_free_all
  settle deleted (w ∷ ws) wst = (wst, [], true)
  settle true [] wst = (record wst { writing = false }, [], true)
  settle false [] wst =
      let (wst1, ran) = write_free_all reacts returns (record wst { writing = false }) in
      (wst1, ran, false)

  -- atcp_writable after a writev that took `n` bytes
  unfoldable pub after_writev : Bool → ℕ → WrState → WrState × Ran × Bool
  unfolding wr_completed settle
  after_writev deleted n wst =
      let (q, done) = wr_completed n wst.write_q in
      settle deleted q (record wst { write_q = q; write_compl_q = wst.write_compl_q ++ done })

  unfoldable pub atcp_writable : Bool → Io → WrState → WrState × Ran × Bool
  unfolding after_writev
  atcp_writable deleted (took n) wst = after_writev deleted n wst
  atcp_writable deleted again wst = (wst, [], true)
  atcp_writable deleted broken wst =
      let (wst1, ran) = write_free_all reacts returns wst in (wst1, ran, false)

  -- atcp_wr_event
  unfoldable pub wr_event : Bool → Io → WrState → WrState × Ran
  unfolding atcp_writable write_run_compl
  wr_event deleted io wst =
      let (wst1, ran1, _) = atcp_writable deleted io wst in
      let (wst2, ran2, _) = write_run_compl reacts returns wst1 in (wst2, ran1 ++ ran2)

  -- The end of atcp_write_start, by what is left on the write queue; `added` says whether ev_add
  -- succeeds.
  unfoldable pub start_end : Bool → List Write → WrState → Ran → WrState × Ran × Bool
  start_end added [] wst ran =
      (record wst { opt_write = (wst.opt_write + 1) % size_mod }, ran, true)
  start_end true (w ∷ ws) wst ran = (record wst { writing = true }, ran, false)
  start_end false (w ∷ ws) wst ran = (wst, ran, true)

  unfoldable pub start_from : Bool → Bool → Io → List Write → WrState → WrState × Ran × Bool
  unfolding atcp_writable start_end
  start_from deleted added io [] wst = (wst, [], true)
  start_from deleted added io (w ∷ ws) wst =
      if wst.writing
      then (wst, [], false)
      else (let (wst1, ran, _) = atcp_writable deleted io wst in
          start_end added wst1.write_q wst1 ran)

  -- atcp_write_start
  unfoldable pub write_start : Bool → Bool → Io → WrState → WrState × Ran × Bool
  unfolding start_from
  write_start deleted added io wst = start_from deleted added io wst.write_q wst

unfoldable pub wr_init : WrState
wr_init = record {
  writing = false;
  write_cnt = 0;
  write_cnt_max = 0;
  write_q = [];
  write_compl_q = [];
  opt_write = 0;
}
