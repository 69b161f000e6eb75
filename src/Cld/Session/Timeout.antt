-- ===== src/Cld/Session/Timeout.antt =====
-- session_timeout of cld/session.c, up to the disposal of the session.
use hail.Base.{
  ℕ, ◌+◌, ◌-◌, ◌/◌, ◌≤◌, ◌<◌, ◌≡◌, ◌⊎◌, refl, Bool, true, false, not, ◌&&◌, some, List, [], arith,
  ltb, ◌==◌, if◌then◌else◌, inl, inr, Bool-cases,
}
use hail.Cld.{ping}
use hail.Cld.Session.{Body, Packet, ping_done, Session, sess_timeout, sendmsg}

-- The session stays, with the delay that its timer is armed with, or it is disposed of.
pub data Outcome : Type 0 where
  kept : Session × List Packet → ℕ → Outcome
  disposed : Outcome

-- A truth value of C.
abbrev truth : Bool → ℕ
truth b = if b then 1 else 0

soon : (last : ℕ) (b : Bool) → ltb (truth b) (last + 60) ≡ true
soon last b = ground arith

swap : {A : Type 0} (b : Bool) (x y : A) → (if not b && true then x else y) ≡ (if b then y else x)
swap true x y = refl
swap false x y = refl

module _ (hmac : List ℕ → Body → List ℕ) (current now xid : ℕ) where
  -- A CMO_PING, which has no body.
  unfoldable pub send_ping : Session → Session × List Packet
  send_ping s =
      let (s', pkts, sent) =
        sendmsg hmac current xid (record s { ping_open = true }) (some []) ping ping_done in
      (s', pkts)

  -- The second part of the test compares the expiry with a truth value: + binds tighter than &&, so
  -- that the value is that of `last_contact + CLD_SESS_TIMEOUT / 2 && sock_fd > 0`.
  unfoldable pub session_timeout : Session → Outcome
  unfolding send_ping
  session_timeout s =
      let expire = s.last_contact + sess_timeout in
      let value = truth (not (s.last_contact + sess_timeout / 2 == 0) && ltb 0 s.sock_fd) in
      if not s.dead && ltb now expire
      then kept (if not s.ping_open && ltb value expire then send_ping s else (s, []))
          ((expire - now) / 2 + 1)
      else disposed

  -- When the timer of a session goes off, either the session is dead or sixty seconds have passed
  -- since its last contact, and it is disposed of; or it stays, its timer is armed with a delay
  -- of at least a second that ends within the sixty, and a ping is sent exactly if none is open,
  -- whatever the time since the last contact and even without a socket.
  pub session_timeout-cases :
      (s : Session)
      → ((s.dead ≡ true) ⊎ (s.last_contact + sess_timeout ≤ now)) × (session_timeout s ≡ disposed)
        ⊎ ((s.dead ≡ false)
            × ((delay : ℕ) × (1 ≤ delay)
                × (now + delay ≤ s.last_contact + sess_timeout)
                × (session_timeout s ≡ kept (if s.ping_open then (s, []) else send_ping s) delay)))
  unfolding session_timeout
  session_timeout-cases s = elim (Bool-cases s.dead) [
    | inl dead ↦ rw (session_timeout, dead) (inl (inl refl, refl))
    | inr alive ↦ elim (Bool-cases (ltb now (s.last_contact + sess_timeout))) [
      | inr late ↦ rw (session_timeout, alive, late) (inl (inr (ground (arith, late)), refl))
      | inl early ↦
          let wait = s.last_contact + sess_timeout - now in
          let ahead : now < s.last_contact + sess_timeout = ground (arith, early) in
          rw
            (
              session_timeout,
              early,
              soon s.last_contact (not (s.last_contact + sess_timeout / 2 == 0) && ltb 0 s.sock_fd),
              swap s.ping_open (send_ping s) (s, []),
            )
            (rw alive (inr (refl, (wait / 2 + 1, omega arith, omega (arith, ahead), refl))))
    ]
  ]
