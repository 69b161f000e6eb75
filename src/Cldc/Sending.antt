-- ===== src/Cldc/Sending.antt =====
-- The packets that cldc_new_msg and sess_send of lib/cldc.c make of a message.
use hail.Base.{
  ℕ, zero, suc, ◌+◌, ◌-◌, ◌%◌, ◌≤◌, ◌<◌, ◌≡◌, ◌≢◌, refl, ap, Bool, true, false, some, List, [], ◌∷◌,
  length, drop, length-drop, take-all, leb, leb→le, ◌==◌, inl, inr, Bool-cases, arith,
}
use hail.Cld.{Op}
use hail.Cld.Session.{Body, Packet, Session, fragments, number, sign_all, u64}
use hail.Cld.Session
use hail.Cld.Signature.{authsign-some, same_bytes_refl, nonempty}
use hail.Cldc.{Client, user_key}
use hail.Cldc.Messages.{n_pkts, make_pkts, send_pkts, send_msg, sent}

n_pkts-one : (len : ℕ) → len ≤ 1024 → n_pkts len ≡ 1
unfolding n_pkts
n_pkts-one len h = ground (arith, h)

n_pkts-more : (len : ℕ) → 1024 < len → n_pkts len ≡ suc (n_pkts (len - 1024))
unfolding n_pkts
n_pkts-more len h = ground (arith, h)

n_pkts-pos : (len : ℕ) → (n_pkts len == 0) ≡ false
unfolding n_pkts
n_pkts-pos len = ground arith

module _ (c : Client) (s : Session) (op : Op) (xid : ℕ) where
  cut :
      (f : ℕ) (first : Bool) (body : List ℕ)
      → c.sid ≡ s.sid
      → c.user ≡ s.user
      → length body < f
      → make_pkts c op xid (n_pkts (length body)) first body ≡ fragments f s op xid first body
  unfolding make_pkts fragments
  cut zero first body same_sid same_user h = absurd (omega arith)
  cut (suc f) first body same_sid same_user h = elim (Bool-cases (leb (length body) 1024)) [
    | inl short ↦
        let few = leb→le (length body) 1024 short in
        rw (n_pkts-one (length body) few, short, same_sid, same_user, take-all 1024 body few) refl
    | inr long ↦
        let many : 1024 < length body = ground (arith, long) in
        let left = length-drop 1024 body in
        let rest = cut f false (drop 1024 body) same_sid same_user (omega arith) in
        rw
          (
            n_pkts-more (length body) many,
            long,
            n_pkts-pos (length body - 1024),
            same_sid,
            same_user,
            ← left,
            rest,
          )
          refl
  ]

pub own_key :
    (user secret : List ℕ)
    → Session.user_key user ≡ some secret
    → user_key user secret user ≡ some secret
unfolding user_key Session.user_key
own_key [] secret h = cc
own_key (u ∷ us) secret h = elim (Bool-cases (leb 32 (length (u ∷ us)))) [
  | inl long ↦ cc (rw (Session.user_key, long) at (h))
  | inr fits ↦ rw (user_key, fits, same_bytes_refl (u ∷ us)) refl
]

module _ (hmac : List ℕ → Body → List ℕ) (pkt_send : Packet → Bool) where
  send_pkts-sent :
      (key : List ℕ) (seq : ℕ) (bs : List Body)
      → key ≢ []
      → (send_pkts hmac pkt_send (some key) seq bs).2 ≡ sent
      → (send_pkts hmac pkt_send (some key) seq bs).1 ≡ sign_all hmac key (number seq bs)
  unfolding send_pkts sign_all number
  send_pkts-sent key seq [] full e = refl
  send_pkts-sent key seq (b ∷ bs) full e =
      let b1 : Body = record b { seqid = seq } in
      let signs = authsign-some hmac key b1 full in
      elim (Bool-cases (pkt_send (record { body = b1; sha = hmac key b1 }))) [
        | inr broke ↦ cc (rw (send_pkts, signs, broke) at (e))
        | inl took ↦
            let e' : (send_pkts hmac pkt_send (some key) ((seq + 1) % u64) bs).2 ≡ sent =
              rw (send_pkts, signs, took) at (e) in
            rw (send_pkts, signs, took)
              (ap (◌∷◌ (record { body = b1; sha = hmac key b1 }))
                (send_pkts-sent key ((seq + 1) % u64) bs full e'))
      ]

  -- The two programs that cut messages agree: the packets that the client's cldc_new_msg and
  -- sess_send make of a message are those of the server's sess_sendmsg for a session of the same
  -- number and user, numbered from the client's next number and signed, where the client's secret
  -- is the key that the server has for its user and every packet got out.
  pub send_msg-sent :
      (now xid : ℕ) (c : Client) (s : Session) (op : Op) (body : List ℕ)
      → c.sid ≡ s.sid
      → c.user ≡ s.user
      → Session.user_key c.user ≡ some c.secret_key
      → (send_msg hmac pkt_send now xid c op body).2 ≡ sent
      → (send_msg hmac pkt_send now xid c op body).1
        ≡ sign_all hmac c.secret_key
            (number c.next_seqid_out (fragments (suc (length body)) s op xid true body))
  unfolding send_msg
  send_msg-sent now xid c s op body same_sid same_user keyed e =
      let cuts = cut c s op xid (suc (length body)) true body same_sid same_user (omega arith) in
      let key = own_key c.user c.secret_key keyed in
      rw (← cuts) (
        rw (send_msg, key)
          (send_pkts-sent c.secret_key c.next_seqid_out
            (make_pkts c op xid (n_pkts (length body)) true body)
            (nonempty c.user c.secret_key keyed) (rw (send_msg, key) at (e))))
