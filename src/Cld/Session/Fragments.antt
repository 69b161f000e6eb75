-- ===== src/Cld/Session/Fragments.antt =====
-- The packets of one message, as sess_sendmsg of cld/session.c makes them.
use hail.Base.{
  ℕ, zero, suc, ◌+◌, ◌%◌, ◌≤◌, ◌<◌, ◌≡◌, refl, ◌∙◌, ap, Bool, true, false, Option, none, some, List,
  [], ◌∷◌, ◌++◌, append-nil, arith, length, take, drop, take-append-drop, length-take, length-drop,
  leb, leb→le, if◌then◌else◌, inl, inr, Bool-cases,
}
use hail.Cld.{Op}
use hail.Cld.Session.{Body, Packet, sign_all, Session, max_pkt_msg_sz, u64, fragments, number}

abbrev pub payloads : List Body → List ℕ
payloads [] = []
payloads (b ∷ bs) = b.payload ++ payloads bs

-- The packets of a message from session `s`: marks and message info on the first packet alone, the
-- end mark on the last alone, and at most 1024 bytes in each.
abbrev pub IsMessage : Session → Option (Op × ℕ) → Bool → List Body → Type 0
IsMessage s info first [] = ⊥
IsMessage s info first (b ∷ []) =
    (b.sid ≡ s.sid)
    × (b.user ≡ s.user)
    × (b.first ≡ first)
    × (b.last ≡ true)
    × (b.info ≡ (if first then info else none))
    × (length b.payload ≤ max_pkt_msg_sz)
IsMessage s info first (b ∷ c ∷ bs) =
    ((b.sid ≡ s.sid)
      × (b.user ≡ s.user)
      × (b.first ≡ first)
      × (b.last ≡ false)
      × (b.info ≡ (if first then info else none))
      × (length b.payload ≤ max_pkt_msg_sz))
    × IsMessage s info false (c ∷ bs)

IsMessage-cons :
    (s : Session) (info : Option (Op × ℕ)) (first : Bool) (b : Body) (bs : List Body)
    → (b.sid ≡ s.sid)
      × (b.user ≡ s.user)
      × (b.first ≡ first)
      × (b.last ≡ false)
      × (b.info ≡ (if first then info else none))
      × (length b.payload ≤ max_pkt_msg_sz)
    → IsMessage s info false bs
    → IsMessage s info first (b ∷ bs)
IsMessage-cons s info first b [] h m = elim m [ ]
IsMessage-cons s info first b (c ∷ bs) h m = (h, m)

module _ (s : Session) (op : Op) (xid : ℕ) where
  abbrev piece : Bool → List ℕ → Body
  piece first msg = record {
    sid = s.sid;
    user = s.user;
    first = first;
    last = false;
    info = if first then some (op, xid) else none;
    payload = take 1024 msg;
    seqid = 0;
  }

  -- Breaking a message up ends, loses no byte, and marks the packets as one message.
  pub fragments-IsMessage :
      (f : ℕ) (first : Bool) (msg : List ℕ)
      → length msg < f
      → (payloads (fragments f s op xid first msg) ≡ msg)
        × IsMessage s (some (op, xid)) first (fragments f s op xid first msg)
  unfolding fragments
  fragments-IsMessage zero first msg h = absurd (omega arith)
  fragments-IsMessage (suc f) first msg h = elim (Bool-cases (leb (length msg) 1024)) [
    | inl short ↦
        rw short (append-nil msg, (refl, refl, refl, refl, refl, leb→le (length msg) 1024 short))
    | inr long ↦
        let bound : 1024 < length msg = ground arith in
        let (bytes, shape) =
          fragments-IsMessage f false (drop 1024 msg) (omega (arith, length-drop 1024 msg)) in
        rw long (
          ap (◌++◌ (take 1024 msg)) bytes ∙ take-append-drop 1024 msg,
          IsMessage-cons s (some (op, xid)) first (piece first msg)
              (fragments f s op xid false (drop 1024 msg))
              (refl, refl, refl, refl, refl, omega (arith, length-take 1024 msg)) shape,
        )
  ]

number-payloads : (seq : ℕ) (bs : List Body) → payloads (number seq bs) ≡ payloads bs
unfolding number
number-payloads seq [] = refl
number-payloads seq (b ∷ bs) = ap (◌++◌ b.payload) (number-payloads ((seq + 1) % u64) bs)

-- The sequence numbers go up by one from `seq`, modulo 2 ^ 64.
abbrev pub Consecutive : ℕ → List Body → Type 0
Consecutive seq [] = Unit
Consecutive seq (b ∷ bs) = (b.seqid ≡ seq) × Consecutive ((seq + 1) % u64) bs

pub number-Consecutive : (seq : ℕ) (bs : List Body) → Consecutive seq (number seq bs)
unfolding number
number-Consecutive seq [] = tt
number-Consecutive seq (b ∷ bs) = (refl, number-Consecutive ((seq + 1) % u64) bs)

pub number-IsMessage :
    (s : Session) (info : Option (Op × ℕ)) (first : Bool) (seq : ℕ) (bs : List Body)
    → IsMessage s info first bs
    → IsMessage s info first (number seq bs)
unfolding number
number-IsMessage s info first seq [] m = m
number-IsMessage s info first seq (b ∷ []) m = m
number-IsMessage s info first seq (b ∷ c ∷ bs) m =
    (m.0, number-IsMessage s info false ((seq + 1) % u64) (c ∷ bs) m.1)

-- The numbered packets of a message carry its bytes in order and no others, at most 1024 in each,
-- with the op on the first alone, the end mark on the last alone, and consecutive sequence
-- numbers modulo 2 ^ 64.
pub numbered :
    (s : Session) (op : Op) (xid seq : ℕ) (msg : List ℕ)
    → let bs = number seq (fragments (suc (length msg)) s op xid true msg) in
      (payloads bs ≡ msg) × IsMessage s (some (op, xid)) true bs × Consecutive seq bs
numbered s op xid seq msg =
    let bs = fragments (suc (length msg)) s op xid true msg in
    let (bytes, shape) = fragments-IsMessage s op xid (suc (length msg)) true msg (omega arith) in
    (
      number-payloads seq bs ∙ bytes,
      number-IsMessage s (some (op, xid)) true seq bs shape,
      number-Consecutive seq bs,
    )

abbrev pub bodies : List Packet → List Body
bodies [] = []
bodies (p ∷ ps) = p.body ∷ bodies ps

pub bodies-sign_all :
    (hmac : List ℕ → Body → List ℕ) (key : List ℕ) (bs : List Body)
    → bodies (sign_all hmac key bs) ≡ bs
unfolding sign_all
bodies-sign_all hmac key [] = refl
bodies-sign_all hmac key (b ∷ bs) = ap (◌∷◌ b) (bodies-sign_all hmac key bs)
