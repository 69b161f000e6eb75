-- ===== src/Cld/Signature.antt =====
-- The signatures of packets, lib/pkt.c. `hmac` is HMAC-SHA1 with a key over the bytes of a packet.
use hail.Base.{
  ℕ, ◌≡◌, ◌≢◌, refl, Bool, true, false, Option, none, some, List, [], ◌∷◌, ==_refl, leb, length,
  inl, inr, Bool-cases,
}
use hail.Cld.Session
use hail.Cld.Session.{Body}
use hail.Cld.Dir.{same_bytes}

pub same_bytes_refl : (a : List ℕ) → same_bytes a a ≡ true
same_bytes_refl [] = refl
same_bytes_refl (x ∷ xs) = rw (==_refl x, same_bytes_refl xs) refl

-- A key of the server is not empty.
pub nonempty : (user key : List ℕ) → Session.user_key user ≡ some key → key ≢ []
unfolding Session.user_key
nonempty [] key h = cc
nonempty (c ∷ cs) key h = elim (Bool-cases (leb 32 (length (c ∷ cs)))) [
  | inl long ↦ cc (rw (Session.user_key, long) at (h))
  | inr fits ↦ λ e. cc (rw (Session.user_key, fits) at (h), e)
]

module _ (hmac : List ℕ → Body → List ℕ) where
  -- No key and an empty one are refused.
  unfoldable pub authcheck : Option (List ℕ) → Body → List ℕ → Bool
  authcheck none b sha = false
  authcheck (some []) b sha = false
  authcheck (some (k ∷ ks)) b sha = same_bytes (hmac (k ∷ ks) b) sha

  unfoldable pub authsign : Option (List ℕ) → Body → Option (List ℕ)
  authsign none b = none
  authsign (some []) b = none
  authsign (some (k ∷ ks)) b = some (hmac (k ∷ ks) b)

  -- What was signed with a key passes the check with it.
  pub authcheck-authsign :
      (key : List ℕ) (b : Body) → key ≢ [] → authcheck (some key) b (hmac key b) ≡ true
  unfolding authcheck
  authcheck-authsign [] b h = absurd (h refl)
  authcheck-authsign (k ∷ ks) b h = same_bytes_refl (hmac (k ∷ ks) b)

  pub authsign-some :
      (key : List ℕ) (b : Body) → key ≢ [] → authsign (some key) b ≡ some (hmac key b)
  unfolding authsign
  authsign-some [] b h = absurd (h refl)
  authsign-some (k ∷ ks) b h = refl
