-- ===== src/Htab/Chain.antt =====
-- One hash chain: the search and the deletion loops of htab_get and htab_del.
use hail.Base.{
  ℕ, ◌+◌, ◌≡◌, refl, Bool, ◌&&◌, Option, none, some, List, [], ◌∷◌, ◌++◌, arith, ◌==◌,
  if◌then◌else◌, length,
}
use mathlib.Core.Option.{or_else}

pub record Entry {ℓ} (K V : Type ℓ) : Type ℓ where
  pub key : K
  pub value : V
  pub hash : ℕ

module _ {ℓ} {K V : Type ℓ} where
  unfoldable pub matches : (K → K → Bool) → ℕ → K → Entry K V → Bool
  matches cmp hash k e = (e.hash == hash) && cmp e.key k

  -- the first match
  unfoldable pub chain_get : (K → K → Bool) → ℕ → K → List (Entry K V) → Option V
  unfolding matches
  chain_get cmp hash k [] = none
  chain_get cmp hash k (e ∷ es) =
      if matches cmp hash k e then some e.value else chain_get cmp hash k es

  -- every match goes; what stays, and what was freed in order
  unfoldable pub chain_del :
      (K → K → Bool) → ℕ → K → List (Entry K V) → List (Entry K V) × List (Entry K V)
  unfolding matches
  chain_del cmp hash k [] = ([], [])
  chain_del cmp hash k (e ∷ es) =
      let (kept, gone) = chain_del cmp hash k es in
      if matches cmp hash k e then (kept, e ∷ gone) else (e ∷ kept, gone)

  pub chain_get-append :
      (cmp : K → K → Bool) (hash : ℕ) (k : K) (a b : List (Entry K V))
      → chain_get cmp hash k (a ++ b) ≡ or_else (chain_get cmp hash k a) (chain_get cmp hash k b)
  unfolding chain_get or_else
  chain_get-append cmp hash k [] b = refl
  chain_get-append cmp hash k (e ∷ a) b = rw (chain_get-append cmp hash k a b) (ground arith)

  pub length-chain_del :
      (cmp : K → K → Bool) (hash : ℕ) (k : K) (es : List (Entry K V))
      → length (chain_del cmp hash k es).0 + length (chain_del cmp hash k es).1 ≡ length es
  unfolding chain_del
  length-chain_del cmp hash k [] = omega arith
  length-chain_del cmp hash k (e ∷ es) = ground (arith, length-chain_del cmp hash k es)
