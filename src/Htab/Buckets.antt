-- ===== src/Htab/Buckets.antt =====
-- Where entries stand in the bucket array of lib/htab.c, and what a well-formed table is.
use mathlib.Core.List.{flatten}
use mathlib.Core.Option.{or_else}
use hail.Base.{
  ℕ, zero, suc, ◌+◌, ◌%◌, ◌<◌, ◌≡◌, refl, sym, ◌≢◌, Bool, none, some, List, [], ◌∷◌, arith, All,
  length, length-append, get_elem?, get_or, set, get_or-replicate, replicate,
}
use hail.Htab.Chain.{Entry, chain_get, chain_get-append}
use hail.Htab.{Htab, u32, primes, size_of}

abbrev pub Placed {ℓ} : {K V : Type ℓ} → ℕ → List (List (Entry K V)) → Type 0
Placed n bs = (i : ℕ) → All (λ e. e.hash % n ≡ i) (get_or bs i [])

-- One bucket for each place of the array, every entry in the bucket of its hash, and a true count.
pub record IsValid {ℓ} {K V : Type ℓ} (h : Htab K V) : Type ℓ where
  pub idx : 0 < size_of h
  pub width : length h.buckets ≡ size_of h
  pub placed : Placed (size_of h) h.buckets
  pub counted : h.n_ent ≡ length (flatten h.buckets) % u32

module _ {ℓ} {A : Type ℓ} where
  pub get_elem?-some :
      (P : A → Type 0) (xs : List A) (i : ℕ) (d x : A)
      → get_elem? xs i ≡ some x
      → All P xs
      → (get_or xs i d ≡ x) × P x
  get_elem?-some P [] i d x e h = cc
  get_elem?-some P (y ∷ xs) zero d x e h = let q : y ≡ x = cc in (q, rw (← q) h.0)
  get_elem?-some P (y ∷ xs) (suc i) d x e h = get_elem?-some P xs i d x e h.1

  -- A bucket is written anew: the entries of the table change by those of the bucket.
  pub length-flatten-set :
      (chains : List (List A)) (place : ℕ) (chain : List A)
      → place < length chains
      → length (flatten chains) + length chain
        ≡ length (flatten (set chains place chain)) + length (get_or chains place [])
  unfolding flatten
  length-flatten-set [] place chain inside = elim inside [ ]
  length-flatten-set (x ∷ chains) zero chain inside =
      omega (arith, length-append x (flatten chains), length-append chain (flatten chains))
  length-flatten-set (x ∷ chains) (suc place) chain inside = omega (
    arith,
    length-append x (flatten chains),
    length-append x (flatten (set chains place chain)),
    length-flatten-set chains place chain (omega arith),
  )

  pub flatten-replicate : (n : ℕ) → flatten {A = A} (replicate n []) ≡ []
  unfolding flatten
  flatten-replicate zero = refl
  flatten-replicate (suc n) = flatten-replicate n

pub primes-pos : (i p : ℕ) → get_elem? primes i ≡ some p → (get_or primes i 0 ≡ p) × (0 < p)
primes-pos i p e = get_elem?-some (λ q. 0 < q) primes i 0 p e (omega arith)

pub replicate-Placed {ℓ} : (K V : Type ℓ) (n m : ℕ) → Placed {K = K} {V = V} n (replicate m [])
replicate-Placed K V n m i = rw (get_or-replicate {A = List (Entry K V)} m i []) tt

module _ {ℓ} {K V : Type ℓ} where
  module _ (cmp : K → K → Bool) (hash : ℕ) (k : K) where
    pub chain_get_miss :
        (n i : ℕ) (c : List (Entry K V))
        → All (λ e. e.hash % n ≡ i) c
        → hash % n ≢ i
        → chain_get cmp hash k c ≡ none
    unfolding chain_get
    chain_get_miss n i [] h ne = refl
    chain_get_miss n i (e ∷ es) h ne =
        let other : e.hash ≢ hash = λ (q : e.hash ≡ hash). ne (rw (← q) h.0) in
        ground (arith, chain_get_miss n i es h.1 ne, other)

    flatten_nowhere :
        (bs : List (List (Entry K V)))
        → ((i : ℕ) → chain_get cmp hash k (get_or bs i []) ≡ none)
        → chain_get cmp hash k (flatten bs) ≡ none
    unfolding flatten or_else
    flatten_nowhere [] h = h 0
    flatten_nowhere (c ∷ cs) h = rw (chain_get-append, h 0, flatten_nowhere cs (λ i. h (suc i)))

    flatten_only :
        (bs : List (List (Entry K V))) (j : ℕ)
        → ((i : ℕ) → i ≢ j → chain_get cmp hash k (get_or bs i []) ≡ none)
        → chain_get cmp hash k (flatten bs) ≡ chain_get cmp hash k (get_or bs j [])
    unfolding flatten or_else
    flatten_only [] j h = refl
    flatten_only (c ∷ cs) zero h =
        let rest = flatten_nowhere cs (λ i. h (suc i) (omega arith)) in
        rw (chain_get-append, rest) (ground arith)
    flatten_only (c ∷ cs) (suc j) h =
        rw (chain_get-append, h 0 (omega arith))
          (flatten_only cs j (λ i ne. h (suc i) (omega arith)))

    -- A search of the key's bucket finds what a search of the whole table would find.
    pub flatten-get :
        (n : ℕ) (bs : List (List (Entry K V)))
        → Placed n bs
        → chain_get cmp hash k (flatten bs) ≡ chain_get cmp hash k (get_or bs (hash % n) [])
    flatten-get n bs placed =
        flatten_only bs (hash % n)
          (λ i ne. chain_get_miss n i (get_or bs i []) (placed i) (λ q. ne (sym q)))
