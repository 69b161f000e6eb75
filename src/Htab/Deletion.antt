-- ===== src/Htab/Deletion.antt =====
-- htab_del of lib/htab.c: every entry that matches the key goes.
use mathlib.Core.List.{flatten}
use hail.Base.{
  ℕ, ◌+◌, ◌-◌, ◌%◌, ◌<◌, ◌≡◌, refl, ◌∙◌, ◌≢◌, ap, Bool, true, false, ◌&&◌, Option, none, some, List,
  [], ◌∷◌, arith, All, length, length-set, get_or, set, get_or-set_self, get_or-set_ne, ◌==◌,
  if◌then◌else◌, inl, inr, Bool-cases,
}
use native.Mathlib.Decide.{ℕ_discrete}
use hail.Htab.Chain.{Entry, matches, chain_get, chain_del, length-chain_del}
use hail.Htab.Buckets.{IsValid, length-flatten-set}
use hail.Htab.{Htab, u32, size_of, count_down, get, del}

-- What a comparison function owes: it is an equivalence.
pub record IsEquality {ℓ} {K : Type ℓ} (cmp : K → K → Bool) : Type ℓ where
  pub symm : (a b : K) → cmp a b ≡ cmp b a
  pub trans : (a b c : K) → cmp a b ≡ true → cmp b c ≡ true → cmp a c ≡ true

abbrev pub is_some {ℓ} : {A : Type ℓ} → Option A → Bool
is_some none = false
is_some (some a) = true

module _ {ℓ} {K V : Type ℓ} where
  chain_get-chain_del :
      (cmp : K → K → Bool) (hk hj : ℕ) (k j : K) (es : List (Entry K V))
      → IsEquality cmp
      → chain_get cmp hj j (chain_del cmp hk k es).0
        ≡ (if (hk == hj) && cmp k j then none else chain_get cmp hj j es)
  unfolding chain_get chain_del
  chain_get-chain_del cmp hk hj k j [] eq = ground arith
  chain_get-chain_del cmp hk hj k j (e ∷ es) eq = ground (
    arith,
    chain_get-chain_del cmp hk hj k j es eq,
    eq.symm e.key k,
    eq.symm k j,
    eq.trans k e.key j,
    eq.trans e.key j k,
  )

  chain_del-found :
      (cmp : K → K → Bool) (hash : ℕ) (k : K) (es : List (Entry K V))
      → (elim (chain_del cmp hash k es).1 [ [] ↦ false | _ ∷ _ ↦ true ])
        ≡ is_some (chain_get cmp hash k es)
  unfolding chain_get chain_del
  chain_del-found cmp hash k [] = refl
  chain_del-found cmp hash k (e ∷ es) = ground (arith, chain_del-found cmp hash k es)

  chain_del-All :
      (P : Entry K V → Type 0) (cmp : K → K → Bool) (hash : ℕ) (k : K) (es : List (Entry K V))
      → All P es
      → All P (chain_del cmp hash k es).0
  unfolding chain_del
  chain_del-All P cmp hash k [] h = tt
  chain_del-All P cmp hash k (e ∷ es) h = elim (Bool-cases (matches cmp hash k e)) [
    | inl m ↦ rw m (chain_del-All P cmp hash k es h.1)
    | inr m ↦ rw m (h.0, chain_del-All P cmp hash k es h.1)
  ]

  pub count_down_lem :
      (es : List (Entry K V)) (n x : ℕ) → n ≡ (x + length es) % u32 → count_down es n ≡ x % u32
  unfolding count_down
  count_down_lem [] n x h = omega arith
  count_down_lem (e ∷ es) n x h = count_down_lem es ((n + u32 - 1) % u32) x (omega arith)

  -- A deletion from a well-formed table whose key comparison is symmetric and transitive keeps it
  -- well formed and says whether the key was found; afterwards no matching key is found, and
  -- every other key as before.
  pub del-get :
      (h : Htab K V) (k : K)
      → IsValid h
      → IsEquality h.cmp_fn
      → IsValid (del h k).1
        × ((del h k).0 ≡ is_some (get h k))
        × ((j : K)
            → get (del h k).1 j
              ≡ (if (h.hash_fn k == h.hash_fn j) && h.cmp_fn k j then none else get h j))
  unfolding del get size_of
  del-get h k valid eq = (
    record {
      idx = valid.idx;
      width = length-set h.buckets i kept ∙ valid.width;
      placed = λ j. elim (ℕ_discrete i j) [
        | yes q ↦
            rw (← q, get_or-set_self h.buckets i kept [] inside)
              (chain_del-All (λ e. e.hash % size_of h ≡ i) h.cmp_fn (h.hash_fn k) k old
                (valid.placed i))
        | no q ↦ rw (get_or-set_ne h.buckets i j kept [] q) (valid.placed j)
      ];
      counted = count_down_lem gone h.n_ent (length (flatten (set h.buckets i kept))) (
          omega (
            arith,
            valid.counted,
            length-flatten-set h.buckets i kept inside,
            length-chain_del h.cmp_fn (h.hash_fn k) k old,
          ));
    },
    chain_del-found h.cmp_fn (h.hash_fn k) k old,
    λ j.
        let m = h.hash_fn j % size_of h in
        elim (ℕ_discrete i m) [
          | yes q ↦
              rw (← q, get_or-set_self h.buckets i kept [] inside)
                (chain_get-chain_del h.cmp_fn (h.hash_fn k) (h.hash_fn j) k j old eq)
          | no q ↦
              let other : h.hash_fn k ≢ h.hash_fn j =
                λ (p : h.hash_fn k ≡ h.hash_fn j). q (ap (λ (x : ℕ). x % size_of h) p) in
              rw (get_or-set_ne h.buckets i m kept [] q) (ground (arith, other))
        ],
  )
    where
      i : ℕ
      i = h.hash_fn k % size_of h

      old : List (Entry K V)
      old = get_or h.buckets i []

      kept : List (Entry K V)
      kept = (chain_del h.cmp_fn (h.hash_fn k) k old).0

      gone : List (Entry K V)
      gone = (chain_del h.cmp_fn (h.hash_fn k) k old).1

      inside : i < length h.buckets
      inside = omega (arith, valid.idx, valid.width)
