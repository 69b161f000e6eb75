-- ===== src/Htab/Laws.antt =====
-- htab_new, htab_put and htab_get of lib/htab.c, as long as no enlargement is due.
use mathlib.Core.List.{flatten}
use hail.Base.{
  ℕ, ◌+◌, ◌%◌, ◌<◌, ◌≡◌, refl, ◌∙◌, ◌≢◌, ap, Bool, true, false, ◌&&◌, none, some, List, [], ◌∷◌,
  arith, length, length-set, get_or, set, get_or-replicate, get_or-set_self, get_or-set_ne,
  replicate, ◌==◌, if◌then◌else◌,
}
use native.Mathlib.Decide.{ℕ_discrete}
use hail.Htab.Chain.{Entry, chain_get}
use hail.Htab.Buckets.{IsValid, replicate-Placed, length-flatten-set}
use hail.Htab.{Htab, u32, size_of, new, need_resize, add_entry, put, get}

module _ {ℓ} {K V : Type ℓ} where
  -- Where the two allocations succeed, a new table is made; it is well formed and no key is found
  -- in it.
  pub new-get :
      (calloc : ℕ → Bool) (hash_fn : K → ℕ) (cmp_fn : K → K → Bool) (free_key free_value : Bool)
      → calloc 56 ≡ true
      → calloc 80 ≡ true
      → (h : Htab K V) × (new calloc hash_fn cmp_fn free_key free_value ≡ some h)
        × IsValid h
        × ((k : K) → get h k ≡ none)
  unfolding new get size_of chain_get flatten
  new-get calloc hash_fn cmp_fn free_key free_value mem mem' = (
    record {
      hash_fn = hash_fn;
      cmp_fn = cmp_fn;
      free_key = free_key;
      free_value = free_value;
      prime_idx = 0;
      buckets = replicate 5 [];
      n_ent = 0;
    },
    rw (mem, mem') refl,
    record { idx = omega arith; width = refl; placed = replicate-Placed K V 5 5; counted = refl },
    λ k. rw (get_or-replicate {A = List (Entry K V)} 5 (hash_fn k % 5) []) refl,
  )

  -- The record that `add_entry` makes when its allocation succeeds.
  abbrev pub added : ℕ → ℕ → K → V → Htab K V → Htab K V
  added hash bucket k v h = record h {
    buckets =
        set h.buckets bucket
          (record { key = k; value = v; hash = hash } ∷ get_or h.buckets bucket []);
    n_ent = (h.n_ent + 1) % u32;
  }

  added-IsValid :
      (hash : ℕ) (k : K) (v : V) (h : Htab K V)
      → IsValid h
      → IsValid (added hash (hash % size_of h) k v h)
  unfolding size_of
  added-IsValid hash k v h valid =
      let i = hash % size_of h in
      let inside : i < length h.buckets = omega (arith, valid.idx, valid.width) in
      let old = get_or h.buckets i [] in
      let ent : Entry K V = record { key = k; value = v; hash = hash } in
      record {
        idx = valid.idx;
        width = length-set h.buckets i (ent ∷ old) ∙ valid.width;
        placed = λ j. elim (ℕ_discrete i j) [
          | yes q ↦
              rw (← q, get_or-set_self h.buckets i (ent ∷ old) [] inside) (refl, valid.placed i)
          | no q ↦ rw (get_or-set_ne h.buckets i j (ent ∷ old) [] q) (valid.placed j)
        ];
        counted = omega (arith, valid.counted, length-flatten-set h.buckets i (ent ∷ old) inside);
      }

  added-get :
      (k : K) (v : V) (h : Htab K V) (j : K)
      → IsValid h
      → get (added (h.hash_fn k) (h.hash_fn k % size_of h) k v h) j
        ≡ (if (h.hash_fn k == h.hash_fn j) && h.cmp_fn k j then some v else get h j)
  unfolding get size_of chain_get
  added-get k v h j valid =
      let i = h.hash_fn k % size_of h in
      let m = h.hash_fn j % size_of h in
      let inside : i < length h.buckets = omega (arith, valid.idx, valid.width) in
      let old = get_or h.buckets i [] in
      let ent : Entry K V = record { key = k; value = v; hash = h.hash_fn k } in
      elim (ℕ_discrete i m) [
        | yes q ↦ rw (← q, get_or-set_self h.buckets i (ent ∷ old) [] inside) refl
        | no q ↦
            let other : h.hash_fn k ≢ h.hash_fn j =
              λ (p : h.hash_fn k ≡ h.hash_fn j). q (ap (λ (x : ℕ). x % size_of h) p) in
            rw (get_or-set_ne h.buckets i m (ent ∷ old) [] q) (ground (arith, other))
      ]

  -- Where no enlargement is due and memory is there, a put into a well-formed table succeeds,
  -- keeps the table well formed, counts the entry modulo 2 ^ 32, and changes what is found under
  -- the matching keys alone, which is the new value.
  pub put-get :
      (calloc : ℕ → Bool) (h : Htab K V) (k : K) (v : V)
      → IsValid h
      → need_resize h ≡ false
      → calloc 40 ≡ true
      → (h' : Htab K V) × (put calloc h k v ≡ some (true, h'))
        × IsValid h'
        × (h'.n_ent ≡ (h.n_ent + 1) % u32)
        × ((j : K)
            → get h' j ≡ (if (h.hash_fn k == h.hash_fn j) && h.cmp_fn k j then some v else get h j))
  unfolding put add_entry
  put-get calloc h k v valid small mem = (
    added (h.hash_fn k) (h.hash_fn k % size_of h) k v h,
    rw (small, mem) refl,
    added-IsValid (h.hash_fn k) k v h valid,
    refl,
    λ j. added-get k v h j valid,
  )
