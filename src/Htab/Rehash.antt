-- ===== src/Htab/Rehash.antt =====
-- htab_resize of lib/htab.c: every entry moves to the bucket of its hash in the larger array.
use mathlib.Core.List.{flatten}
use mathlib.Core.Option.{or_else}
use hail.Base.{
  ℕ, ◌+◌, ◌%◌, ◌<◌, ◌≡◌, refl, sym, ◌∙◌, ◌≢◌, ap, Bool, Option, none, some, List, [], ◌∷◌, ◌++◌,
  arith, All-append, length, length-append, length-set, length-replicate, get_elem?, get_or,
  get_or-replicate, get_or-set_self, get_or-set_ne, replicate,
}
use native.Mathlib.Decide.{ℕ_discrete}
use hail.Htab.Chain.{Entry, chain_get, chain_get-append}
use hail.Htab.Buckets.{
  Placed, IsValid, primes-pos, replicate-Placed, length-flatten-set, flatten-replicate, flatten-get,
}
use hail.Htab.{Htab, u32, primes, size_of, move_entry, move_chain, move_all, enlarge, get}

or_else_assoc {κ} :
    {A : Type κ} (a b c : Option A) → or_else (or_else a b) c ≡ or_else a (or_else b c)
unfolding or_else
or_else_assoc none b c = refl
or_else_assoc (some x) b c = refl

module _ {ℓ} {K V : Type ℓ} where
  length-move_entry :
      (n : ℕ) (e : Entry K V) (bs : List (List (Entry K V)))
      → length (move_entry n e bs) ≡ length bs
  unfolding move_entry
  length-move_entry n e bs = length-set bs (e.hash % n) _

  move_entry-Placed :
      (n : ℕ) (e : Entry K V) (bs : List (List (Entry K V)))
      → e.hash % n < length bs
      → Placed n bs
      → Placed n (move_entry n e bs)
  unfolding move_entry
  move_entry-Placed n e bs h placed i = elim (ℕ_discrete (e.hash % n) i) [
    | yes q ↦
        rw (← q, get_or-set_self bs (e.hash % n) _ [] h)
          (All-append _ (get_or bs (e.hash % n) []) (e ∷ []) (placed (e.hash % n)) (refl, tt))
    | no q ↦ rw (get_or-set_ne bs (e.hash % n) i _ [] q) (placed i)
  ]

  move_entry-get :
      (cmp : K → K → Bool) (hash : ℕ) (k : K) (n : ℕ) (e : Entry K V) (bs : List (List (Entry K V)))
      → e.hash % n < length bs
      → chain_get cmp hash k (get_or (move_entry n e bs) (hash % n) [])
        ≡ or_else (chain_get cmp hash k (get_or bs (hash % n) [])) (chain_get cmp hash k (e ∷ []))
  unfolding move_entry
  move_entry-get cmp hash k n e bs h = elim (ℕ_discrete (e.hash % n) (hash % n)) [
    | yes q ↦
        rw (← q, get_or-set_self bs (e.hash % n) _ [] h)
          (chain_get-append cmp hash k (get_or bs (e.hash % n) []) (e ∷ []))
    | no q ↦
        let other : e.hash ≢ hash = λ (p : e.hash ≡ hash). q (ap (λ (x : ℕ). x % n) p) in
        rw (get_or-set_ne bs (e.hash % n) (hash % n) _ [] q)
          (unfold chain_get or_else in ground (arith, other))
  ]

  length-flatten-move_entry :
      (n : ℕ) (e : Entry K V) (bs : List (List (Entry K V)))
      → e.hash % n < length bs
      → length (flatten (move_entry n e bs)) ≡ length (flatten bs) + 1
  unfolding move_entry
  length-flatten-move_entry n e bs h =
      let old = get_or bs (e.hash % n) [] in
      omega
        (arith, length-flatten-set bs (e.hash % n) (old ++ e ∷ []) h, length-append old (e ∷ []))

  -- What a run of moves into an array of `n` buckets leaves.
  pub record Moved (n : ℕ) (es : List (Entry K V)) (bs cs : List (List (Entry K V))) : Type ℓ where
    pub width : length cs ≡ n
    pub placed : Placed n cs
    pub entries : length (flatten cs) ≡ length (flatten bs) + length es
    pub reads :
        (cmp : K → K → Bool) (hash : ℕ) (k : K)
        → chain_get cmp hash k (get_or cs (hash % n) [])
          ≡ or_else (chain_get cmp hash k (get_or bs (hash % n) [])) (chain_get cmp hash k es)

  pub move_chain-Moved :
      (n : ℕ) (es : List (Entry K V)) (bs : List (List (Entry K V)))
      → 0 < n
      → length bs ≡ n
      → Placed n bs
      → Moved n es bs (move_chain n es bs)
  unfolding move_chain
  move_chain-Moved n [] bs pos w placed = record {
    width = w;
    placed = placed;
    entries = omega arith;
    reads = λ cmp hash k. unfold chain_get or_else in ground arith;
  }
  move_chain-Moved n (e ∷ es) bs pos w placed =
      let inside : e.hash % n < length bs = omega arith in
      let m =
        move_chain-Moved n es (move_entry n e bs) pos (length-move_entry n e bs ∙ w)
          (move_entry-Placed n e bs inside placed) in
      record {
        width = m.width;
        placed = m.placed;
        entries = omega (arith, m.entries, length-flatten-move_entry n e bs inside);
        reads = λ cmp hash k.
            rw (m.reads cmp hash k, move_entry-get cmp hash k n e bs inside, or_else_assoc)
              (ap (or_else (chain_get cmp hash k (get_or bs (hash % n) [])))
                (sym (chain_get-append cmp hash k (e ∷ []) es)));
      }

  move_chain-append :
      (n : ℕ) (a b : List (Entry K V)) (bs : List (List (Entry K V)))
      → move_chain n (a ++ b) bs ≡ move_chain n b (move_chain n a bs)
  unfolding move_chain
  move_chain-append n [] b bs = refl
  move_chain-append n (e ∷ a) b bs = move_chain-append n a b (move_entry n e bs)

  -- The nested loops are one loop over all the entries.
  move_all-flatten :
      (n : ℕ) (cs bs : List (List (Entry K V))) → move_all n cs bs ≡ move_chain n (flatten cs) bs
  unfolding move_all move_chain flatten
  move_all-flatten n [] bs = refl
  move_all-flatten n (c ∷ cs) bs =
      move_all-flatten n cs (move_chain n c bs) ∙ sym (move_chain-append n c (flatten cs) bs)

  pub move_all-Moved :
      (n : ℕ) (cs : List (List (Entry K V)))
      → 0 < n
      → Moved n (flatten cs) (replicate n []) (move_all n cs (replicate n []))
  move_all-Moved n cs pos = rw (move_all-flatten n cs (replicate n [])) (
      move_chain-Moved n (flatten cs) (replicate n []) pos (length-replicate n [])
        (replicate-Placed K V n n))

  -- A well-formed table that is enlarged to the next prime is well formed.
  pub enlarge-IsValid :
      (n : ℕ) (h : Htab K V)
      → IsValid h
      → get_elem? primes (h.prime_idx + 1) ≡ some n
      → IsValid (enlarge n h)
  unfolding enlarge size_of
  enlarge-IsValid n h v p =
      let (q, pos) = primes-pos (h.prime_idx + 1) n p in
      let m = move_all-Moved n h.buckets pos in
      record {
        idx = rw q pos;
        width = m.width ∙ sym q;
        placed = rw q m.placed;
        counted =
            v.counted
            ∙ ap (λ (x : ℕ). x % u32)
                (omega (arith, m.entries, ap length (flatten-replicate {A = Entry K V} n)));
      }

  -- In a well-formed table that is enlarged to the next prime, every search finds what it found
  -- before.
  pub enlarge-get :
      (n : ℕ) (h : Htab K V)
      → IsValid h
      → get_elem? primes (h.prime_idx + 1) ≡ some n
      → (k : K) → get (enlarge n h) k ≡ get h k
  unfolding enlarge get or_else chain_get
  enlarge-get n h v p k =
      let (q, pos) = primes-pos (h.prime_idx + 1) n p in
      let m = move_all-Moved n h.buckets pos in
      let hash = h.hash_fn k in
      rw (q, m.reads h.cmp_fn hash k, get_or-replicate {A = List (Entry K V)} n (hash % n) [])
        (flatten-get h.cmp_fn hash k (size_of h) h.buckets v.placed)
