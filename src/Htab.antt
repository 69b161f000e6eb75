-- ===== src/Htab.antt =====
-- The hash table of lib/htab.c: chained buckets over a table of primes. A fault (`none`) is a read
-- outside `primes`; `calloc` says of each size whether the allocation succeeds.
pub mod Chain
pub mod Buckets
pub mod Rehash
pub mod Laws
pub mod Deletion
pub mod Clear
pub mod Misplaced
use hail.Base.{
  ℕ, zero, suc, ◌+◌, ◌-◌, ◌*◌, ◌/◌, ◌%◌, ◌^◌, Bool, true, false, ◌&&◌, Option, none, some, List, [],
  ◌∷◌, ◌++◌, ltb, if◌then◌else◌, get_elem?, get_or, set, replicate,
}
use Chain.{Entry, chain_get, chain_del}

abbrev pub primes : List ℕ
primes =
    5 ∷ 769 ∷ 6151 ∷ 49157 ∷ 98317 ∷ 196613 ∷ 393241 ∷ 786433 ∷ 1572869 ∷ 3145739 ∷ 6291469
    ∷ 12582917 ∷ 25165843 ∷ 50331653 ∷ 100663319 ∷ 201326611 ∷ 402653189 ∷ 805306457 ∷ 1610612741
    ∷ []

-- `cmp_fn a b` says that the C function returns 0; the two flags say that a destructor is given.
pub record Htab {ℓ} (K V : Type ℓ) : Type ℓ where
  pub hash_fn : K → ℕ
  pub cmp_fn : K → K → Bool
  pub free_key : Bool
  pub free_value : Bool
  pub prime_idx : ℕ
  pub buckets : List (List (Entry K V))
  pub n_ent : ℕ

-- What the destructors are called with.
pub data Freed {ℓ} (K V : Type ℓ) : Type ℓ where
  freed_key : K → Freed K V
  freed_value : V → Freed K V

abbrev pub u32 : ℕ
u32 = 2 ^ 32

abbrev sizeof_htab : ℕ
sizeof_htab = 56

abbrev sizeof_bucket : ℕ
sizeof_bucket = 16

abbrev sizeof_entry : ℕ
sizeof_entry = 40

module _ {ℓ} {K V : Type ℓ} where
  unfoldable pub size_of : Htab K V → ℕ
  size_of h = get_or primes h.prime_idx 0

  pub new : (ℕ → Bool) → (K → ℕ) → (K → K → Bool) → Bool → Bool → Option (Htab K V)
  new calloc hash_fn cmp_fn free_key free_value =
      if calloc sizeof_htab
      then (if calloc (get_or primes 0 0 * sizeof_bucket)
          then some (record {
            hash_fn = hash_fn;
            cmp_fn = cmp_fn;
            free_key = free_key;
            free_value = free_value;
            prime_idx = 0;
            buckets = replicate (get_or primes 0 0) [];
            n_ent = 0;
          })
          else none)
      else none

  unfoldable pub need_resize : Htab K V → Bool
  unfolding size_of
  need_resize h = let threshold = size_of h * 2 % u32 / 3 in ltb threshold h.n_ent

  -- list_del_init, then list_add_tail to the entry's bucket in the new array
  pub move_entry : ℕ → Entry K V → List (List (Entry K V)) → List (List (Entry K V))
  move_entry n e bs = let i = e.hash % n in set bs i (get_or bs i [] ++ e ∷ [])

  pub move_chain : ℕ → List (Entry K V) → List (List (Entry K V)) → List (List (Entry K V))
  move_chain n [] bs = bs
  move_chain n (e ∷ es) bs = move_chain n es (move_entry n e bs)

  pub move_all : ℕ → List (List (Entry K V)) → List (List (Entry K V)) → List (List (Entry K V))
  move_all n [] bs = bs
  move_all n (c ∷ cs) bs = move_all n cs (move_chain n c bs)

  -- Every entry moves to a new array of `n` buckets, which replaces the old one.
  pub enlarge : ℕ → Htab K V → Htab K V
  enlarge n h = record h {
    prime_idx = h.prime_idx + 1;
    buckets = move_all n h.buckets (replicate n []);
  }

  pub resize : (ℕ → Bool) → Htab K V → Option (Bool × Htab K V)
  resize calloc h = elim (get_elem? primes (h.prime_idx + 1)) [
    | none ↦ none
    | some new_sz ↦
        if calloc (new_sz * sizeof_bucket) then some (true, enlarge new_sz h) else some (false, h)
  ]

  -- The rest of `put`, after the table was enlarged where that was due: `bucket` was computed before.
  pub add_entry : (ℕ → Bool) → ℕ → ℕ → K → V → Htab K V → Bool × Htab K V
  add_entry calloc hash bucket k v h =
      if calloc sizeof_entry
      then (
        true,
        record h {
          buckets =
              set h.buckets bucket
                (record { key = k; value = v; hash = hash } ∷ get_or h.buckets bucket []);
          n_ent = (h.n_ent + 1) % u32;
        },
      )
      else (false, h)

  pub put : (ℕ → Bool) → Htab K V → K → V → Option (Bool × Htab K V)
  unfolding size_of add_entry
  put calloc h k v =
      let hash = h.hash_fn k in
      let bucket = hash % size_of h in
      if need_resize h
      then (elim (resize calloc h) [
        | none ↦ none
        | some (true, h') ↦ some (add_entry calloc hash bucket k v h')
        | some (false, h') ↦ some (false, h')
      ])
      else some (add_entry calloc hash bucket k v h)

  unfoldable pub get : Htab K V → K → Option V
  unfolding size_of
  get h k =
      let hash = h.hash_fn k in chain_get h.cmp_fn hash k (get_or h.buckets (hash % size_of h) [])

  -- The destructor calls of htab_free_ent.
  pub destroy : Htab K V → Entry K V → List (Freed K V)
  destroy h e =
      (if h.free_key then freed_key e.key ∷ [] else [])
      ++ (if h.free_value then freed_value e.value ∷ [] else [])

  pub destroy_all : Htab K V → List (Entry K V) → List (Freed K V)
  unfolding destroy
  destroy_all h [] = []
  destroy_all h (e ∷ es) = destroy h e ++ destroy_all h es

  -- `n_ent--` for each entry of a list
  pub count_down : List (Entry K V) → ℕ → ℕ
  count_down [] n = n
  count_down (e ∷ es) n = count_down es ((n + u32 - 1) % u32)

  pub del : Htab K V → K → Bool × Htab K V × List (Freed K V)
  unfolding size_of destroy_all count_down
  del h k =
      let hash = h.hash_fn k in
      let bucket = hash % size_of h in
      let (kept, gone) = chain_del h.cmp_fn hash k (get_or h.buckets bucket []) in
      (
        (elim gone [ [] ↦ false | _ ∷ _ ↦ true ]),
        record h { buckets = set h.buckets bucket kept; n_ent = count_down gone h.n_ent },
        destroy_all h gone,
      )

  -- htab_clear: every entry is destroyed and taken off its chain, bucket by bucket
  pub clear_chains : Htab K V → List (List (Entry K V)) → ℕ → List (Freed K V) × ℕ
  unfolding destroy_all count_down
  clear_chains h [] n = ([], n)
  clear_chains h (c ∷ cs) n =
      let (later, m) = clear_chains h cs (count_down c n) in (destroy_all h c ++ later, m)

  pub clear : Htab K V → List (Freed K V) × Htab K V
  unfolding clear_chains size_of
  clear h =
      let (freed, n) = clear_chains h h.buckets h.n_ent in
      (freed, record h { buckets = replicate (size_of h) []; n_ent = n })

  pub chain_pairs : List (Entry K V) → List (K × V)
  chain_pairs [] = []
  chain_pairs (e ∷ es) = (e.key, e.value) ∷ chain_pairs es

  -- The pairs in the order in which the callback of htab_foreach sees them.
  pub foreach : List (List (Entry K V)) → List (K × V)
  unfolding chain_pairs
  foreach [] = []
  foreach (c ∷ cs) = chain_pairs c ++ foreach cs
