-- ===== src/Chunkd/Objcache.antt =====
-- The objects that are in use, chunkd/objcache.c: entries with a count of their holders and a mark
-- that says whether one of them writes. An entry lives in memory under its pointer, and the table of
-- GLib has the pointers under the hashes of the keys. Each call is atomic, by the cache's lock.
pub mod Holders
pub mod Calls
use Prim.Native.Nat.{bit_or, bit_xor}
use hail.Base.{
  ℕ, ◌+◌, ◌-◌, ◌*◌, ◌/◌, ◌%◌, ◌^◌, ◌≡◌, ◌≢◌, refl, Bool, true, false, not, ◌||◌, Option, none, some,
  List, [], ◌∷◌, ◌==◌, if◌then◌else◌,
}

-- What the code uses of GLib's hash tables.
pub record HashTable : Type 1 where
  pub Table : Type 0
  pub new : Table
  pub lookup : Table → ℕ → Option ℕ
  pub insert : Table → ℕ → ℕ → Table
  pub remove : Table → ℕ → Table × Bool

-- What GLib documents: a table is a map, and a removal says whether the key was there.
pub record IsHashTable (g : HashTable) : Type 0 where
  pub lookup_new : (k : ℕ) → g.lookup g.new k ≡ none
  pub lookup-insert :
      (t : g.Table) (k v j : ℕ)
      → g.lookup (g.insert t k v) j ≡ (if j == k then some v else g.lookup t j)
  pub lookup-remove :
      (t : g.Table) (k j : ℕ)
      → g.lookup (g.remove t k).0 j ≡ (if j == k then none else g.lookup t j)
  pub remove-some : (t : g.Table) (k v : ℕ) → g.lookup t k ≡ some v → (g.remove t k).1 ≡ true

-- objcache_hash, over the bytes of a key
unfoldable pub hash_from : ℕ → List ℕ → ℕ
hash_from hash [] = hash
hash_from hash (c ∷ cs) =
    let h1 = bit_xor hash (hash * 2 ^ 16 % 2 ^ 32) in
    let h2 = bit_xor h1 (c % 2 ^ 8) in hash_from (bit_or (h2 * 2 ^ 8 % 2 ^ 32) (h2 / 2 ^ 24)) cs

unfoldable pub objcache_hash : List ℕ → ℕ
unfolding hash_from
objcache_hash key = hash_from 0x55555555 key

-- struct objcache_entry; `dirty` is the one flag, OC_F_DIRTY.
pub record CacheEntry : Type 0 where
  pub hash : ℕ
  pub dirty : Bool
  pub ref : ℕ

-- A call that does not end well: a use of memory that is not there, or abort().
pub data Outcome {ℓ} (A : Type ℓ) : Type ℓ where
  fine : A → Outcome A
  bad_pointer : Outcome A
  aborted : Outcome A

abbrev pub at {ℓ} : {A : Type ℓ} → (ℕ → A) → ℕ → A → ℕ → A
at f p v q = if q == p then v else f q

module _ (g : HashTable) where
  -- struct objcache with the memory of its entries
  pub record Cache : Type 0 where
    pub table : g.Table
    pub heap : ℕ → Option CacheEntry

  -- objcache_init
  unfoldable pub objcache_init : Cache
  objcache_init = record { table = g.new; heap = λ p. none }

  -- The entry at a pointer gets a holder and perhaps the mark.
  unfoldable pub hold : Cache → ℕ → Bool → Option CacheEntry → Outcome (Cache × ℕ)
  hold c p flag none = bad_pointer
  hold c p flag (some e) =
      let e1 : CacheEntry = record e { ref = e.ref + 1; dirty = e.dirty || flag } in
      fine (record c { heap = at c.heap p (some e1) }, p)

  -- objcache_insert, with the pointer that malloc gives: an entry with one holder.
  unfoldable pub objcache_insert : Cache → ℕ → Bool → Option ℕ → Outcome (Cache × ℕ)
  objcache_insert c hash flag none = bad_pointer
  objcache_insert c hash flag (some p) =
      let e : CacheEntry = record { hash = hash; dirty = flag; ref = 1 } in
      fine (record c { table = g.insert c.table hash p; heap = at c.heap p (some e) }, p)

  -- __objcache_get: the flag is set through the pointer that objcache_insert returns, even if that
  -- is NULL.
  unfoldable pub objcache_get : Cache → List ℕ → Bool → Option ℕ → Outcome (Cache × ℕ)
  unfolding hold objcache_insert objcache_hash
  objcache_get c key flag memory = elim (g.lookup c.table (objcache_hash key)) [
    | some p ↦ hold c p flag (c.heap p)
    | none ↦ objcache_insert c (objcache_hash key) flag memory
  ]

  unfoldable pub objcache_test_dirty : Cache → ℕ → Outcome Bool
  objcache_test_dirty c p = elim (c.heap p) [ none ↦ bad_pointer | some e ↦ fine e.dirty ]

  -- objcache_put of the entry that is at a pointer
  unfoldable pub release : Cache → ℕ → Option CacheEntry → Outcome Cache
  release c p none = bad_pointer
  release c p (some e) =
      let (table', there) = g.remove c.table e.hash in
      if e.ref == 0
      then fine c
      else (if e.ref == 1
          then (if there
              then fine (record { table = table'; heap = at c.heap p none })
              else aborted)
          else fine (record c { heap = at c.heap p (some (record e { ref = e.ref - 1 })) }))

  unfoldable pub objcache_put : Cache → ℕ → Outcome Cache
  unfolding release
  objcache_put c p = release c p (c.heap p)
