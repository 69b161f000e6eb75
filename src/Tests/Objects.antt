-- ===== src/Tests/Objects.antt =====
-- Runs of the object cache of chunkd/objcache.c, with a hash table that is a function.
use hail.Base.{ℕ, ◌≡◌, refl, Bool, true, false, Option, none, some, [], ◌∷◌, arith}
use hail.Chunkd.Objcache.{
  HashTable, IsHashTable, objcache_hash, Cache, fine, at, objcache_init, objcache_get,
  objcache_test_dirty, objcache_put,
}
use hail.Chunkd.Objcache.Holders.{IsCache, one_less, unmark, IsCache-insert}
use hail.Chunkd.Objcache.Calls.{objcache_init-IsCache, objcache_get-IsCache, objcache_put-IsCache}

abbrev found : Option ℕ → Bool
found none = false
found (some p) = true

abbrev tables : HashTable
tables = record {
  Table = ℕ → Option ℕ;
  new = λ k. none;
  lookup = λ t k. t k;
  insert = λ t k v. at t k (some v);
  remove = λ t k. (at t k none, found (t k));
}

tables-IsHashTable : IsHashTable tables
tables-IsHashTable = record {
  lookup_new = λ k. refl;
  lookup-insert = λ t k v j. refl;
  lookup-remove = λ t k j. refl;
  remove-some = λ t k v e. rw e refl;
}

abbrev start : Cache tables
start = objcache_init tables

objcache_get-IsCache_example :
    (c' : Cache tables) × (p : ℕ) × (objcache_get tables start (1 ∷ 2 ∷ []) true (some 7)
      ≡ fine (c', p))
    × IsCache tables c' (at (λ q. 0) p 1) (at (λ q. false) p true)
    × (c'.table (objcache_hash (1 ∷ 2 ∷ [])) ≡ some p)
unfolding objcache_init
objcache_get-IsCache_example =
    objcache_get-IsCache tables tables-IsHashTable start (λ q. 0) (λ q. false) (1 ∷ 2 ∷ []) true 7
      (objcache_init-IsCache tables tables-IsHashTable) refl

abbrev key : ℕ
key = 1234

abbrev held : Cache tables
held = record {
  table = at (λ k. none) key (some 7);
  heap = at (λ p. none) 7 (some (record { hash = key; dirty = true; ref = 1 }));
}

held-IsCache : IsCache tables held (at (λ q. 0) 7 1) (at (λ q. false) 7 true)
unfolding objcache_init
held-IsCache =
    IsCache-insert tables tables-IsHashTable start (λ q. 0) (λ q. false) 7 key true
      (objcache_init-IsCache tables tables-IsHashTable) refl refl

objcache_put-IsCache_example :
    (objcache_test_dirty tables held 7 ≡ fine true)
    × ((c' : Cache tables) × (objcache_put tables held 7 ≡ fine c')
        × IsCache tables c'
            (one_less tables (at (λ q. 0) 7 1) 7)
            (unmark tables (at (λ q. 0) 7 1) (at (λ q. false) 7 true) 7))
objcache_put-IsCache_example =
    objcache_put-IsCache tables tables-IsHashTable held (at (λ q. 0) 7 1) (at (λ q. false) 7 true) 7
      held-IsCache (omega arith)
