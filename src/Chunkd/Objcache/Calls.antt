-- ===== src/Chunkd/Objcache/Calls.antt =====
-- The calls of chunkd/objcache.c by clients that put what they got.
use hail.Base.{
  ℕ, ◌+◌, ◌-◌, ◌<◌, ◌≡◌, refl, sym, ◌∙◌, ap, Bool, true, false, ◌||◌, none, some, List, ◌==◌,
  if◌then◌else◌, inl, inr, Bool-cases, Option-cases, arith,
}
use hail.Chunkd.Objcache.{
  HashTable, IsHashTable, objcache_hash, CacheEntry, fine, at, Cache, hold, objcache_insert,
  objcache_init, objcache_get, objcache_test_dirty, release, objcache_put,
}
use hail.Chunkd.Objcache.Holders.{
  Matches, IsCache, one_less, unmark, held-some, IsCache-at, IsCache-change, IsCache-remove,
  IsCache-insert, insert_self,
}

module _ (g : HashTable) (law : IsHashTable g) where
  hold-fine :
      (c : Cache g) (held : ℕ → ℕ) (wrote : ℕ → Bool) (p : ℕ) (flag : Bool) (e : CacheEntry)
      → IsCache g c held wrote
      → c.heap p ≡ some e
      → (c' : Cache g) × (hold g c p flag (c.heap p) ≡ fine (c', p))
        × IsCache g c' (at held p (held p + 1)) (at wrote p (wrote p || flag))
        × (c'.table ≡ c.table)
  unfolding hold
  hold-fine c held wrote p flag e h there =
      let e1 : CacheEntry = record e { ref = e.ref + 1; dirty = e.dirty || flag } in
      let (n, pos, w, look) : Matches g c p (some e) (held p) (wrote p) = rw there at (h.0 p) in
      (
        record c { heap = at c.heap p (some e1) },
        rw there refl,
        IsCache-change g c held wrote p (held p + 1) (wrote p || flag) e e1 h there refl
            (ap (λ x. x + 1) n) (omega arith) (ap (λ x. x || flag) w) look,
        refl,
      )

  -- A get of a key, with memory, gives an entry that stands under the key's hash and has one
  -- holder more, marked if the call sets the flag or a holder before did; the table has exactly
  -- the entries in memory, each with the count of its holders, where that was so before, the new
  -- memory is not in use and GLib's hash table works as documented.
  pub objcache_get-IsCache :
      (c : Cache g) (held : ℕ → ℕ) (wrote : ℕ → Bool) (key : List ℕ) (flag : Bool) (m : ℕ)
      → IsCache g c held wrote
      → c.heap m ≡ none
      → (c' : Cache g) × (p : ℕ) × (objcache_get g c key flag (some m) ≡ fine (c', p))
        × IsCache g c' (at held p (held p + 1)) (at wrote p (wrote p || flag))
        × (g.lookup c'.table (objcache_hash key) ≡ some p)
  unfolding objcache_get objcache_insert
  objcache_get-IsCache c held wrote key flag m h free =
      elim (Option-cases (g.lookup c.table (objcache_hash key))) [
        | inr (p, look) ↦
            let (e, there, _) = h.1 (objcache_hash key) p look in
            let (c', did, ok, same) = hold-fine c held wrote p flag e h there in
            (c', p, rw (objcache_get, look) did, ok, rw same look)
        | inl new ↦
            let (n, w) : Matches g c m none (held m) (wrote m) = rw free at (h.0 m) in
            let k = objcache_hash key in
            (
              record {
                table = g.insert c.table k m;
                heap = at c.heap m (some (record { hash = k; dirty = flag; ref = 1 }));
              },
              m,
              rw (objcache_get, new) refl,
              rw (n, w) (IsCache-insert g law c held wrote m k flag h free new),
              insert_self g law c.table k m,
            )
      ]

  release-fine :
      (c : Cache g) (held : ℕ → ℕ) (wrote : ℕ → Bool) (p : ℕ) (e : CacheEntry)
      → IsCache g c held wrote
      → c.heap p ≡ some e
      → (c' : Cache g) × (release g c p (some e) ≡ fine c')
        × IsCache g c' (one_less g held p) (unmark g held wrote p)
  unfolding release
  release-fine c held wrote p e h there =
      let (n, pos, w, look) : Matches g c p (some e) (held p) (wrote p) = rw there at (h.0 p) in
      let used : (e.ref == 0) ≡ false = ground (arith, n, pos) in
      elim (Bool-cases (e.ref == 1)) [
        | inl last ↦
            let one : held p ≡ 1 = ground (arith, n, last) in
            let was : (held p == 1) ≡ true = ground (arith, one) in
            let there_too = law.remove-some c.table e.hash p look in
            (
              record { table = (g.remove c.table e.hash).0; heap = at c.heap p none },
              rw (used, last, there_too) refl,
              IsCache-at g (record { table = (g.remove c.table e.hash).0; heap = at c.heap p none })
                  held wrote p 0 (held p - 1) false (if held p == 1 then false else wrote p)
                  (omega (arith, one)) (rw was refl)
                  (IsCache-remove g law c held wrote p e h there look),
            )
        | inr more ↦
            let many : 1 < held p = ground (arith, n, more, pos) in
            let not_one : (held p == 1) ≡ false = ground (arith, many) in
            let e1 : CacheEntry = record e { ref = e.ref - 1 } in
            let less : e.ref - 1 ≡ held p - 1 = omega (arith, n) in
            let left : 0 < held p - 1 = omega (arith, many) in
            (
              record c { heap = at c.heap p (some e1) },
              rw (used, more) refl,
              IsCache-change g c held wrote p (held p - 1) (if held p == 1 then false else wrote p)
                  e e1 h there refl less left (w ∙ rw not_one refl) look,
            )
      ]

  -- A holder can test and put its entry: the test says whether one of the entry's holders since
  -- its making wrote, and the put neither aborts nor uses memory that is not there; afterwards
  -- the table has exactly the entries in memory, each with the count of its holders, where that
  -- was so before and GLib's hash table works as documented.
  pub objcache_put-IsCache :
      (c : Cache g) (held : ℕ → ℕ) (wrote : ℕ → Bool) (p : ℕ)
      → IsCache g c held wrote
      → 0 < held p
      → (objcache_test_dirty g c p ≡ fine (wrote p))
        × ((c' : Cache g) × (objcache_put g c p ≡ fine c')
            × IsCache g c' (one_less g held p) (unmark g held wrote p))
  unfolding objcache_test_dirty objcache_put
  objcache_put-IsCache c held wrote p h holds =
      let (e, there, _, w, _) = held-some g c held wrote p h holds in
      (
        rw (objcache_test_dirty, there) (ap fine w),
        rw (objcache_put, there) (release-fine c held wrote p e h there),
      )

  -- A new cache has no entry and no holder.
  pub objcache_init-IsCache : IsCache g (objcache_init g) (λ p. 0) (λ p. false)
  unfolding objcache_init
  objcache_init-IsCache =
      (λ p. (refl, refl), λ h p l. let gone : none ≡ some p = sym (law.lookup_new h) ∙ l in cc)
