-- ===== src/Chunkd/Objcache/Holders.antt =====
-- The holders of the entries of chunkd/objcache.c against the counts and marks in memory.
use hail.Base.{
  ℕ, ◌-◌, ◌<◌, ◌≡◌, ◌≢◌, refl, sym, ◌∙◌, ap, ◌⊎◌, Bool, true, false, Option, none, some, ◌==◌,
  ==→eq, ==_refl, if◌then◌else◌, inl, inr, Bool-cases, Option-cases, some-inj, arith,
}
use hail.Chunkd.Objcache.{HashTable, IsHashTable, CacheEntry, at, Cache}

module _ (g : HashTable) where
  -- What is at a pointer, for `n` holders of which some wrote if `w`.
  abbrev pub Matches : Cache g → ℕ → Option CacheEntry → ℕ → Bool → Type 0
  Matches c p none n w = (n ≡ 0) × (w ≡ false)
  Matches c p (some e) n w =
      (e.ref ≡ n) × (0 < n) × (e.dirty ≡ w) × (g.lookup c.table e.hash ≡ some p)

  -- The table has exactly the entries in memory, each under its own hash.
  abbrev pub IsCache : Cache g → (ℕ → ℕ) → (ℕ → Bool) → Type 0
  IsCache c held wrote =
      ((p : ℕ) → Matches c p (c.heap p) (held p) (wrote p))
      × ((h p : ℕ)
          → g.lookup c.table h ≡ some p
          → (e : CacheEntry) × (c.heap p ≡ some e) × (e.hash ≡ h))

  abbrev pub one_less : (ℕ → ℕ) → ℕ → ℕ → ℕ
  one_less held p = at held p (held p - 1)

  -- With the last holder the mark goes.
  abbrev pub unmark : (ℕ → ℕ) → (ℕ → Bool) → ℕ → ℕ → Bool
  unmark held wrote p = at wrote p (if held p == 1 then false else wrote p)

  pub held-some :
      (c : Cache g) (held : ℕ → ℕ) (wrote : ℕ → Bool) (p : ℕ)
      → IsCache c held wrote
      → 0 < held p
      → (e : CacheEntry) × (c.heap p ≡ some e)
        × (e.ref ≡ held p)
        × (e.dirty ≡ wrote p)
        × (g.lookup c.table e.hash ≡ some p)
  held-some c held wrote p (entries, _) some_hold = elim (Option-cases (c.heap p)) [
    | inl gone ↦
        let (n, _) : Matches c p none (held p) (wrote p) = rw gone at (entries p) in
        absurd (omega (arith, n, some_hold))
    | inr (e, there) ↦
        let (n, _, w, l) : Matches c p (some e) (held p) (wrote p) = rw there at (entries p) in
        (e, there, n, w, l)
  ]

  pub IsCache-at :
      (c : Cache g) (held : ℕ → ℕ) (wrote : ℕ → Bool) (p n n' : ℕ) (w w' : Bool)
      → n ≡ n'
      → w ≡ w'
      → IsCache c (at held p n) (at wrote p w)
      → IsCache c (at held p n') (at wrote p w')
  IsCache-at c held wrote p n n' w w' e f h = rw (← e, ← f) h

  -- A change of an entry in place.
  pub IsCache-change :
      (c : Cache g) (held : ℕ → ℕ) (wrote : ℕ → Bool) (p n : ℕ) (w : Bool) (e e' : CacheEntry)
      → IsCache c held wrote
      → c.heap p ≡ some e
      → e'.hash ≡ e.hash
      → e'.ref ≡ n
      → 0 < n
      → e'.dirty ≡ w
      → g.lookup c.table e.hash ≡ some p
      → IsCache (record c { heap = at c.heap p (some e') }) (at held p n) (at wrote p w)
  IsCache-change c held wrote p n w e e' (entries, keys) there hash ref pos dirty look = (
    (λ q. elim (Bool-cases (q == p)) [
      | inl same ↦ rw same (ref, pos, dirty, rw hash (look ∙ ap some (sym (==→eq q p same))))
      | inr other ↦ rw other (entries q)
    ]),
    λ h q l. elim (Bool-cases (q == p)) [
      | inl same ↦
          let (x, at_q, is_h) = keys h q l in
          let one : some e ≡ some x = sym there ∙ ap c.heap (sym (==→eq q p same)) ∙ at_q in
          (e', rw same refl, hash ∙ ap (λ y. y.hash) (some-inj one) ∙ is_h)
      | inr other ↦ rw other (keys h q l)
    ],
  )

  Matches-table :
      (c : Cache g) (table : g.Table) (heap : ℕ → Option CacheEntry) (q : ℕ)
      → (o : Option CacheEntry) (n : ℕ) (w : Bool)
      → ((e : CacheEntry) → g.lookup c.table e.hash ≡ some q → g.lookup table e.hash ≡ some q)
      → Matches c q o n w
      → Matches (record { table = table; heap = heap }) q o n w
  Matches-table c table heap q none n w keeps m = m
  Matches-table c table heap q (some e) n w keeps (ref, pos, dirty, look) =
      (ref, pos, dirty, keeps e look)

  module _ (law : IsHashTable g) where
    remove-other :
        (t : g.Table) (k j p q : ℕ)
        → g.lookup t k ≡ some p
        → g.lookup t j ≡ some q
        → (q == p) ≡ false
        → g.lookup (g.remove t k).0 j ≡ some q
    remove-other t k j p q at_k at_j other = elim (Bool-cases (j == k)) [
      | inr away ↦ law.lookup-remove t k j ∙ rw away at_j
      | inl same ↦
          let one : some q ≡ some p = sym at_j ∙ ap (g.lookup t) (==→eq j k same) ∙ at_k in
          let hit : (q == p) ≡ true = rw (some-inj one) (==_refl p) in cc (sym hit ∙ other)
    ]

    remove-inv :
        (t : g.Table) (k j q : ℕ)
        → g.lookup (g.remove t k).0 j ≡ some q
        → (j ≢ k) × (g.lookup t j ≡ some q)
    remove-inv t k j q l = elim (Bool-cases (j == k)) [
      | inl same ↦ let gone : none ≡ some q = rw same at (sym (law.lookup-remove t k j) ∙ l) in cc
      | inr away ↦ (
        λ e. let hit : (j == k) ≡ true = rw e (==_refl k) in cc (sym away ∙ hit),
        rw away at (sym (law.lookup-remove t k j) ∙ l),
      )
    ]

    pub insert_self : (t : g.Table) (k p : ℕ) → g.lookup (g.insert t k p) k ≡ some p
    insert_self t k p = law.lookup-insert t k p k ∙ rw (==_refl k) refl

    insert-other :
        (t : g.Table) (k p j q : ℕ)
        → g.lookup t k ≡ none
        → g.lookup t j ≡ some q
        → g.lookup (g.insert t k p) j ≡ some q
    insert-other t k p j q new found = elim (Bool-cases (j == k)) [
      | inr away ↦ law.lookup-insert t k p j ∙ rw away found
      | inl same ↦
          let gone : none ≡ some q = sym new ∙ ap (g.lookup t) (sym (==→eq j k same)) ∙ found in cc
    ]

    insert-inv :
        (t : g.Table) (k p j q : ℕ)
        → g.lookup (g.insert t k p) j ≡ some q
        → ((j ≡ k) × (q ≡ p)) ⊎ (g.lookup t j ≡ some q)
    insert-inv t k p j q l = elim (Bool-cases (j == k)) [
      | inl same ↦
          let one : some p ≡ some q = rw same at (sym (law.lookup-insert t k p j) ∙ l) in
          inl (==→eq j k same, sym (some-inj one))
      | inr away ↦ inr (rw away at (sym (law.lookup-insert t k p j) ∙ l))
    ]

    -- The last holder's put.
    pub IsCache-remove :
        (c : Cache g) (held : ℕ → ℕ) (wrote : ℕ → Bool) (p : ℕ) (e : CacheEntry)
        → IsCache c held wrote
        → c.heap p ≡ some e
        → g.lookup c.table e.hash ≡ some p
        → IsCache
            (record { table = (g.remove c.table e.hash).0; heap = at c.heap p none })
            (at held p 0)
            (at wrote p false)
    IsCache-remove c held wrote p e (entries, keys) there look = (
      (λ q. elim (Bool-cases (q == p)) [
        | inl same ↦ rw same (refl, refl)
        | inr other ↦ rw other (
            Matches-table c (g.remove c.table e.hash).0 (at c.heap p none) q (c.heap q) (held q)
              (wrote q) (λ d found. remove-other c.table e.hash d.hash p q look found other)
              (entries q))
      ]),
      λ h q l.
          let (away, l') = remove-inv c.table e.hash h q l in
          let (x, at_q, is_h) = keys h q l' in
          elim (Bool-cases (q == p)) [
            | inl same ↦
                let one : some e ≡ some x = sym there ∙ ap c.heap (sym (==→eq q p same)) ∙ at_q in
                absurd (away (sym is_h ∙ sym (ap (λ y. y.hash) (some-inj one))))
            | inr other ↦ (x, rw other at_q, is_h)
          ],
    )

    -- An entry under a hash that is new.
    pub IsCache-insert :
        (c : Cache g) (held : ℕ → ℕ) (wrote : ℕ → Bool) (p k : ℕ) (w : Bool)
        → IsCache c held wrote
        → c.heap p ≡ none
        → g.lookup c.table k ≡ none
        → IsCache
            (record {
              table = g.insert c.table k p;
              heap = at c.heap p (some (record { hash = k; dirty = w; ref = 1 }));
            })
            (at held p 1)
            (at wrote p w)
    IsCache-insert c held wrote p k w (entries, keys) free new = (
      (λ q. elim (Bool-cases (q == p)) [
        | inl same ↦
            rw same
              (refl, omega arith, refl, insert_self c.table k p ∙ ap some (sym (==→eq q p same)))
        | inr other ↦ rw other (
            Matches-table c (g.insert c.table k p)
              (at c.heap p (some (record { hash = k; dirty = w; ref = 1 }))) q (c.heap q) (held q)
              (wrote q) (λ d found. insert-other c.table k p d.hash q new found) (entries q))
      ]),
      λ h q l. elim (insert-inv c.table k p h q l) [
        | inl (is_k, is_p) ↦
            let here : (q == p) ≡ true = rw is_p (==_refl p) in
            (record { hash = k; dirty = w; ref = 1 }, rw here refl, sym is_k)
        | inr found ↦
            let (x, at_q, is_h) = keys h q found in
            elim (Bool-cases (q == p)) [
              | inl same ↦
                  let gone : none ≡ some x = sym free ∙ ap c.heap (sym (==→eq q p same)) ∙ at_q in
                  cc
              | inr other ↦ (x, rw other at_q, is_h)
            ]
      ],
    )
