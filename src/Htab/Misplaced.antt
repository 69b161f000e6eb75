-- ===== src/Htab/Misplaced.antt =====
-- htab_put of lib/htab.c where the table is enlarged: the bucket was computed for the old size.
use hail.Base.{
  ℕ, ◌+◌, ◌*◌, ◌%◌, ◌≡◌, refl, ap, ◌∙◌, ◌≢◌, Bool, true, none, some, [], get_elem?, get_or-set_ne,
}
use hail.Htab.Buckets.{IsValid, primes-pos}
use hail.Htab.Rehash.{enlarge-get}
use hail.Htab.Laws.{added}
use hail.Htab.{Htab, primes, size_of, need_resize, enlarge, resize, add_entry, put, get}

module _ {ℓ} {K V : Type ℓ} where
  added_elsewhere :
      (hash bucket : ℕ) (k : K) (v : V) (h : Htab K V)
      → bucket ≢ h.hash_fn k % size_of h
      → get (added hash bucket k v h) k ≡ get h k
  unfolding get size_of
  added_elsewhere hash bucket k v h ne =
      rw (get_or-set_ne h.buckets bucket (h.hash_fn k % size_of h) _ [] ne) refl

  -- A put into a well-formed table that is due for enlargement, with memory and a next prime
  -- there, reports success, yet a key that was not in the table and whose hash has another
  -- remainder by the new size than by the old one is not found afterwards.
  pub put_lost :
      (calloc : ℕ → Bool) (h : Htab K V) (k : K) (v : V) (n : ℕ)
      → IsValid h
      → need_resize h ≡ true
      → get_elem? primes (h.prime_idx + 1) ≡ some n
      → calloc (n * 16) ≡ true
      → calloc 40 ≡ true
      → get h k ≡ none
      → h.hash_fn k % size_of h ≢ h.hash_fn k % n
      → (h' : Htab K V) × (put calloc h k v ≡ some (true, h')) × (get h' k ≡ none)
  unfolding put add_entry size_of enlarge resize
  put_lost calloc h k v n valid due p mem mem' absent differ = (
    added (h.hash_fn k) (h.hash_fn k % size_of h) k v (enlarge n h),
    rw (due, resize, p, mem, mem') refl,
    added_elsewhere (h.hash_fn k) (h.hash_fn k % size_of h) k v (enlarge n h)
          (λ q. differ (q ∙ ap (λ (x : ℕ). h.hash_fn k % x) (primes-pos (h.prime_idx + 1) n p).0))
        ∙ enlarge-get n h valid p k
        ∙ absent,
  )
