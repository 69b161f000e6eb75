-- ===== src/Tests/Tables.antt =====
-- Runs of lib/htab.c.
use mathlib.Core.List.{flatten}
use hail.Base.{
  ℕ, zero, suc, ◌+◌, ◌%◌, ◌≡◌, refl, Bool, true, false, ◌&&◌, none, some, [], ◌∷◌, arith, ◌==◌,
  if◌then◌else◌,
}
use hail.Htab.Chain.{Entry, chain_get}
use hail.Htab.Buckets.{Placed, IsValid}
use hail.Htab.Laws.{put-get}
use hail.Htab.Deletion.{IsEquality, is_some, del-get}
use hail.Htab.Misplaced.{put_lost}
use hail.Htab.{Htab, u32, size_of, size_of, need_resize, put, get, del}

abbrev always : ℕ → Bool
always n = true

abbrev self_hash : ℕ → ℕ
self_hash k = k

abbrev same : ℕ → ℕ → Bool
same a b = a == b

abbrev entry : ℕ → ℕ → Entry ℕ ℕ
entry k v = record { key = k; value = v; hash = k }

-- Five buckets, two entries in one of them.
abbrev two : Htab ℕ ℕ
two = record {
  hash_fn = self_hash;
  cmp_fn = same;
  free_key = true;
  free_value = false;
  prime_idx = 0;
  buckets = [] ∷ (entry 1 10 ∷ entry 6 60 ∷ []) ∷ [] ∷ [] ∷ [] ∷ [];
  n_ent = 2;
}

-- One entry more than the threshold.
abbrev four : Htab ℕ ℕ
four = record {
  hash_fn = self_hash;
  cmp_fn = same;
  free_key = false;
  free_value = false;
  prime_idx = 0;
  buckets = (entry 0 0 ∷ []) ∷ (entry 1 10 ∷ []) ∷ (entry 2 20 ∷ []) ∷ (entry 3 30 ∷ []) ∷ [] ∷ [];
  n_ent = 4;
}

two-Placed : Placed {K = ℕ} {V = ℕ} 5 two.buckets
two-Placed zero = tt
two-Placed (suc zero) = (refl, (refl, tt))
two-Placed (suc (suc zero)) = tt
two-Placed (suc (suc (suc zero))) = tt
two-Placed (suc (suc (suc (suc zero)))) = tt
two-Placed (suc (suc (suc (suc (suc i))))) = tt

four-Placed : Placed {K = ℕ} {V = ℕ} 5 four.buckets
four-Placed zero = (refl, tt)
four-Placed (suc zero) = (refl, tt)
four-Placed (suc (suc zero)) = (refl, tt)
four-Placed (suc (suc (suc zero))) = (refl, tt)
four-Placed (suc (suc (suc (suc zero)))) = tt
four-Placed (suc (suc (suc (suc (suc i))))) = tt

two-IsValid : IsValid two
unfolding size_of flatten
two-IsValid = record { idx = omega arith; width = refl; placed = two-Placed; counted = refl }

four-IsValid : IsValid four
unfolding size_of flatten
four-IsValid = record { idx = omega arith; width = refl; placed = four-Placed; counted = refl }

same-IsEquality : IsEquality same
same-IsEquality = record { symm = λ a b. ground arith; trans = λ a b c p q. ground (arith, p, q) }

put-get_example :
    (h' : Htab ℕ ℕ) × (put always two 11 110 ≡ some (true, h'))
    × IsValid h'
    × (h'.n_ent ≡ (two.n_ent + 1) % u32)
    × ((j : ℕ)
        → get h' j
          ≡ (if (two.hash_fn 11 == two.hash_fn j) && two.cmp_fn 11 j then some 110 else get two j))
unfolding need_resize size_of
put-get_example = put-get always two 11 110 two-IsValid refl refl

del-get_example :
    IsValid (del two 6).1
    × ((del two 6).0 ≡ is_some (get two 6))
    × ((j : ℕ)
        → get (del two 6).1 j
          ≡ (if (two.hash_fn 6 == two.hash_fn j) && two.cmp_fn 6 j then none else get two j))
del-get_example = del-get two 6 two-IsValid same-IsEquality

put_lost_example : (h' : Htab ℕ ℕ) × (put always four 5 50 ≡ some (true, h')) × (get h' 5 ≡ none)
unfolding need_resize get chain_get size_of
put_lost_example = put_lost always four 5 50 769 four-IsValid refl refl refl refl refl (λ e. cc)
