-- ===== src/Timer/Glist.antt =====
-- What lib/libtimer.c uses of GLib's linked lists, with the behaviour that GLib documents.
use Prim.Native.Nat.{Ordering}
use hail.Base.{ℕ, ◌≡◌, ◌≢◌, List, [], ◌∷◌, ◌++◌, All}

-- The first element, if any, does not lie below `x`.
abbrev pub HeadFits : (ℕ → ℕ → Ordering) → ℕ → List ℕ → Type 0
HeadFits cmp x [] = Unit
HeadFits cmp x (y ∷ ys) = cmp x y ≢ Ordering.gt

pub record ListOps : Type 0 where
  -- g_list_remove takes the first element that is equal, if there is one
  pub remove : ℕ → List ℕ → List ℕ
  pub remove_nil : (x : ℕ) → remove x [] ≡ []
  pub remove_here : (x : ℕ) (l : List ℕ) → remove x (x ∷ l) ≡ l
  pub remove_there : (x y : ℕ) (l : List ℕ) → x ≢ y → remove x (y ∷ l) ≡ y ∷ remove x l
  -- g_list_insert_sorted goes past the elements below `x`
  pub insert_sorted : (ℕ → ℕ → Ordering) → ℕ → List ℕ → List ℕ
  pub insert_sorted_place :
      (cmp : ℕ → ℕ → Ordering) (x : ℕ) (l : List ℕ)
      → (a : List ℕ) × (b : List ℕ) × (l ≡ a ++ b)
        × (insert_sorted cmp x l ≡ a ++ x ∷ b)
        × All (λ y. cmp x y ≡ Ordering.gt) a
        × HeadFits cmp x b
