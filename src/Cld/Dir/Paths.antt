-- ===== src/Cld/Dir/Paths.antt =====
-- How pathname_parse of cld/msg.c takes a valid path apart.
use hail.Base.{
  ℕ, ◌≤◌, ◌≡◌, ◌≢◌, ◌⊎◌, refl, ap, Bool, true, false, not, Option, none, some, List, [], ◌∷◌, ◌++◌,
  arith, length, ◌==◌, ==→eq, if◌then◌else◌, inl, inr, Bool-cases,
}
use hail.Cld.Dir.{
  slash, has_byte, double_slash, last_byte, valid_inode_name, split_last, at_slash, pathname_parse,
}

abbrev Splits : List ℕ → Option (List ℕ × List ℕ) → Type 0
Splits p none = has_byte slash p ≡ false
Splits p (some (a, b)) = (p ≡ a ++ (slash ∷ b)) × (has_byte slash b ≡ false)

split_last-Splits : (p : List ℕ) → Splits p (split_last p)
split_last-Splits [] = refl
split_last-Splits (c ∷ cs) = by_rest (split_last cs) refl (split_last-Splits cs)
  where
    by_rest :
        (r : Option (List ℕ × List ℕ))
        → split_last cs ≡ r
        → Splits cs r
        → Splits (c ∷ cs) (split_last (c ∷ cs))
    by_rest (some (a, b)) e s = rw e (ap (◌∷◌ c) s.0, s.1)
    by_rest none e s = elim (Bool-cases (c == slash)) [
      | inl here ↦ rw (e, here) (ap (λ x. x ∷ cs) (==→eq c slash here), s)
      | inr not_here ↦ rw (e, not_here) (ground (arith, s, not_here))
    ]

last_byte-append :
    (d : ℕ) (a : List ℕ) (x : ℕ) (b : List ℕ) → last_byte d (a ++ (x ∷ b)) ≡ last_byte x b
last_byte-append d [] x b = refl
last_byte-append d (c ∷ a) x b = last_byte-append c a x b

guards :
    (nul first last double : Bool)
    → (if nul then false else (if not first then false else (if last then false else not double)))
      ≡ true
    → (first ≡ true) × (last ≡ false)
guards nul first last double h = ground arith

valid-has_byte : (p : List ℕ) → valid_inode_name p ≡ true → has_byte slash p ≡ true
unfolding valid_inode_name
valid-has_byte [] h = cc
valid-has_byte (c ∷ cs) h =
    let (first, _) = guards _ (c == slash) _ (double_slash (c ∷ cs)) h in rw first refl

valid-last_byte : (p : List ℕ) → valid_inode_name p ≡ true → 2 ≤ length p → last_byte 0 p ≢ slash
unfolding valid_inode_name
valid-last_byte [] h two e = cc
valid-last_byte (c ∷ cs) h two e =
    let (_, last) = guards _ (c == slash) _ (double_slash (c ∷ cs)) h in
    ground (arith, last, e, two)

-- A valid path of at least two bytes is its directory, a slash and its base name, where the
-- root's name is the slash; the base name is not empty and has no slash.
pub pathname_parse-parts :
    (path : List ℕ)
    → valid_inode_name path ≡ true
    → 2 ≤ length path
    → (((pathname_parse path).0 ≡ slash ∷ []) × (path ≡ slash ∷ (pathname_parse path).1)
        ⊎ (path ≡ (pathname_parse path).0 ++ (slash ∷ (pathname_parse path).1)))
      × ((pathname_parse path).1 ≢ [])
      × (has_byte slash (pathname_parse path).1 ≡ false)
unfolding pathname_parse
pathname_parse-parts path valid two = by_split (split_last path) refl (split_last-Splits path)
  where
    Parts : List ℕ × List ℕ → Type 0
    Parts r =
        ((r.0 ≡ slash ∷ []) × (path ≡ slash ∷ r.1) ⊎ (path ≡ r.0 ++ (slash ∷ r.1)))
        × (r.1 ≢ [])
        × (has_byte slash r.1 ≡ false)

    base_ne : (a b : List ℕ) → path ≡ a ++ (slash ∷ b) → b ≢ []
    base_ne a b e empty =
        valid-last_byte path valid two (rw (e, empty) (last_byte-append 0 a slash []))

    by_split :
        (r : Option (List ℕ × List ℕ))
        → split_last path ≡ r
        → Splits path r
        → Parts (at_slash path (split_last path))
    by_split none e s = cc (valid-has_byte path valid, s)
    by_split (some ([], b)) e s =
        let long : (length path == 1) ≡ false = ground (arith, two) in
        rw (e, long) (inl (refl, s.0), base_ne [] b s.0, s.1)
    by_split (some (c ∷ a, b)) e s = rw e (inr s.0, base_ne (c ∷ a) b s.0, s.1)
