-- ===== src/Cld/Dir/Entries.antt =====
-- The packed entries of a directory against the list of their names.
use hail.Base.{
  ℕ, zero, suc, ◌+◌, ◌*◌, ◌/◌, ◌%◌, ◌≤◌, ◌<◌, ◌≡◌, refl, sym, ◌∙◌, ap, Bool, true, false, ◌&&◌,
  ◌||◌, Option, none, some, List, [], ◌∷◌, ◌++◌, append_assoc, append-nil, arith, All, length, take,
  drop, replicate, length-append, length-replicate, take-append, drop-append, ltb, ◌==◌, ==_refl,
  if◌then◌else◌, inl, inr, Bool-cases,
}
use hail.Cld.Dir.{
  same_bytes, align8, Found, found, missing, malformed, find_loop, dirent_find, dirdata_delete,
  dir_record, dirdata_append,
}

-- The names in the order of their entries.
abbrev pub encode : List (List ℕ) → List ℕ
encode [] = []
encode (n ∷ ns) = dir_record n ++ encode ns

-- A name's length has to fit its 16 bits.
abbrev pub Short : List ℕ → Type 0
Short name = length name < 65536

abbrev pub has_name : List ℕ → List (List ℕ) → Bool
has_name name [] = false
has_name name (n ∷ ns) = same_bytes n name || has_name name ns

abbrev pub without : List ℕ → List (List ℕ) → List (List ℕ)
without name [] = []
without name (n ∷ ns) = if same_bytes n name then ns else n ∷ without name ns

abbrev pub entry_len : List ℕ → ℕ
entry_len n = length n + 2 + align8 (length n + 2)

pub length-dir_record : (n : List ℕ) → length (dir_record n) ≡ entry_len n
unfolding dir_record
length-dir_record n =
    let pad : List ℕ = replicate (align8 (length n + 2)) 0 in
    omega (arith, length-append n pad, length-replicate {A = ℕ} (align8 (length n + 2)) 0)

same_bytes-length : (a b : List ℕ) → same_bytes a b ≡ true → length a ≡ length b
same_bytes-length [] [] h = refl
same_bytes-length [] (y ∷ ys) h = cc
same_bytes-length (x ∷ xs) [] h = cc
same_bytes-length (x ∷ xs) (y ∷ ys) h = ap suc (same_bytes-length xs ys (ground arith))

pub ltb-le : (a b : ℕ) → b ≤ a → ltb a b ≡ false
ltb-le a b h = ground (arith, h)

&&-false : {A : Type 0} (b : Bool) (x y : A) → (if b && false then x else y) ≡ y
&&-false true x y = refl
&&-false false x y = refl

find_loop-step :
    (f lo hi : ℕ) (p n tail name : List ℕ) (ofs : ℕ)
    → lo + hi * 256 ≡ length n
    → take (length n) p ≡ n
    → drop (entry_len n) (lo ∷ hi ∷ p) ≡ tail
    → entry_len n ≤ length (lo ∷ hi ∷ p)
    → find_loop (suc f) (lo ∷ hi ∷ p) name ofs ≡ (
        if same_bytes n name
        then found ofs (entry_len n)
        else find_loop f tail name (ofs + entry_len n))
unfolding find_loop
find_loop-step f lo hi p n tail name ofs len here there fits =
    elim (Bool-cases (same_bytes n name)) [
      | inl same ↦
          rw
            (
              len,
              find_loop,
              ltb-le (length (lo ∷ hi ∷ p)) (entry_len n) fits,
              here,
              same,
              same_bytes-length n name same,
              ==_refl (length name),
            )
            refl
      | inr differs ↦
          rw
            (len, find_loop, ltb-le (length (lo ∷ hi ∷ p)) (entry_len n) fits, here, differs, there)
            (&&-false (length name == length n) _ _)
    ]

-- One round of the loop, at the start of an entry.
find_loop-entry :
    (f : ℕ) (n : List ℕ) (rest name : List ℕ) (ofs : ℕ)
    → Short n
    → find_loop (suc f) (dir_record n ++ rest) name ofs ≡ (
        if same_bytes n name
        then found ofs (entry_len n)
        else find_loop f rest name (ofs + entry_len n))
unfolding dir_record
find_loop-entry f n rest name ofs short =
    let pad : List ℕ = replicate (align8 (length n + 2)) 0 in
    find_loop-step f (length n % 256) (length n / 256 % 256) ((n ++ pad) ++ rest) n rest name ofs
      (omega (arith, short)) (rw (append_assoc n pad rest) (take-append n (pad ++ rest)))
      (rw (← length-dir_record n) (drop-append (dir_record n) rest))
      (omega (arith, length-append (n ++ pad) rest, length-dir_record n))

-- Where the first entry of a name stands.
abbrev locate : List (List ℕ) → List ℕ → ℕ → Found
locate [] name ofs = missing
locate (n ∷ ns) name ofs =
    if same_bytes n name then found ofs (entry_len n) else locate ns name (ofs + entry_len n)

find_loop-locate :
    (f : ℕ) (ns : List (List ℕ)) (name : List ℕ) (ofs : ℕ)
    → All Short ns
    → length (encode ns) < f
    → find_loop f (encode ns) name ofs ≡ locate ns name ofs
unfolding find_loop
find_loop-locate zero ns name ofs short h = absurd (omega (arith, h))
find_loop-locate (suc f) [] name ofs short h = refl
find_loop-locate (suc f) (n ∷ ns) name ofs short h =
    let enough : length (encode ns) < f =
      omega (arith, h, length-append (dir_record n) (encode ns), length-dir_record n) in
    find_loop-entry f n (encode ns) name ofs short.0
    ∙ rw (find_loop-locate f ns name (ofs + entry_len n) short.1 enough) refl

abbrev cut : List ℕ → Found → Option (List ℕ)
cut bytes (found ofs len) = some (take ofs bytes ++ drop (ofs + len) bytes)
cut bytes missing = none
cut bytes malformed = none

drop-more : (k : ℕ) (a b c : List ℕ) → k ≡ length a + length b → drop k (a ++ (b ++ c)) ≡ c
drop-more k [] b c e = let same : k ≡ length b = omega (arith, e) in rw same (drop-append b c)
drop-more zero (x ∷ a) b c e = absurd (omega (arith, e))
drop-more (suc k) (x ∷ a) b c e = drop-more k a b c (omega (arith, e))

cut-locate :
    (pre : List ℕ) (ns : List (List ℕ)) (name : List ℕ)
    → cut (pre ++ encode ns) (locate ns name (length pre))
      ≡ (if has_name name ns then some (pre ++ encode (without name ns)) else none)
cut-locate pre [] name = refl
cut-locate pre (n ∷ ns) name = elim (Bool-cases (same_bytes n name)) [
  | inl same ↦
      let behind : drop (length pre + entry_len n) (pre ++ encode (n ∷ ns)) ≡ encode ns =
        drop-more (length pre + entry_len n) pre (dir_record n) (encode ns)
          (omega (arith, length-dir_record n)) in
      rw (same, take-append pre (encode (n ∷ ns)), behind) refl
  | inr differs ↦
      let there : length (pre ++ dir_record n) ≡ length pre + entry_len n =
        omega (arith, length-append pre (dir_record n), length-dir_record n) in
      let ih = cut-locate (pre ++ dir_record n) ns name in
      rw differs (
        rw
          (
            there,
            append_assoc pre (dir_record n) (encode ns),
            append_assoc pre (dir_record n) (encode (without name ns)),
          )
          at ih)
]

-- Directory data is a list of names: an append adds a name at the end, and a delete takes the
-- first entry of a name out, or fails where there is none, for a list whose names are shorter
-- than 2 ^ 16 bytes.
pub dirdata-encode :
    (ns : List (List ℕ)) (name : List ℕ)
    → All Short ns
    → (dirdata_append (encode ns) name ≡ encode (ns ++ name ∷ []))
      × (dirdata_delete (encode ns) name
          ≡ (if has_name name ns then some (encode (without name ns)) else none))
unfolding dirdata_append dirdata_delete dirent_find
dirdata-encode ns name short = (
  append_encode ns,
  rw
      (
        dirdata_delete,
        dirent_find,
        find_loop-locate (suc (length (encode ns))) ns name 0 short (omega arith),
      )
      (cut-locate [] ns name),
)
  where
    append_encode : (ns : List (List ℕ)) → encode ns ++ dir_record name ≡ encode (ns ++ name ∷ [])
    append_encode [] = sym (append-nil (dir_record name))
    append_encode (n ∷ ns) =
        append_assoc (dir_record n) (encode ns) (dir_record name)
        ∙ ap (◌++◌ (dir_record n)) (append_encode ns)
