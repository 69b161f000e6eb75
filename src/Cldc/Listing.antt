-- ===== src/Cldc/Listing.antt =====
-- The entries of a directory as a client reads them: cldc_dirent_count, cldc_dirent_first,
-- cldc_dirent_next and cldc_dirent_name of lib/cldc.c, and the loop of cmd_ls of tools/cldcli.c.
use hail.Base.{
  ℕ, zero, suc, ◌+◌, ◌*◌, ◌/◌, ◌%◌, ◌≤◌, ◌<◌, ◌≡◌, refl, ◌∙◌, ap, Bool, true, false, Option, none,
  some, List, [], ◌∷◌, ◌++◌, append_assoc, length, length-append, take, drop, replicate,
  take-append, drop-append, All, ltb, if◌then◌else◌, arith,
}
use hail.Cld.Dir.{align8, dir_record}
use hail.Cld.Dir.Entries.{encode, Short, entry_len, length-dir_record, ltb-le}

-- dirent_length: the length of the first entry, and that of its name; none for -1.
unfoldable pub dirent_length : List ℕ → Option (ℕ × ℕ)
dirent_length [] = none
dirent_length (b ∷ []) = none
dirent_length (lo ∷ hi ∷ p) =
    let str_len = lo + hi * 256 in
    let total_len = str_len + 2 + align8 (str_len + 2) in
    if ltb (length (lo ∷ hi ∷ p)) total_len then none else some (total_len, str_len)

-- The loop of cldc_dirent_count; none for -2. An entry has at least two bytes, so that the length
-- of the data is fuel enough.
unfoldable pub count_loop : ℕ → List ℕ → ℕ → Option ℕ
unfolding dirent_length
count_loop zero p count = none
count_loop (suc f) [] count = some count
count_loop (suc f) (b ∷ p) count = elim (dirent_length (b ∷ p)) [
  | none ↦ none
  | some (total_len, str_len) ↦ count_loop f (drop total_len (b ∷ p)) (count + 1)
]

unfoldable pub dirent_count : List ℕ → Option ℕ
unfolding count_loop
dirent_count bytes = count_loop (suc (length bytes)) bytes 0

abbrev pub is_entry : Option (ℕ × ℕ) → Bool
is_entry none = false
is_entry (some r) = true

-- A cursor is the data from an entry on. The result says whether the call succeeded.
unfoldable pub dirent_first : List ℕ → List ℕ × Bool
unfolding dirent_length
dirent_first dc = (dc, is_entry (dirent_length dc))

abbrev pub skip : List ℕ → Option (ℕ × ℕ) → List ℕ
skip dc none = dc
skip dc (some (total_len, str_len)) = drop total_len dc

unfoldable pub dirent_next : List ℕ → List ℕ × Bool
unfolding dirent_length
dirent_next dc =
    let there = skip dc (dirent_length dc) in
    if is_entry (dirent_length dc) then (there, is_entry (dirent_length there)) else (dc, false)

unfoldable pub dirent_name : List ℕ → List ℕ
dirent_name [] = []
dirent_name (b ∷ []) = []
dirent_name (lo ∷ hi ∷ p) = take (lo + hi * 256) p

-- The loop of cmd_ls, with `n` records to go: the names that it prints.
unfoldable pub ls_loop : ℕ → Bool → List ℕ → List (List ℕ)
unfolding dirent_first dirent_next dirent_name
ls_loop zero first dc = []
ls_loop (suc n) first dc =
    let (dc', good) = if first then dirent_first dc else dirent_next dc in
    let rest = ls_loop n false dc' in if good then dirent_name dc' ∷ rest else []

-- cmd_ls on the data of a directory; none where the data is malformed.
unfoldable pub cmd_ls : List ℕ → Option (List (List ℕ))
unfolding dirent_count ls_loop
cmd_ls bytes = elim (dirent_count bytes) [ none ↦ none | some n ↦ some (ls_loop n true bytes) ]

dirent_length-entry :
    (n rest : List ℕ)
    → Short n
    → dirent_length (dir_record n ++ rest) ≡ some (entry_len n, length n)
unfolding dirent_length dir_record
dirent_length-entry n rest short =
    let pad : List ℕ = replicate (align8 (length n + 2)) 0 in
    let len : length n % 256 + length n / 256 % 256 * 256 ≡ length n = omega (arith, short) in
    let long : entry_len n ≤ length (dir_record n ++ rest) =
      omega (arith, length-append (dir_record n) rest, length-dir_record n) in
    rw (len, ltb-le (length (dir_record n ++ rest)) (entry_len n) long) refl

dirent_name-entry : (n rest : List ℕ) → Short n → dirent_name (dir_record n ++ rest) ≡ n
unfolding dirent_name dir_record
dirent_name-entry n rest short =
    let pad : List ℕ = replicate (align8 (length n + 2)) 0 in
    let len : length n % 256 + length n / 256 % 256 * 256 ≡ length n = omega (arith, short) in
    rw (len, append_assoc n pad rest) (take-append n (pad ++ rest))

drop-entry : (n rest : List ℕ) → drop (entry_len n) (dir_record n ++ rest) ≡ rest
drop-entry n rest = rw (← length-dir_record n) (drop-append (dir_record n) rest)

count_loop-entry :
    (f : ℕ) (n rest : List ℕ) (count : ℕ)
    → Short n
    → count_loop (suc f) (dir_record n ++ rest) count ≡ count_loop f rest (count + 1)
unfolding count_loop dir_record
count_loop-entry f n rest count short =
    rw (count_loop, dirent_length-entry n rest short)
      (ap (λ x. count_loop f x (count + 1)) (drop-entry n rest))

count_loop-encode :
    (f : ℕ) (ns : List (List ℕ)) (count : ℕ)
    → All Short ns
    → length (encode ns) < f
    → count_loop f (encode ns) count ≡ some (count + length ns)
unfolding count_loop
count_loop-encode zero ns count short h = absurd (omega (arith, h))
count_loop-encode (suc f) [] count short h = ap some (omega arith)
count_loop-encode (suc f) (n ∷ ns) count short h =
    let enough : length (encode ns) < f =
      omega (arith, h, length-append (dir_record n) (encode ns), length-dir_record n) in
    let sum : count + 1 + length ns ≡ count + suc (length ns) = omega arith in
    count_loop-entry f n (encode ns) count short.0
    ∙ count_loop-encode f ns (count + 1) short.1 enough
    ∙ ap some sum

next_lem :
    (n m rest : List ℕ)
    → Short n
    → Short m
    → dirent_next (dir_record n ++ (dir_record m ++ rest)) ≡ (dir_record m ++ rest, true)
unfolding dirent_next
next_lem n m rest short_n short_m =
    rw
      (
        dirent_next,
        dirent_length-entry n (dir_record m ++ rest) short_n,
        drop-entry n (dir_record m ++ rest),
        dirent_length-entry m rest short_m,
      )
      refl

ls_loop-next :
    (n : List ℕ) (ns : List (List ℕ))
    → Short n
    → All Short ns
    → ls_loop (length ns) false (dir_record n ++ encode ns) ≡ ns
unfolding ls_loop
ls_loop-next n [] short_n short = refl
ls_loop-next n (m ∷ ms) short_n short =
    rw (ls_loop, next_lem n m (encode ms) short_n short.0, dirent_name-entry m (encode ms) short.0)
      (ap (◌∷◌ m) (ls_loop-next m ms short.0 short.1))

ls_loop-encode : (ns : List (List ℕ)) → All Short ns → ls_loop (length ns) true (encode ns) ≡ ns
unfolding ls_loop
ls_loop-encode [] short = refl
ls_loop-encode (n ∷ ns) short =
    rw (ls_loop, dirent_length-entry n (encode ns) short.0, dirent_name-entry n (encode ns) short.0)
      (ap (◌∷◌ n) (ls_loop-next n ns short.0 short.1))

-- What a client lists of a directory, by cldc_dirent_count, cldc_dirent_first, cldc_dirent_next
-- and cldc_dirent_name, is the list of the names that the server packed, in order, where the
-- names are shorter than 2 ^ 16 bytes.
pub cmd_ls-encode : (ns : List (List ℕ)) → All Short ns → cmd_ls (encode ns) ≡ some ns
unfolding cmd_ls dirent_count
cmd_ls-encode ns short =
    rw (cmd_ls, count_loop-encode (suc (length (encode ns))) ns 0 short (omega arith))
      (ap some (ap (λ k. ls_loop k true (encode ns)) (omega arith) ∙ ls_loop-encode ns short))
