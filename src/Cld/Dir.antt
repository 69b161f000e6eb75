-- ===== src/Cld/Dir.antt =====
-- Directories of the file service, cld/msg.c: path names and the packed entries of a directory.
pub mod Entries
pub mod Paths
use hail.Base.{
  ℕ, zero, suc, ◌+◌, ◌-◌, ◌*◌, ◌/◌, ◌%◌, Bool, true, false, not, ◌&&◌, ◌||◌, Option, none, some,
  List, [], ◌∷◌, ◌++◌, length, take, drop, replicate, ltb, ◌==◌, if◌then◌else◌,
}

-- '/'
abbrev pub slash : ℕ
slash = 47

-- memcmp of two stretches of one length, and of others false
abbrev pub same_bytes : List ℕ → List ℕ → Bool
same_bytes [] [] = true
same_bytes [] (y ∷ ys) = false
same_bytes (x ∷ xs) [] = false
same_bytes (x ∷ xs) (y ∷ ys) = (x == y) && same_bytes xs ys

abbrev pub has_byte : ℕ → List ℕ → Bool
has_byte c [] = false
has_byte c (x ∷ xs) = (x == c) || has_byte c xs

-- memmem for "//"
abbrev pub double_slash : List ℕ → Bool
double_slash [] = false
double_slash (x ∷ []) = false
double_slash (x ∷ y ∷ ys) = ((x == slash) && (y == slash)) || double_slash (y ∷ ys)

abbrev pub last_byte : ℕ → List ℕ → ℕ
last_byte d [] = d
last_byte d (x ∷ xs) = last_byte x xs

unfoldable pub valid_inode_name : List ℕ → Bool
valid_inode_name [] = false
valid_inode_name (c ∷ cs) =
    if has_byte 0 (c ∷ cs)
    then false
    else (if not (c == slash)
        then false
        else (if ltb 1 (length (c ∷ cs)) && (last_byte c cs == slash)
            then false
            else not (double_slash (c ∷ cs))))

-- memrchr for '/': what stands before the last one and behind it.
abbrev pub split_last : List ℕ → Option (List ℕ × List ℕ)
split_last [] = none
split_last (c ∷ cs) = elim (split_last cs) [
  | some (a, b) ↦ some (c ∷ a, b)
  | none ↦ if c == slash then some ([], cs) else none
]

-- The directory and the base name of a path.
abbrev pub at_slash : List ℕ → Option (List ℕ × List ℕ) → List ℕ × List ℕ
at_slash path none = ([], path)
at_slash path (some ([], b)) = (slash ∷ [], if length path == 1 then slash ∷ [] else b)
at_slash path (some (c ∷ a, b)) = (c ∷ a, b)

unfoldable pub pathname_parse : List ℕ → List ℕ × List ℕ
pathname_parse path = at_slash path (split_last path)

-- CLD_ALIGN8
abbrev pub align8 : ℕ → ℕ
align8 n = (8 - n % 8) % 8

-- dirent_find: offset and length of the entry; -1; -2.
pub data Found : Type 0 where
  found : ℕ → ℕ → Found
  missing : Found
  malformed : Found

-- The loop of dirent_find. An entry has at least eight bytes, so that the length of the data is
-- fuel enough.
unfoldable pub find_loop : ℕ → List ℕ → List ℕ → ℕ → Found
find_loop zero p name ofs = malformed
find_loop (suc f) [] name ofs = missing
find_loop (suc f) (b ∷ []) name ofs = malformed
find_loop (suc f) (lo ∷ hi ∷ p) name ofs =
    let str_len = lo + hi * 256 in
    let rec_len = str_len + 2 in
    let total_len = rec_len + align8 rec_len in
    let rest = find_loop f (drop total_len (lo ∷ hi ∷ p)) name (ofs + total_len) in
    if ltb (length (lo ∷ hi ∷ p)) total_len
    then malformed
    else (if (length name == str_len) && same_bytes (take str_len p) name
        then found ofs total_len
        else rest)

unfoldable pub dirent_find : List ℕ → List ℕ → Found
unfolding find_loop
dirent_find bytes name = find_loop (suc (length bytes)) bytes name 0

-- The data without the entry, unless it is not found.
unfoldable pub dirdata_delete : List ℕ → List ℕ → Option (List ℕ)
unfolding dirent_find
dirdata_delete bytes name = elim (dirent_find bytes name) [
  | found ofs ent_len ↦ some (take ofs bytes ++ drop (ofs + ent_len) bytes)
  | missing ↦ none
  | malformed ↦ none
]

-- An entry: the length in 16 bits, low byte first, the name, and zeros up to a multiple of eight.
unfoldable pub dir_record : List ℕ → List ℕ
dir_record name =
    length name % 256 ∷ length name / 256 % 256 ∷ name ++ replicate (align8 (length name + 2)) 0

unfoldable pub dirdata_append : List ℕ → List ℕ → List ℕ
unfolding dir_record
dirdata_append bytes name = bytes ++ dir_record name
