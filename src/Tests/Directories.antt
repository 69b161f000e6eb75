-- ===== src/Tests/Directories.antt =====
-- Runs of the directory code of cld/msg.c and of lib/cldc.c.
use hail.Base.{ℕ, ◌≡◌, ◌≢◌, ◌⊎◌, refl, false, none, some, List, [], ◌∷◌, ◌++◌, arith, if◌then◌else◌}
use hail.Cld.Dir.{slash, has_byte, valid_inode_name, pathname_parse, dirdata_append, dirdata_delete}
use hail.Cld.Dir.Entries.{encode, has_name, without, dirdata-encode}
use hail.Cldc.Listing.{cmd_ls, cmd_ls-encode}
use hail.Cld.Dir.Paths.{pathname_parse-parts}

-- "ab" and "c"
abbrev names : List (List ℕ)
names = (97 ∷ 98 ∷ []) ∷ (99 ∷ []) ∷ []

dirdata-encode_example :
    (dirdata_append (encode names) (100 ∷ []) ≡ encode (names ++ (100 ∷ []) ∷ []))
    × (dirdata_delete (encode names) (100 ∷ [])
        ≡ (if has_name (100 ∷ []) names then some (encode (without (100 ∷ []) names)) else none))
dirdata-encode_example = dirdata-encode names (100 ∷ []) (omega arith, (omega arith, tt))

cmd_ls-encode_example : cmd_ls (encode names) ≡ some names
cmd_ls-encode_example = cmd_ls-encode names (omega arith, (omega arith, tt))

-- "/a/bc"
abbrev path : List ℕ
path = 47 ∷ 97 ∷ 47 ∷ 98 ∷ 99 ∷ []

pathname_parse-parts_example :
    (((pathname_parse path).0 ≡ slash ∷ []) × (path ≡ slash ∷ (pathname_parse path).1)
      ⊎ (path ≡ (pathname_parse path).0 ++ (slash ∷ (pathname_parse path).1)))
    × ((pathname_parse path).1 ≢ [])
    × (has_byte slash (pathname_parse path).1 ≡ false)
unfolding valid_inode_name
pathname_parse-parts_example = pathname_parse-parts path refl (omega arith)
