-- ===== src/Cld/Lock/Compare.antt =====
-- lock_compare of cld/cldb.c: 64-bit differences, returned as an int.
use Prim.Native.Nat.{compare, Ordering}
use hail.Base.{not, ℕ, ◌+◌, ◌-◌, ◌%◌, ◌^◌, ◌<◌, ◌≡◌, arith, ltb, ◌==◌, if◌then◌else◌}
use hail.Cld.{RawLock}

abbrev u64 : ℕ
u64 = 2 ^ 64

-- int64_t v = a - b, as its bit pattern
pub diff : ℕ → ℕ → ℕ
diff a b = (a + u64 - b) % u64

-- The sign of the int that a 64-bit pattern is narrowed to.
pub int_sign : ℕ → Ordering
int_sign v =
    let low = v % 2 ^ 32 in
    if low == 0 then Ordering.eq else (if ltb low (2 ^ 31) then Ordering.gt else Ordering.lt)

-- A SID is read as a big-endian number here, which memcmp orders.
pub lock_compare : RawLock → RawLock → Ordering
lock_compare a b =
    if not (diff a.inum b.inum == 0)
    then int_sign (diff a.inum b.inum)
    else (if not (diff a.ctime b.ctime == 0)
        then int_sign (diff a.ctime b.ctime)
        else elim (compare a.sid b.sid) [
          | Ordering.eq ↦ int_sign (diff a.fh b.fh)
          | Ordering.lt ↦ Ordering.lt
          | Ordering.gt ↦ Ordering.gt
        ])

-- The order that the comparison is meant to be: by inode, creation time, session and handle.
pub lex_compare : RawLock → RawLock → Ordering
lex_compare a b = elim (compare a.inum b.inum) [
  | Ordering.lt ↦ Ordering.lt
  | Ordering.gt ↦ Ordering.gt
  | Ordering.eq ↦ elim (compare a.ctime b.ctime) [
    | Ordering.lt ↦ Ordering.lt
    | Ordering.gt ↦ Ordering.gt
    | Ordering.eq ↦ elim (compare a.sid b.sid) [
      | Ordering.lt ↦ Ordering.lt
      | Ordering.gt ↦ Ordering.gt
      | Ordering.eq ↦ compare a.fh b.fh
    ]
  ]
]

-- Two 64-bit numbers that lie less than 2 ^ 31 apart.
abbrev pub Near : ℕ → ℕ → Type 0
Near a b = (a < u64) × (b < u64) × (a < b + 2 ^ 31) × (b < a + 2 ^ 31)

sign-compare : (a b : ℕ) → Near a b → int_sign (diff a b) ≡ compare a b
unfolding diff int_sign
sign-compare a b h = ground arith

zero-compare : (a b : ℕ) → Near a b → (diff a b == 0) ≡ (a == b)
unfolding diff
zero-compare a b h = ground arith

-- For two lock records whose inode numbers, creation times and handles are 64-bit numbers less
-- than 2 ^ 31 apart, the comparison by narrowed differences is the order by inode, creation time,
-- session and handle.
pub lock_compare-lex :
    (a b : RawLock)
    → Near a.inum b.inum
    → Near a.ctime b.ctime
    → Near a.fh b.fh
    → lock_compare a b ≡ lex_compare a b
unfolding lock_compare lex_compare
lock_compare-lex a b i c f = ground (
  arith,
  sign-compare a.inum b.inum i,
  sign-compare a.ctime b.ctime c,
  sign-compare a.fh b.fh f,
  zero-compare a.inum b.inum i,
  zero-compare a.ctime b.ctime c,
)
