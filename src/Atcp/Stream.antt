-- ===== src/Atcp/Stream.antt =====
-- The bytes of the write queue of lib/atcp.c, and what a writev takes of them.
use hail.Base.{
  ℕ, ◌+◌, ◌-◌, ◌≤◌, ◌<◌, ◌≡◌, refl, sym, ◌∙◌, ap, min, Option, none, some, List, [], ◌∷◌, ◌++◌,
  append_assoc, length, length-append, length-drop, drop, drop_nil, drop-append_le, drop-append_ge,
  All, ◌==◌, inl, inr, Bool-cases, ==→eq, arith,
}
use hail.Atcp.{Write, wr_completed}

abbrev pub stream : List Write → List ℕ
stream [] = []
stream (w ∷ ws) = w.buf ++ stream ws

-- The callbacks of some writes, in order.
abbrev pub callback : Option ℕ → List ℕ
callback none = []
callback (some f) = f ∷ []

abbrev pub callbacks : List Write → List ℕ
callbacks [] = []
callbacks (w ∷ ws) = callback w.cb ++ callbacks ws

abbrev pub total : List Write → ℕ
total [] = 0
total (w ∷ ws) = w.whole + total ws

-- Something is left of every write.
abbrev pub Pending : List Write → Type 0
Pending = All (λ w. 0 < length w.buf)

pub wr_completed_lem :
    (rc : ℕ) (q : List Write)
    → rc ≤ length (stream q)
    → Pending q
    → (stream (wr_completed rc q).0 ≡ drop rc (stream q))
      × (callbacks (wr_completed rc q).1 ++ callbacks (wr_completed rc q).0 ≡ callbacks q)
      × (total (wr_completed rc q).1 + total (wr_completed rc q).0 ≡ total q)
      × Pending (wr_completed rc q).0
unfolding wr_completed
wr_completed_lem rc [] h p = (sym (drop_nil rc), refl, refl, tt)
wr_completed_lem rc (w ∷ ws) h p = elim (Bool-cases (rc == 0)) [
  | inl none_left ↦
      let z : rc ≡ 0 = ==→eq rc 0 none_left in
      rw (wr_completed, none_left)
        (ap (λ k. drop k (w.buf ++ stream ws)) (sym z), refl, omega arith, p)
  | inr some_left ↦
      let sz = min (length w.buf) rc in
      elim (Bool-cases (length w.buf - sz == 0)) [
        | inl whole ↦
            let covers : length w.buf ≤ rc = omega (arith, ==→eq (length w.buf - sz) 0 whole) in
            let here : rc - sz ≡ rc - length w.buf = omega (arith, covers) in
            let (bytes, order, sums, left) =
              wr_completed_lem (rc - sz) ws
                (omega (arith, h, covers, length-append w.buf (stream ws))) p.1 in
            rw (wr_completed, some_left, whole)
              (
                bytes
                    ∙ ap (λ k. drop k (stream ws)) here
                    ∙ sym (drop-append_ge rc w.buf (stream ws) covers),
                append_assoc (callback w.cb) (callbacks (wr_completed (rc - sz) ws).1)
                      (callbacks (wr_completed (rc - sz) ws).0)
                    ∙ ap (◌++◌ (callback w.cb)) order,
                omega (arith, sums),
                left,
              )
        | inr part ↦
            let short : rc < length w.buf = ground (arith, part) in
            let all_of : sz ≡ rc = omega (arith, short) in
            let some_stay : 0 < length (drop sz w.buf) =
              omega (arith, length-drop sz w.buf, short, all_of) in
            rw (wr_completed, some_left, part)
              (
                ap (λ k. drop k w.buf ++ stream ws) all_of
                    ∙ sym (drop-append_le rc w.buf (stream ws) (omega (arith, short))),
                refl,
                omega arith,
                (some_stay, p.1),
              )
      ]
]
