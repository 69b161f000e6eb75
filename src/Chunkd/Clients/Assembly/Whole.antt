-- ===== src/Chunkd/Clients/Assembly/Whole.antt =====
-- A request of chunkd/server.c that is read whole.
use hail.Base.{
  ℕ, zero, suc, ◌+◌, ◌-◌, ◌≤◌, ◌<◌, ◌≡◌, inl, inr, refl, sym, ◌∙◌, ap, true, false, List, [], ◌∷◌,
  ◌++◌, take, drop, length, length-append, ◌==◌, arith, All,
}
use mathlib.Core.Path.{subst}
use hail.Chunkd.Clients.{key_sz, req_sz, ClientState, read_fixed, read_var, key_len_of, ChunkClient}
use hail.Chunkd.Clients.Operations.{ChunkServer, bytes, Environment}
use hail.Chunkd.Clients.Events.{fixed_read, var_read, evt_read_fixed, evt_read_var, state_func}
use hail.Chunkd.Clients.Assembly.{
  wanted, is_reading, read_stream, Follows, take_wanted, drop_read, Phase, IsComplete, read_in,
  empty_or_not, at_fixed, at_key, at_second, at_nothing,
}
use hail.Chunkd.Clients.Assembly.Steps.{
  After, reads, ends, fixed_step, key_step, second_done, second_step,
}

module _ (hdr key second rest : List ℕ) where
  module _ (b64hmac : List ℕ → List ℕ → List ℕ) (ans : Environment) (srv : ChunkServer) where
    -- What one read leaves, in a state.
    Reads : ClientState → ℕ → ChunkClient → List ℕ → Type 0
    Reads st n c s =
        After hdr key second rest
          (state_func b64hmac st (record ans { input = bytes (take n s) }) srv c).0
          (drop (length (take (wanted st c) (take n s))) s) s

    fixed_Reads :
        (b : ℕ) (w t : List ℕ) (n : ℕ) (c : ChunkClient)
        → wanted read_fixed c ≡ length (b ∷ w)
        → After hdr key second rest
            (fixed_read srv (c.held ++ b ∷ take n w) c).0
            (drop n w ++ t)
            (b ∷ w ++ t)
        → Reads read_fixed (suc n) c (b ∷ w ++ t)
    unfolding Reads state_func evt_read_fixed
    fixed_Reads b w t n c h k =
        rw
          (
            read_in fixed_read srv c (wanted read_fixed c) n b w t h,
            h,
            take_wanted n w t,
            drop_read n w t,
          )
          k

    var_Reads :
        (b : ℕ) (w t : List ℕ) (n : ℕ) (c : ChunkClient)
        → wanted read_var c ≡ length (b ∷ w)
        → After hdr key second rest
            (var_read srv (c.held ++ b ∷ take n w) c).0
            (drop n w ++ t)
            (b ∷ w ++ t)
        → Reads read_var (suc n) c (b ∷ w ++ t)
    unfolding Reads state_func evt_read_var
    var_Reads b w t n c h k =
        rw
          (
            read_in var_read srv c (wanted read_var c) n b w t h,
            h,
            take_wanted n w t,
            drop_read n w t,
          )
          k

    nothing_Reads :
        (n : ℕ) (c : ChunkClient)
        → c.held ≡ []
        → wanted read_var c ≡ 0
        → After hdr key second rest (var_read srv [] c).0 rest rest
        → Reads read_var n c rest
    unfolding Reads state_func evt_read_var
    nothing_Reads n c e h k =
        let no : (wanted read_var c == 0) ≡ true = rw h refl in rw (no, h, e) k

    entered :
        (n : ℕ) (c : ChunkClient) {st : ClientState} {s t : List ℕ}
        → c.state ≡ st
        → s ≡ t
        → Reads st n c t
        → Reads c.state n c s
    entered n c {st} {s} {t} h e k =
        subst (λ x. Reads c.state n c x) (sym e) (subst (λ x. Reads x n c t) (sym h) k)

    Phase-Reads :
        (n : ℕ) (c : ChunkClient) (s : List ℕ)
        → length hdr ≡ req_sz
        → key_len_of hdr ≡ length key
        → length key ≤ key_sz
        → length second ≤ key_sz
        → Follows hdr key second
        → Phase hdr key second rest c s
        → Reads c.state (suc n) c s
    Phase-Reads n c s len kl small fits f (at_fixed b w st h e) = entered (suc n) c st e (
        fixed_Reads b w (key ++ (second ++ rest)) n c
          (omega (arith, len, ap length h, length-append c.held (b ∷ w)))
          (fixed_step hdr key second rest b w n srv c len kl small f st h))
    Phase-Reads n c s len kl small fits f (at_key b w st sv vl cr h e) = entered (suc n) c st e (
        var_Reads b w (second ++ rest) n c
          (omega (arith, vl, ap length h, length-append c.held (b ∷ w)))
          (key_step hdr key second rest b w n srv c f st sv vl cr h))
    Phase-Reads n c s len kl small fits f (at_second b w st sv vl cr ks h e) =
        entered (suc n) c st e (
          var_Reads b w rest n c (omega (arith, vl, ap length h, length-append c.held (b ∷ w)))
            (second_step hdr key second rest b w n srv c st sv vl cr ks fits h))
    Phase-Reads n c s len kl small fits f (at_nothing st sv vl cr ks hd h e) =
        entered (suc n) c st e (
          nothing_Reads (suc n) c hd (rw vl (omega arith))
            (second_done hdr key second rest [] rest rest srv c sv (sym vl) cr ks fits h refl))

    longer : (a b : List ℕ) → length b ≤ length (a ++ b)
    longer a b = let k = length-append a b in omega arith

    Phase-rest :
        (c : ChunkClient) (s : List ℕ) → Phase hdr key second rest c s → length rest ≤ length s
    Phase-rest c s (at_fixed b w st h e) =
        let k = longer (b ∷ w) (key ++ (second ++ rest)) in
        let l = longer key (second ++ rest) in
        let m = longer second rest in omega (arith, k, l, m, ap length e)
    Phase-rest c s (at_key b w st sv vl cr h e) =
        let k = longer (b ∷ w) (second ++ rest) in
        let m = longer second rest in omega (arith, k, m, ap length e)
    Phase-rest c s (at_second b w st sv vl cr ks h e) =
        let k = longer (b ∷ w) rest in omega (arith, k, ap length e)
    Phase-rest c s (at_nothing st sv vl cr ks hd h e) = omega (arith, ap length e)

    Phase-reading :
        (c : ChunkClient) (s : List ℕ) → Phase hdr key second rest c s → is_reading c.state ≡ true
    Phase-reading c s (at_fixed b w st h e) = ap is_reading st
    Phase-reading c s (at_key b w st sv vl cr h e) = ap is_reading st
    Phase-reading c s (at_second b w st sv vl cr ks h e) = ap is_reading st
    Phase-reading c s (at_nothing st sv vl cr ks hd h e) = ap is_reading st

    stopped :
        (sizes s : List ℕ) (c : ChunkClient)
        → is_reading c.state ≡ false
        → read_stream b64hmac ans srv sizes s c ≡ (c, s)
    unfolding read_stream
    stopped [] s c h = refl
    stopped (n ∷ sizes) s c h = rw h refl

    completed :
        (sizes s : List ℕ) (c : ChunkClient)
        → IsComplete hdr key second rest c s
        → let r = read_stream b64hmac ans srv sizes s c in IsComplete hdr key second rest r.0 r.1
    completed sizes s c k = rw (stopped sizes s c (ap is_reading k.complete)) k

    from_Phase :
        (sizes s : List ℕ) (c : ChunkClient)
        → length hdr ≡ req_sz
        → key_len_of hdr ≡ length key
        → length key ≤ key_sz
        → length second ≤ key_sz
        → Follows hdr key second
        → All (λ n. 0 < n) sizes
        → length s - length rest < length sizes
        → Phase hdr key second rest c s
        → let r = read_stream b64hmac ans srv sizes s c in IsComplete hdr key second rest r.0 r.1
    unfolding read_stream Reads
    from_Phase [] s c len kl small fits f pos enough ph = absurd (omega arith)
    from_Phase (zero ∷ sizes) s c len kl small fits f pos enough ph = absurd (omega (arith, pos.0))
    from_Phase (suc n ∷ sizes) s c len kl small fits f pos enough ph =
        rw (Phase-reading c s ph) (elim (Phase-Reads n c s len kl small fits f ph) [
          | reads ph1 less ↦
              let l = Phase-rest _ _ ph1 in
              from_Phase sizes _ _ len kl small fits f pos.1 (omega arith) ph1
          | ends k ↦ completed sizes _ _ k
        ])

    -- A chunk server's request is read as it was sent, whatever the sizes of the pieces that it
    -- comes in: after no more reads than it has bytes, and one, the client is to execute it, with
    -- the fixed part, the key and the second record in their places, and nothing of what follows
    -- is read: for a key and a second record of no more than CHD_KEY_SZ bytes each, and a second
    -- record of the length that the fixed part asks for.
    pub read_stream-IsComplete :
        (sizes : List ℕ) (c : ChunkClient)
        → length hdr ≡ req_sz
        → key_len_of hdr ≡ length key
        → length key ≤ key_sz
        → length second ≤ key_sz
        → Follows hdr key second
        → All (λ n. 0 < n) sizes
        → length hdr + length key + length second < length sizes
        → c.state ≡ read_fixed
        → c.held ≡ []
        → let r = read_stream b64hmac ans srv sizes (hdr ++ (key ++ (second ++ rest))) c in
          IsComplete hdr key second rest r.0 r.1
    read_stream-IsComplete sizes c len kl small fits f pos enough st h = elim (empty_or_not hdr) [
      | inl void ↦ absurd (omega (arith, len, ap length void))
      | inr (b, w, e) ↦
          let l1 = length-append hdr (key ++ (second ++ rest)) in
          let l2 = length-append key (second ++ rest) in
          let l3 = length-append second rest in
          from_Phase sizes (hdr ++ (key ++ (second ++ rest))) c len kl small fits f pos
            (omega arith)
            (at_fixed b w st (e ∙ ap (λ v. v ++ b ∷ w) (sym h))
              (ap (λ v. v ++ (key ++ (second ++ rest))) e))
    ]
