-- ===== src/Cld/Server/Parts.antt =====
-- The steps of cli_rd_pkt of cld/server.c apart: what a packet has passed that reaches tcp_rx.
use hail.Base.{
  ℕ, ◌≡◌, refl, Bool, true, ◌&&◌, ◌⊎◌, inl, inr, none, some, List, Bool-cases, Option-cases,
}
use hail.Cld.{Op}
use hail.Cld.Session.{Body, Packet}
use hail.Cld.Server.{
  Conn, Server, PktInfo, Action, dropped, redirected, refused, get_pkt_info, validate_pkt_session,
  pkt_chk_sig, tcp_rx, reads_on, cli_rd_pkt,
}

-- Neither a handler nor an answer to a fragment.
abbrev pub IsQuiet : Action → Type 0
IsQuiet dropped = Unit
IsQuiet redirected = Unit
IsQuiet (refused code) = Unit
IsQuiet _ = ⊥

module _ (hmac : List ℕ → Body → List ℕ) (decodes : Op → List ℕ → Bool) where
  unfoldable pub Accepted : Packet → Conn → PktInfo → Server → Type 0
  Accepted p conn info sv =
      (get_pkt_info sv p.body ≡ some info)
      × (validate_pkt_session info p.body conn ≡ none)
      × (pkt_chk_sig hmac decodes p ≡ none)
      × ((sv.is_master && sv.up) ≡ true)

  pub cli_rd_pkt-cases :
      (now : ℕ) (conn : Conn) (p : Packet) (sv : Server)
      → ((cli_rd_pkt hmac decodes now conn (some p) sv).0.sessions ≡ sv.sessions)
          × IsQuiet (cli_rd_pkt hmac decodes now conn (some p) sv).1
        ⊎ ((info : PktInfo) × Accepted p conn info sv
            × (cli_rd_pkt hmac decodes now conn (some p) sv ≡ (
              (tcp_rx decodes now conn info p.body sv).0,
              (tcp_rx decodes now conn info p.body sv).1,
              reads_on (tcp_rx decodes now conn info p.body sv).1,
            )))
  unfolding cli_rd_pkt Accepted
  cli_rd_pkt-cases now conn p sv = elim (Option-cases (get_pkt_info sv p.body)) [
    | inl lost ↦ rw (cli_rd_pkt, lost) (inl (refl, tt))
    | inr (info, found) ↦ elim (Option-cases (validate_pkt_session info p.body conn)) [
      | inr (code, bad) ↦ rw (cli_rd_pkt, found, bad) (inl (refl, tt))
      | inl valid ↦ elim (Option-cases (pkt_chk_sig hmac decodes p)) [
        | inr (code, forged) ↦ rw (cli_rd_pkt, found, valid, forged) (inl (refl, tt))
        | inl signed ↦ elim (Bool-cases (sv.is_master && sv.up)) [
          | inr away ↦ rw (cli_rd_pkt, found, valid, signed, away) (inl (refl, tt))
          | inl here ↦
              rw (cli_rd_pkt, found, valid, signed, here)
                (inr (info, (refl, valid, refl, refl), refl))
        ]
      ]
    ]
  ]
