-- ===== src/Tunnel/Server/Public/Kept.antt =====
-- The goroutine of an outside connection closes it when it takes it out of the map.
use ngp_mtls.Prelude.{
  none, lookup-delete, Bool, true, false, Error, ℕ, ◌^◌, ◌<◌, ◌≡◌, refl, inl, inr, Bool-cases,
  Option-cases, some, Bytes, length, ltb, lookup, nat_eq, arith,
}
use ngp_mtls.Proto.{data_frame}
use ngp_mtls.Proto.RoundTrip.{layout}
use ngp_mtls.Tunnel.Net.{close}
use ngp_mtls.Tunnel.Server.{Server, done, free, Returns, Returns-chain, send_close_frame}
use ngp_mtls.Tunnel.Server.Sound.{IsSound}
use ngp_mtls.Tunnel.Server.Keeping.{
  Keeps, Keeps-trans, Keeps-refl, Keeps-close, Keeps-write, Keeps-delete, deleted,
}
use ngp_mtls.Tunnel.Server.Frames.Kept.{send_close_frame-Keeps}
use ngp_mtls.Tunnel.Server.Public.{
  Poll, ctx_done, got, got_eof, got_closed, got_error, reader_round, reader_turn, reader_exit,
  after_read, announced,
}
use ngp_mtls.Tunnel.Server.Public.Sound.{
  round_unmapped, round_mapped, read_nothing, read_gone, read_bytes, exit_unmapped, exit_mapped,
}

pub announced_lost :
    (p : ℕ) (id : Bytes) (k n : ℕ) (e : Error) (t : Server)
    → announced p id k n (some e) t ≡ done (tt, record t { net = close n t.net })
unfolding announced
announced_lost p id k n e t = refl

module _ {j n : ℕ} (p : ℕ) (id : Bytes) (k : ℕ) (s : Server) (v : IsSound j n s)
    (h : s.clients_mu ≡ free) (below : p < s.fresh) (fits : k < 2 ^ 32) where
  after_read-Keeps : (poll : Poll) → Returns (after_read p id k poll s) (λ _ s'. Keeps n s s')
  unfolding after_read
  after_read-Keeps ctx_done = Keeps-refl s
  after_read-Keeps (got b) = elim (Bool-cases (ltb 0 (length b))) [
    | inr empty ↦ rw (read_nothing p id k s v h below fits b empty) (Keeps-refl s)
    | inl some_bytes ↦ elim (Option-cases (lookup k (s.infos p).conn_map)) [
      | inl gone ↦ rw (read_gone p id k s v h below fits b some_bytes gone) (Keeps-refl s)
      | inr (c, there) ↦
          let (again, e) = read_bytes p id k s v h below fits b c some_bytes there in
          rw e (Keeps-write s (s.infos p).conn (layout (data_frame k b)))
    ]
  ]
  after_read-Keeps got_eof =
      Returns-chain (send_close_frame id k s) _ (λ _ s'. Keeps n s s') _
        (send_close_frame-Keeps n id k s h) (λ _ s' m. m)
  after_read-Keeps got_closed = Keeps-refl s
  after_read-Keeps got_error =
      Returns-chain (send_close_frame id k s) _ (λ _ s'. Keeps n s s') _
        (send_close_frame-Keeps n id k s h) (λ _ s' m. m)

  -- A round of the goroutine.
  pub reader_round-Keeps :
      (poll : Poll) → Returns (reader_round p id k poll s) (λ _ s'. Keeps n s s')
  reader_round-Keeps poll = elim (Option-cases (lookup k (s.infos p).conn_map)) [
    | inl gone ↦ rw (round_unmapped p id k s v h below fits poll gone) (Keeps-refl s)
    | inr (c, there) ↦
        rw (round_mapped p id k s v h below fits poll c there) (after_read-Keeps poll)
  ]

  -- The same among other goroutines.
  pub reader_turn-Keeps :
      (seen : Bool) (poll : Poll) → Returns (reader_turn seen p id k poll s) (λ _ s'. Keeps n s s')
  unfolding reader_turn
  reader_turn-Keeps true poll = after_read-Keeps poll
  reader_turn-Keeps false poll = reader_round-Keeps poll

  -- Its end, when the connection in the map is its own.
  pub reader_exit-Keeps :
      (c : ℕ)
      → ((d : ℕ) → lookup k (s.infos p).conn_map ≡ some d → d ≡ c)
      → Returns (reader_exit p k c s) (λ _ s'. Keeps n s s')
  reader_exit-Keeps c own = elim (Option-cases (lookup k (s.infos p).conn_map)) [
    | inl gone ↦ rw (exit_unmapped p id k s v h below fits c gone) (Keeps-refl s)
    | inr (d, there) ↦
        let t = record s { net = close c s.net } in
        rw (exit_mapped p id k s v h below fits c d there) (
          Keeps-trans s t (deleted p k t) (Keeps-close s c)
            (Keeps-delete t p k (λ e m. ground (arith, own e m))))
  ]

  -- Its number is then in the map no longer.
  pub reader_exit_unmapped :
      (c : ℕ) → Returns (reader_exit p k c s) (λ _ s'. lookup k (s'.infos p).conn_map ≡ none)
  reader_exit_unmapped c = elim (Option-cases (lookup k (s.infos p).conn_map)) [
    | inl gone ↦ rw (exit_unmapped p id k s v h below fits c gone) gone
    | inr (d, there) ↦
        rw (exit_mapped p id k s v h below fits c d there)
          (ground (arith, lookup-delete k k (s.infos p).conn_map))
  ]
