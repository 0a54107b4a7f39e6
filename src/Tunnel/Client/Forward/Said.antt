-- ===== src/Tunnel/Client/Forward/Said.antt =====
-- What a goroutine that reads a local connection says to the server: the bytes of its reads, and
-- CLOSE_CONN.
use ngp_mtls.Prelude.{
  ℕ, ◌^◌, ◌<◌, ◌≡◌, refl, sym, inl, inr, Bool, Bool-cases, true, false, ◌&&◌, Option-cases, none,
  some, [], ◌∷◌, append-nil, Bytes, length, ltb, arith, ◌==◌, if◌then◌else◌,
}
use ngp_mtls.Proto.{data_frame}
use ngp_mtls.Proto.RoundTrip.{layout}
use ngp_mtls.Tunnel.Net.{write}
use ngp_mtls.Tunnel.Saying.{silence}
use ngp_mtls.Tunnel.Client.{Client}
use ngp_mtls.Tunnel.Client.Steps.{send_lem, after_send}
use ngp_mtls.Tunnel.Client.Moves.{
  Moves, Moves-quiet, Moves-refl, Moves-trans, Moves-as, Moves-send, Moves-lost,
}
use ngp_mtls.Tunnel.Client.Frames.Said.{send_close_frame-Moves}
use ngp_mtls.Tunnel.Client.Forward.{
  Poll, ctx_done, got, failed, forward, forward_round, forward_local,
}
use ngp_mtls.Tunnel.Client.System.{IsPoll, after_round}

-- The bytes of a read.
abbrev pub polled : Poll → Bytes
polled (got b) = b
polled ctx_done = []
polled (failed e) = []

-- What a round for the number `k` tells the server: the bytes that it read, if it goes on.
abbrev pub passed_on : ℕ → Poll → Bool → ℕ → Bytes
passed_on k poll again i = if k == i && again then polled poll else []

module _ (k : ℕ) (s : Client) (fits : k < 2 ^ 32) where
  passed_none : (poll : Poll) (i : ℕ) → [] ≡ passed_on k poll false i
  passed_none poll i = ground arith

  forward_alone : (b : Bytes) → s.control_conn ≡ none → forward k b s ≡ (false, s)
  unfolding forward
  forward_alone b h = ground arith

  forward_fine :
      (b : Bytes) (c : ℕ)
      → s.control_conn ≡ some c
      → (write c (layout (data_frame k b)) s.net).0 ≡ none
      → forward k b s ≡ (true, after_send c (data_frame k b) s)
  unfolding forward
  forward_fine b c h fine = ground (arith, send_lem c (data_frame k b) s)

  forward_lost :
      (b : Bytes) (c : ℕ) {e : _}
      → s.control_conn ≡ some c
      → (write c (layout (data_frame k b)) s.net).0 ≡ some e
      → forward k b s ≡ (false, after_send c (data_frame k b) s)
  unfolding forward
  forward_lost b c h bad = ground (arith, send_lem c (data_frame k b) s)

  forward-Moves :
      (b : Bytes)
      → IsPoll (got b)
      → Moves (passed_on k (got b) (forward k b s).0) s (forward k b s).1
  forward-Moves b (bytes, short) = elim (Option-cases s.control_conn) [
    | inl alone ↦ rw (forward_alone b alone) (Moves-as s s (passed_none (got b)) (Moves-refl s))
    | inr (c, h) ↦ elim (Option-cases (write c (layout (data_frame k b)) s.net).0) [
      | inl fine ↦ rw (forward_fine b c h fine) (
          Moves-send s c (data_frame k b) h
            (record { type_fits = omega arith; id_fits = fits; payload_bytes = bytes }, omega arith)
            fine (λ i. ground (arith, append-nil b)))
      | inr (e, bad) ↦ rw (forward_lost b c h bad) (
          Moves-as s _ (passed_none (got b)) (Moves-lost s c (data_frame k b) h (λ x. cc (x, bad))))
    ]
  ]

  forward_round-Moves :
      (poll : Poll)
      → IsPoll poll
      → Moves (passed_on k poll (forward_round k poll s).0) s (forward_round k poll s).1
  unfolding forward_round
  forward_round-Moves ctx_done q =
      Moves-as s _ (passed_none ctx_done) (send_close_frame-Moves k s fits)
  forward_round-Moves (failed e) q =
      Moves-as s _ (passed_none (failed e)) (send_close_frame-Moves k s fits)
  forward_round-Moves (got []) q = Moves-as s _ (λ i. ground arith) (Moves-refl s)
  forward_round-Moves (got (x ∷ b)) q =
      let some_bytes : ltb 0 (length (x ∷ b)) ≡ true = ground arith in
      rw (some_bytes, if◌then◌else◌) (forward-Moves (x ∷ b) q)

  -- A round of the goroutine of `l`, and what follows if it is the last.
  pub after_round-Moves :
      (l : ℕ) (poll : Poll)
      → IsPoll poll
      → Moves
          (passed_on k poll (forward_local k l (poll ∷ []) s).0)
          s
          (after_round k l (forward_local k l (poll ∷ []) s))
  unfolding forward_local
  after_round-Moves l poll q = elim (Bool-cases (forward_round k poll s).0) [
    | inl again ↦ let m = forward_round-Moves poll q in rw (again, if◌then◌else◌) (rw again at m)
    | inr last ↦
        let m = forward_round-Moves poll q in
        let t = (forward_round k poll s).1 in
        let quiet : Moves silence s t =
          Moves-as s t (λ i. sym (passed_none poll i)) (rw last at m) in
        rw (last, if◌then◌else◌)
          (Moves-as s _ (passed_none poll)
            (Moves-trans s t _ quiet (Moves-quiet t _ refl (λ c h. refl) (λ c h. refl))))
  ]

  -- A round that has read bytes and goes on.
  pub after_round_forwards :
      (l : ℕ) (b : Bytes) (c : ℕ)
      → ltb 0 (length b) ≡ true
      → s.control_conn ≡ some c
      → (write c (layout (data_frame k b)) s.net).0 ≡ none
      → after_round k l (forward_local k l (got b ∷ []) s) ≡ after_send c (data_frame k b) s
  unfolding forward_local forward_round
  after_round_forwards l b c some_bytes h fine =
      rw (some_bytes, if◌then◌else◌, forward_fine b c h fine) refl
