-- ===== src/Tunnel/Server/Public/Said.antt =====
-- What outside connections make the server say to the clients: the announcement of each, and its
-- bytes.
use ngp_mtls.Prelude.{
  ℕ, ◌+◌, ◌^◌, ◌≤◌, ◌<◌, ◌≡◌, ◌≢◌, refl, ◌∙◌, inl, inr, Bool, Bool-cases, true, false, ◌&&◌, Option,
  Option-cases, none, some, [], append-nil, Bytes, IsBytes, length, ltb, lookup, nat_eq, bytes_eq,
  arith, Error, ◌==◌, if◌then◌else◌,
}
use ngp_mtls.Proto
use ngp_mtls.Proto.{Frame, bare_frame, data_frame}
use ngp_mtls.Proto.RoundTrip.{layout, bare_frame-IsSendable, IsSendable}
use ngp_mtls.Tunnel.Net.{write, opened}
use ngp_mtls.Tunnel.Server.{Server, free, Returns, Returns_mono, Returns-chain, send_close_frame}
use ngp_mtls.Tunnel.Server.Sound.{IsSound, IsReady, control}
use ngp_mtls.Tunnel.Server.Moves.{
  Moves, nobody, Moves-net, Moves-quiet, Moves-refl, Moves-trans, Moves-send, Moves-as,
}
use ngp_mtls.Tunnel.Protocol.Carried.{none_carried}
use ngp_mtls.Tunnel.Saying.{Says-write, Says-write_failed, Says-write_other, Says-as}
use ngp_mtls.Tunnel.Server.Frames.Said.{send_close_frame-Moves}
use ngp_mtls.Tunnel.Server.Public.{
  Poll, ctx_done, got, got_eof, got_closed, got_error, handle_public_connection, announced,
  reader_round, reader_turn, reader_exit, after_read,
}
use ngp_mtls.Tunnel.Server.Public.Handle.{
  numbered, accepted_for-announced, handle_public_connection-accepted_for,
}
use ngp_mtls.Tunnel.Server.Public.Sound.{
  unknown_client, round_unmapped, round_mapped, read_nothing, read_gone, read_fine, read_lost,
  sent_on, exit_unmapped, exit_mapped, IsPoll,
}

announced-Moves :
    (p : ℕ) (id : Bytes) (k c : ℕ) (e : Option Error) (s : Server)
    → Returns (announced p id k c e s) (λ _ s'. Moves nobody s s')
unfolding announced
announced-Moves p id k c (some e) s =
    Moves-quiet s _ refl (λ q below. refl) (λ q below. refl) (λ q below. refl)
announced-Moves p id k c none s =
    Moves-quiet s _ refl (λ q below. ground arith) (λ q below. refl) (λ q below. refl)

numbered-Moves :
    (s : Server) (p : ℕ)
    → (s.infos p).next_conn_id + 1 < 2 ^ 32
    → Moves nobody s (numbered s p ((s.infos p).next_conn_id + 1))
numbered-Moves s p small =
    let k = (s.infos p).next_conn_id + 1 in
    let f = bare_frame Proto.new_conn k in
    let t = record s { net = (write (s.infos p).conn (layout f) s.net).1 } in
    Moves-trans s t (numbered s p k)
      (Moves-send s p f (bare_frame-IsSendable Proto.new_conn k (omega arith) small) refl)
      (Moves-quiet t _ refl (λ q below. ground arith) (λ q below. refl) (λ q below. refl))

-- The outside connection `n` arrives for a client.
pub handle_public_connection-Moves :
    {j n : ℕ} (id : Bytes) (s : Server)
    → IsReady j n s
    → j + 1 < 2 ^ 32
    → Returns
        (handle_public_connection n id (record s { net = opened n s.net }))
        (λ _ s'. Moves nobody s s')
handle_public_connection-Moves {j} {n} id s (v, h) small =
    elim (Option-cases (lookup id s.clients)) [
      | inl gone ↦ rw (unknown_client n id arrived h gone) (
          Moves-trans s arrived _ opens
            (Moves-quiet arrived _ refl (λ q below. refl) (λ q below. refl) (λ q below. refl)))
      | inr (p, found) ↦
          let below = (v.numbered.names id p found).0 in
          let le = v.conn_ids p below in
          let k = (s.infos p).next_conn_id + 1 in
          let t = numbered arrived p k in
          let e = (write (s.infos p).conn (layout (bare_frame Proto.new_conn k)) arrived.net).0 in
          rw
            (handle_public_connection-accepted_for n id arrived p h found
              ∙ accepted_for-announced n id arrived p (omega arith))
            (Returns_mono (announced p id k n e t) _ _ (announced-Moves p id k n e t) λ _ s' m.
              Moves-trans s t s'
                (Moves-trans s arrived t opens (numbered-Moves arrived p (omega arith))) m)
    ]
  where
    arrived : Server
    arrived = record s { net = opened n s.net }

    opens : Moves nobody s arrived
    opens =
        Moves-quiet s arrived refl (λ q below. refl)
          (λ q below. ground (arith, v.owners.used (control q) (s.infos q).conn (below, refl)))
          (λ q below. refl)

-- The bytes of a read.
abbrev pub polled : Poll → Bytes
polled (got b) = b
polled ctx_done = []
polled got_eof = []
polled got_closed = []
polled got_error = []

-- What a round for the number `k` of the client at `p` makes the server tell: the bytes that it
-- read, if it goes on.
abbrev pub passed_on : ℕ → ℕ → Poll → Bool → ℕ → ℕ → Bytes
passed_on p k poll again q i = if p == q && (k == i && again) then polled poll else []

passed_none : (p k : ℕ) (poll : Poll) (q i : ℕ) → [] ≡ passed_on p k poll false q i
passed_none p k poll q i = ground arith

module _ {j n : ℕ} (p : ℕ) (id : Bytes) (k : ℕ) (s : Server) (v : IsSound j n s)
    (h : s.clients_mu ≡ free) (below : p < s.fresh) (fits : k < 2 ^ 32) where
  stops : (poll : Poll) (s' : Server) → Moves nobody s s' → Moves (passed_on p k poll false) s s'
  stops poll s' m = Moves-as s s' (passed_none p k poll) m

  -- The bytes that were read are sent.
  data-Moves :
      (b : Bytes)
      → IsSendable (data_frame k b)
      → (write (s.infos p).conn (layout (data_frame k b)) s.net).0 ≡ none
      → Moves (passed_on p k (got b) true) s (sent_on p id k s v h below fits b)
  data-Moves b sendable fine = Moves-net s _ λ q below_q. elim (Bool-cases (p == q)) [
    | inl same ↦
        let at : p ≡ q = ground arith in
        rw (← at) (
          Says-write s.net (s.infos p).conn (data_frame k b) sendable fine
            (λ i. ground (arith, append-nil b)))
    | inr differ ↦
        Says-as (s.infos q).conn s.net _ (λ i. ground arith)
          (Says-write_other s.net (s.infos q).conn (s.infos p).conn (layout (data_frame k b)) (λ e.
            let at : p ≡ q = cc (
              v.owners.unique (control p) (control q) (s.infos q).conn (below, e)
                (below_q, refl)) in
            ground arith))
  ]

  -- A write that fails.
  lost-Moves :
      (b : Bytes)
      → (write (s.infos p).conn (layout (data_frame k b)) s.net).0 ≢ none
      → Moves nobody s (sent_on p id k s v h below fits b)
  lost-Moves b failed = Moves-net s _ λ q below_q. elim (Bool-cases (p == q)) [
    | inl same ↦
        let at : p ≡ q = ground arith in
        rw (← at) (Says-write_failed s.net (s.infos p).conn (data_frame k b) failed)
    | inr differ ↦
        Says-write_other s.net (s.infos q).conn (s.infos p).conn (layout (data_frame k b)) (λ e.
          let at : p ≡ q =
            cc (
              v.owners.unique (control p) (control q) (s.infos q).conn (below, e)
                (below_q, refl)) in
          ground arith)
  ]

  data_frame-IsSendable : (b : Bytes) → IsBytes b → length b ≤ 4096 → IsSendable (data_frame k b)
  data_frame-IsSendable b bytes short =
      (record { type_fits = omega arith; id_fits = fits; payload_bytes = bytes }, omega arith)

  bytes-Moves :
      (b : Bytes) (c : ℕ)
      → IsPoll (got b)
      → lookup k (s.infos p).conn_map ≡ some c
      → Returns (after_read p id k (got b) s) (λ again s'. Moves (passed_on p k (got b) again) s s')
  bytes-Moves b c (bytes, short) there = elim (Bool-cases (ltb 0 (length b))) [
    | inr empty ↦
        let none_read : b ≡ [] = none_carried b empty in
        rw (read_nothing p id k s v h below fits b empty)
          (Moves-as s s (λ q i. ground (arith, none_read)) (Moves-refl s))
    | inl some_bytes ↦
        elim (Option-cases (write (s.infos p).conn (layout (data_frame k b)) s.net).0) [
          | inl fine ↦
              rw (read_fine p id k s v h below fits b c some_bytes there fine)
                (data-Moves b (data_frame-IsSendable b bytes short) fine)
          | inr (e, bad) ↦
              rw (read_lost p id k s v h below fits b c e some_bytes there bad)
                (stops (got b) _ (lost-Moves b (λ x. cc (x, bad))))
        ]
  ]

  -- The entry has gone meanwhile.
  gone-Moves :
      (b : Bytes)
      → lookup k (s.infos p).conn_map ≡ none
      → Returns (after_read p id k (got b) s) (λ again s'. Moves (passed_on p k (got b) again) s s')
  gone-Moves b gone = elim (Bool-cases (ltb 0 (length b))) [
    | inr empty ↦
        let none_read : b ≡ [] = none_carried b empty in
        rw (read_nothing p id k s v h below fits b empty)
          (Moves-as s s (λ q i. ground (arith, none_read)) (Moves-refl s))
    | inl some_bytes ↦
        rw (read_gone p id k s v h below fits b some_bytes gone) (stops (got b) s (Moves-refl s))
  ]

  after_read-Moves :
      (poll : Poll)
      → IsPoll poll
      → Returns (after_read p id k poll s) (λ again s'. Moves (passed_on p k poll again) s s')
  unfolding after_read
  after_read-Moves ctx_done q = stops ctx_done s (Moves-refl s)
  after_read-Moves (got b) q = elim (Option-cases (lookup k (s.infos p).conn_map)) [
    | inl gone ↦ gone-Moves b gone
    | inr (c, there) ↦ bytes-Moves b c q there
  ]
  after_read-Moves got_eof q =
      Returns-chain (send_close_frame id k s) _ (λ _ s'. Moves nobody s s') _
        (send_close_frame-Moves id k s h fits) (λ _ s' m. stops got_eof s' m)
  after_read-Moves got_closed q = stops got_closed s (Moves-refl s)
  after_read-Moves got_error q =
      Returns-chain (send_close_frame id k s) _ (λ _ s'. Moves nobody s s') _
        (send_close_frame-Moves id k s h fits) (λ _ s' m. stops got_error s' m)

  -- A round of the goroutine.
  pub reader_round-Moves :
      (poll : Poll)
      → IsPoll poll
      → Returns (reader_round p id k poll s) (λ again s'. Moves (passed_on p k poll again) s s')
  reader_round-Moves poll q = elim (Option-cases (lookup k (s.infos p).conn_map)) [
    | inl gone ↦ rw (round_unmapped p id k s v h below fits poll gone) (stops poll s (Moves-refl s))
    | inr (c, there) ↦
        rw (round_mapped p id k s v h below fits poll c there) (after_read-Moves poll q)
  ]

  -- The same among other goroutines.
  pub reader_turn-Moves :
      (seen : Bool) (poll : Poll)
      → IsPoll poll
      → Returns (reader_turn seen p id k poll s) (λ again s'. Moves (passed_on p k poll again) s s')
  unfolding reader_turn
  reader_turn-Moves true poll q = after_read-Moves poll q
  reader_turn-Moves false poll q = reader_round-Moves poll q

  -- Its end.
  pub reader_exit-Moves : (c : ℕ) → Returns (reader_exit p k c s) (λ _ s'. Moves nobody s s')
  reader_exit-Moves c = elim (Option-cases (lookup k (s.infos p).conn_map)) [
    | inl gone ↦ rw (exit_unmapped p id k s v h below fits c gone) (Moves-refl s)
    | inr (d, there) ↦
        rw (exit_mapped p id k s v h below fits c d there)
          (Moves-quiet s _ refl (λ q below_q. ground arith) (λ q below_q. refl) (λ q below_q. refl))
  ]
