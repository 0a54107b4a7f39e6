-- ===== src/Tunnel/Server/Public/Sound.antt =====
-- Outside connections and their goroutines keep a sound state, and return.
use ngp_mtls.Prelude.{
  ℕ, suc, ◌+◌, ◌^◌, ◌≤◌, ◌<◌, ◌≡◌, refl, ◌∙◌, inl, inr, Bool, Bool-cases, true, false, Option,
  Option-cases, none, some, Bytes, IsBytes, length, ltb, lookup, delete, nat_eq, bytes_eq, update,
  arith, Error,
}
use ngp_mtls.Proto
use ngp_mtls.Proto.{Frame, bare_frame, data_frame}
use ngp_mtls.Proto.RoundTrip.{layout}
use ngp_mtls.Tunnel.Net.{write, close, opened}
use ngp_mtls.Tunnel.Server.{
  Server, free, done, Returns, Returns-chain, send_close_frame, public_reader,
}
use ngp_mtls.Tunnel.Server.Steps.{send_lem, find_client_lem}
use ngp_mtls.Tunnel.Framed.{IsFramed}
use ngp_mtls.Tunnel.Protocol.{Announced, Speaks-data}
use ngp_mtls.Tunnel.Server.Sound.{IsSound, IsReady}
use ngp_mtls.Tunnel.Server.Sound.Actions.{IsSound-close, IsSound-send, IsSound-go, IsSound-later}
use ngp_mtls.Tunnel.Server.Sound.Updates.{IsSound-delete}
use ngp_mtls.Tunnel.Server.Sound.Arrivals.{IsSound-opened}
use ngp_mtls.Tunnel.Server.Sound.Numbers.{IsSound-numbered, IsFramed-numbered, IsSound-store}
use ngp_mtls.Tunnel.Server.Frames.Sound.{registered_below, send_close_frame-IsReady}
use ngp_mtls.Tunnel.Server.Public.{
  Poll, ctx_done, got, got_eof, got_closed, got_error, handle_public_connection, announced,
  reader_round, reader_turn, reader_exit, after_read, forward,
}
use ngp_mtls.Tunnel.Server.Public.Handle.{
  numbered, accepted_for-announced, handle_public_connection-accepted_for,
}

-- After the write of the NEW_CONN frame.
announced-IsReady :
    {j n : ℕ} (p : ℕ) (id : Bytes) (k : ℕ) (e : Option Error) (s : Server)
    → IsReady j n s
    → p < s.fresh
    → k ≤ (s.infos p).next_conn_id
    → (e ≡ none → IsFramed (Announced k (s.infos p)) s.net (s.infos p).conn)
    → Returns (announced p id k n e s) (λ _ s'. IsReady j (suc n) s')
unfolding announced
announced-IsReady {j} {n} p id k (some e) s (v, h) below le told =
    (IsSound-later j j n (suc n) _ (omega arith) (omega arith) (IsSound-close s v n), h)
announced-IsReady {j} {n} p id k none s (v, h) below le told =
    let stored = IsSound-store s v p k below le (told refl) in
    (IsSound-go _ stored (public_reader p id k n) (below, omega (arith, v.conn_ids p below)), h)

pub unknown_client :
    (c : ℕ) (id : Bytes) (s : Server)
    → s.clients_mu ≡ free
    → lookup id s.clients ≡ none
    → handle_public_connection c id s ≡ done (tt, record s { net = close c s.net })
unfolding handle_public_connection
unknown_client c id s h gone = ground (arith, find_client_lem id s h)

-- The outside connection `n` arrives for a client.
pub handle_public_connection-IsReady :
    {j n : ℕ} (id : Bytes) (s : Server)
    → IsReady j n s
    → j + 1 < 2 ^ 32
    → Returns
        (handle_public_connection n id (record s { net = opened n s.net }))
        (λ _ s'. IsReady (suc j) (suc n) s')
handle_public_connection-IsReady {j} {n} id s (v, h) small =
    elim (Option-cases (lookup id s.clients)) [
      | inl gone ↦ rw (unknown_client n id arrived h gone) (
        IsSound-later j (suc j) n (suc n) _ (omega arith) (omega arith)
            (IsSound-close arrived there n),
        h,
      )
      | inr (p, found) ↦
          let below = registered_below id arrived p there found in
          let le = v.conn_ids p below in
          let k = (s.infos p).next_conn_id + 1 in
          rw
            (handle_public_connection-accepted_for n id arrived p h found
              ∙ accepted_for-announced n id arrived p (omega arith))
            (announced-IsReady p id k
              (write (s.infos p).conn (layout (bare_frame Proto.new_conn k)) arrived.net).0
              (numbered arrived p k) (IsSound-numbered arrived there p below small, h) below
              (ground arith)
              (λ sent. ground (arith, IsFramed-numbered arrived there p below small sent)))
    ]
  where
    arrived : Server
    arrived = record s { net = opened n s.net }

    there : IsSound j n arrived
    there = IsSound-opened s v

pub reader_turn-unseen :
    (p : ℕ) (id : Bytes) (k : ℕ) (poll : Poll) (s : Server)
    → reader_turn false p id k poll s ≡ reader_round p id k poll s
unfolding reader_turn
reader_turn-unseen p id k poll s = refl

-- What a read of the goroutine's buffer returns.
abbrev pub IsPoll : Poll → Type 0
IsPoll (got b) = IsBytes b × (length b ≤ 4096)
IsPoll ctx_done = Unit
IsPoll got_eof = Unit
IsPoll got_closed = Unit
IsPoll got_error = Unit

module _ {j n : ℕ} (p : ℕ) (id : Bytes) (k : ℕ) (s : Server) (v : IsSound j n s)
    (h : s.clients_mu ≡ free) (below : p < s.fresh) (fits : k < 2 ^ 32) where
  pub round_unmapped :
      (poll : Poll)
      → lookup k (s.infos p).conn_map ≡ none
      → reader_round p id k poll s ≡ done (false, s)
  unfolding reader_round
  round_unmapped ctx_done gone = refl
  round_unmapped (got b) gone = ground arith
  round_unmapped got_eof gone = ground arith
  round_unmapped got_closed gone = ground arith
  round_unmapped got_error gone = ground arith

  pub round_mapped :
      (poll : Poll) (c : ℕ)
      → lookup k (s.infos p).conn_map ≡ some c
      → reader_round p id k poll s ≡ after_read p id k poll s
  unfolding reader_round after_read
  round_mapped ctx_done c there = refl
  round_mapped (got b) c there = ground arith
  round_mapped got_eof c there = ground arith
  round_mapped got_closed c there = ground arith
  round_mapped got_error c there = ground arith

  abbrev pub sent_on : Bytes → Server
  sent_on b = record s { net = (write (s.infos p).conn (layout (data_frame k b)) s.net).1 }

  pub read_fine :
      (b : Bytes) (c : ℕ)
      → ltb 0 (length b) ≡ true
      → lookup k (s.infos p).conn_map ≡ some c
      → (write (s.infos p).conn (layout (data_frame k b)) s.net).0 ≡ none
      → after_read p id k (got b) s ≡ done (true, sent_on b)
  unfolding after_read forward
  read_fine b c some_bytes there fine = ground (arith, send_lem (s.infos p).conn (data_frame k b) s)

  pub read_lost :
      (b : Bytes) (c : ℕ) (e : Error)
      → ltb 0 (length b) ≡ true
      → lookup k (s.infos p).conn_map ≡ some c
      → (write (s.infos p).conn (layout (data_frame k b)) s.net).0 ≡ some e
      → after_read p id k (got b) s ≡ done (false, sent_on b)
  unfolding after_read forward
  read_lost b c e some_bytes there bad =
      ground (arith, send_lem (s.infos p).conn (data_frame k b) s)

  pub read_bytes :
      (b : Bytes) (c : ℕ)
      → ltb 0 (length b) ≡ true
      → lookup k (s.infos p).conn_map ≡ some c
      → (again : Bool) × (after_read p id k (got b) s ≡ done (again, sent_on b))
  read_bytes b c some_bytes there =
      elim (Option-cases (write (s.infos p).conn (layout (data_frame k b)) s.net).0) [
        | inl fine ↦ (true, read_fine b c some_bytes there fine)
        | inr (e, bad) ↦ (false, read_lost b c e some_bytes there bad)
      ]

  pub read_nothing :
      (b : Bytes) → ltb 0 (length b) ≡ false → after_read p id k (got b) s ≡ done (true, s)
  unfolding after_read
  read_nothing b empty = ground arith

  pub read_gone :
      (b : Bytes)
      → ltb 0 (length b) ≡ true
      → lookup k (s.infos p).conn_map ≡ none
      → after_read p id k (got b) s ≡ done (false, s)
  unfolding after_read forward
  read_gone b some_bytes gone = ground arith

  after_read-IsReady :
      (poll : Poll) → IsPoll poll → Returns (after_read p id k poll s) (λ _ s'. IsReady j n s')
  unfolding after_read
  after_read-IsReady ctx_done q = (v, h)
  after_read-IsReady (got b) (bytes, short) = elim (Bool-cases (ltb 0 (length b))) [
    | inr empty ↦ rw (read_nothing b empty) (v, h)
    | inl some_bytes ↦ elim (Option-cases (lookup k (s.infos p).conn_map)) [
      | inl gone ↦ rw (read_gone b some_bytes gone) (v, h)
      | inr (c, there) ↦
          let (again, e) = read_bytes b c some_bytes there in
          rw e (
            IsSound-send s v p (data_frame k b) below
                (
                  record { type_fits = omega arith; id_fits = fits; payload_bytes = bytes },
                  omega arith,
                )
                (Speaks-data k c b (s.infos p) there),
            h,
          )
    ]
  ]
  after_read-IsReady got_eof q =
      Returns-chain (send_close_frame id k s) _ (λ _ s'. IsReady j n s') _
        (send_close_frame-IsReady id k s (v, h) fits) (λ _ s' w. w)
  after_read-IsReady got_closed q = (v, h)
  after_read-IsReady got_error q =
      Returns-chain (send_close_frame id k s) _ (λ _ s'. IsReady j n s') _
        (send_close_frame-IsReady id k s (v, h) fits) (λ _ s' w. w)

  -- A round of the goroutine.
  pub reader_round-IsReady :
      (poll : Poll) → IsPoll poll → Returns (reader_round p id k poll s) (λ _ s'. IsReady j n s')
  reader_round-IsReady poll q = elim (Option-cases (lookup k (s.infos p).conn_map)) [
    | inl gone ↦ rw (round_unmapped poll gone) (v, h)
    | inr (c, there) ↦ rw (round_mapped poll c there) (after_read-IsReady poll q)
  ]

  -- The same among other goroutines.
  pub reader_turn-IsReady :
      (seen : Bool) (poll : Poll)
      → IsPoll poll
      → Returns (reader_turn seen p id k poll s) (λ _ s'. IsReady j n s')
  unfolding reader_turn
  reader_turn-IsReady true poll q = after_read-IsReady poll q
  reader_turn-IsReady false poll q = reader_round-IsReady poll q

  pub exit_unmapped :
      (c : ℕ) → lookup k (s.infos p).conn_map ≡ none → reader_exit p k c s ≡ done (tt, s)
  unfolding reader_exit
  exit_unmapped c gone = ground arith

  pub exit_mapped :
      (c d : ℕ)
      → lookup k (s.infos p).conn_map ≡ some d
      → reader_exit p k c s
        ≡ done (
          tt,
          record s {
            net = close c s.net;
            infos =
                update s.infos p (record (s.infos p) { conn_map = delete k (s.infos p).conn_map });
          },
        )
  unfolding reader_exit
  exit_mapped c d there = ground arith

  -- Its end.
  pub reader_exit-IsReady : (c : ℕ) → Returns (reader_exit p k c s) (λ _ s'. IsReady j n s')
  reader_exit-IsReady c = elim (Option-cases (lookup k (s.infos p).conn_map)) [
    | inl gone ↦ rw (exit_unmapped c gone) (v, h)
    | inr (d, there) ↦
        rw (exit_mapped c d there) (IsSound-delete _ (IsSound-close s v c) p k below, h)
  ]
