-- ===== src/Tunnel/Client/Run/Ends.antt =====
-- `Run` of the client: how it ends, and what is left of a connection to the server.
use ngp_mtls.Prelude.{
  ℕ, ◌≢◌, ap, ok, ◌==◌, positive, Option-cases, if◌then◌else◌, ◌≡◌, refl, ◌⊎◌, inl, inr, Bool-cases,
  Result-cases, false, Option, none, some, List, [], ◌∷◌, arith, Error, cancelled, All,
}
use ngp_mtls.Tunnel.Net.{opened}
use ngp_mtls.Proto.RoundTrip.{layout}
use ngp_mtls.Tunnel.Client.Steps.{send_lem}
use ngp_mtls.Tunnel.Client.Frames.Shut.{IsShut, IsShut-write, handle_connection-IsShut}
use ngp_mtls.Tunnel.Client.{init_frame, Client, close_control_conn, send_init_config}
use ngp_mtls.Tunnel.Client.Frames.{handle_connection}
use ngp_mtls.Tunnel.Client.Frames.Serve.{handle_connection_ends}
use ngp_mtls.Tunnel.Client.Run.{Round, connect_to_server, wait, serve, configure, run_round, run}

-- What a round leaves: no control connection, and the end of `Run` only if the context was cancelled.
abbrev Left : Round → Option Error × Client → Type 0
Left r o =
    (o.1.control_conn ≡ none)
    × ((o.0 ≡ none) ⊎ (o.0 ≡ some cancelled))
    × (r.stop ≡ false → r.stop_waiting ≡ false → o.0 ≡ none)

close_control_conn_lem : (s : Client) → (close_control_conn s).1.control_conn ≡ none
unfolding close_control_conn
close_control_conn_lem s = ground arith

module _ (r : Round) where
  serve_lem : (s : Client) → Left r (serve r s)
  unfolding serve wait
  serve_lem s =
      let (e, ended) = handle_connection_ends r.served r.stop_serving r.incoming s in
      ground (
        arith,
        ended,
        close_control_conn_lem (handle_connection r.served r.stop_serving r.incoming s).1,
      )

  configure_lem : (s : Client) → Left r (configure r s)
  unfolding configure
  configure_lem s = ground (
    arith,
    serve_lem s,
    serve_lem (send_init_config s).1,
    close_control_conn_lem (send_init_config s).1,
  )

  run_round_lem : (s : Client) → s.control_conn ≡ none → Left r (run_round r s)
  unfolding run_round connect_to_server wait
  run_round_lem s h = elim (Bool-cases r.stop) [
    | inl stopped ↦ ground arith
    | inr going ↦ elim (Result-cases r.connects) [
      | inl (e, failed) ↦ ground arith
      | inr (c, connected) ↦
          ground (arith, configure_lem (record s { control_conn = some c; net = opened c s.net }))
    ]
  ]

-- What is open, between two rounds.
module _ (c : ℕ) where
  closed-IsShut :
      (h : Option ℕ) (s : Client) → IsShut c h s → IsShut c none (close_control_conn s).1
  unfolding close_control_conn
  closed-IsShut h s v = elim (Option-cases s.control_conn) [
    | inl alone ↦ rw alone (record {
      control = refl;
      shut = λ ne. v.shut (λ e. cc (e, alone, v.control));
      undialled = v.undialled;
    })
    | inr (d, there) ↦ rw there (record {
      control = refl;
      shut = λ ne. elim (Bool-cases (d == c)) [
        | inl same ↦ ground arith
        | inr differ ↦ ground (arith, v.shut (λ e. ground (arith, e, v.control, there)))
      ];
      undialled = v.undialled;
    })
  ]

  init-IsShut : (h : Option ℕ) (s : Client) → IsShut c h s → IsShut c h (send_init_config s).1
  unfolding send_init_config
  init-IsShut h s v = elim (Bool-cases (positive s.remote_port)) [
    | inr unwanted ↦ rw (unwanted, if◌then◌else◌) v
    | inl wanted ↦ elim (Option-cases s.control_conn) [
      | inl alone ↦ rw (wanted, if◌then◌else◌, alone) v
      | inr (d, there) ↦
          rw (wanted, if◌then◌else◌, there, send_lem d (init_frame s) s)
            (IsShut-write c h s d (layout (init_frame s)) v)
    ]
  ]

  module _ (r : Round) where
    serve-IsShut : (h : Option ℕ) (s : Client) → IsShut c h s → IsShut c none (serve r s).1
    unfolding serve wait
    serve-IsShut h s v =
        let (e, ended) = handle_connection_ends r.served r.stop_serving r.incoming s in
        rw ended
          (closed-IsShut h _ (handle_connection-IsShut c h r.served r.stop_serving r.incoming s v))

    configure-IsShut : (h : Option ℕ) (s : Client) → IsShut c h s → IsShut c none (configure r s).1
    unfolding configure send_init_config
    configure-IsShut h s v = elim (Bool-cases (positive s.remote_port)) [
      | inr unwanted ↦ rw (unwanted, if◌then◌else◌) (serve-IsShut h s v)
      | inl wanted ↦ elim (Option-cases (send_init_config s).0) [
        | inl good ↦
            rw (wanted, if◌then◌else◌, good)
              (serve-IsShut h (send_init_config s).1 (init-IsShut h s v))
        | inr (e, bad) ↦
            rw (wanted, if◌then◌else◌, bad)
              (closed-IsShut h (send_init_config s).1 (init-IsShut h s v))
      ]
    ]

    connected-IsShut :
        (d : ℕ) (s : Client)
        → IsShut c none s
        → IsShut c (some d) (record s { control_conn = some d; net = opened d s.net })
    connected-IsShut d s v = record {
      control = refl;
      shut = λ ne.
          let other : d ≢ c = λ e. ne (ap some e) in ground (arith, other, v.shut (λ e. cc e));
      undialled = v.undialled;
    }

    run_round-IsShut : (s : Client) → IsShut c none s → IsShut c none (run_round r s).1
    unfolding run_round connect_to_server wait
    run_round-IsShut s v = elim (Bool-cases r.stop) [
      | inl stopped ↦ rw (stopped, if◌then◌else◌) v
      | inr going ↦ elim (Result-cases r.connects) [
        | inl (e, failed) ↦ rw (going, if◌then◌else◌, failed) v
        | inr (d, connected) ↦
            rw (going, if◌then◌else◌, connected)
              (configure-IsShut (some d) _ (connected-IsShut d s v))
      ]
    ]

-- `Run` returns nothing but the error of the cancelled context.
pub run_cancelled :
    (rs : List Round) (s : Client)
    → s.control_conn ≡ none
    → ((run rs s).1.control_conn ≡ none) × (((run rs s).0 ≡ none) ⊎ ((run rs s).0 ≡ some cancelled))
unfolding run
run_cancelled [] s h = (h, inl refl)
run_cancelled (r ∷ rs) s h = ground (arith, run_round_lem r s h, run_cancelled rs (run_round r s).1)

run_on :
    (r : Round) (rs : List Round) (s : Client)
    → (run_round r s).0 ≡ none
    → run (r ∷ rs) s ≡ run rs (run_round r s).1
unfolding run
run_on r rs s h = ground arith

run_over :
    (r : Round) (rs : List Round) (s : Client)
    → (run_round r s).0 ≡ some cancelled
    → run (r ∷ rs) s ≡ (some cancelled, (run_round r s).1)
unfolding run
run_over r rs s h = ground arith

run-IsShut : (c : ℕ) (rs : List Round) (s : Client) → IsShut c none s → IsShut c none (run rs s).1
unfolding run
run-IsShut c [] s v = v
run-IsShut c (r ∷ rs) s v =
    let next = run_round-IsShut c r s v in
    let (_, ended, _) = run_round_lem r s v.control in
    elim ended [
      | inl on ↦ rw (run_on r rs s on) (run-IsShut c rs (run_round r s).1 next)
      | inr stop ↦ rw (run_over r rs s stop) next
    ]

-- If `Run` starts without a control connection and nobody else does anything: it returns nothing but
-- the error of the cancelled context; and in every state between two rounds, and when it
-- returns, there is no control connection, and each connection is closed that was closed at the
-- start and that no dial to the local service returns, a control connection among them, whichever
-- rounds it had and however they ended.
pub run_ends :
    (rs : List Round) (s : Client) (c : ℕ)
    → s.control_conn ≡ none
    → s.net.is_open c ≡ false
    → All (λ d. d ≢ ok c) s.net.dials
    → ((run rs s).1.control_conn ≡ none)
      × (((run rs s).0 ≡ none) ⊎ ((run rs s).0 ≡ some cancelled))
      × ((run rs s).1.net.is_open c ≡ false)
run_ends rs s c h closed undialled =
    let u =
      run-IsShut c rs s (record { control = h; shut = λ ne. closed; undialled = undialled }) in
    (u.control, (run_cancelled rs s h).1, u.shut (λ e. cc e))

-- As long as the context is not cancelled, `Run` goes on, whatever happens to its connections.
pub run_reconnects :
    (rs : List Round) (s : Client)
    → s.control_conn ≡ none
    → All (λ r. (r.stop ≡ false) × (r.stop_waiting ≡ false)) rs
    → (run rs s).0 ≡ none
unfolding run
run_reconnects [] s h v = refl
run_reconnects (r ∷ rs) s h v =
    ground (arith, run_round_lem r s h, v.0, run_reconnects rs (run_round r s).1)
