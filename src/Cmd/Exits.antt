-- ===== src/Cmd/Exits.antt =====
-- The exit codes of the programs.
use ngp_mtls.Prelude.{
  ℕ, ◌≡◌, refl, ◌⊎◌, inl, inr, Option, none, some, List, Bytes, Result, Error, true, ok, err, arith,
}
use ngp_mtls.Config.{ServerConfig, ClientConfig, Loaded, loaded, refused, LoadError}
use ngp_mtls.Tunnel.Net.{Net}
use ngp_mtls.Tunnel.Server.{Server, Outcome, done, blocked, fatal, Returns}
use ngp_mtls.Tunnel.Server.Run.{start}
use ngp_mtls.Tunnel.Server.Run.Starts.{Ended, start_ends}
use ngp_mtls.Tunnel.Client.Run.{Round}
use ngp_mtls.Tunnel.Client.Run.Ends.{run_cancelled}
use ngp_mtls.Cmd.{
  Flags, client_config, client_main, make_client, client_program, exit_code, server_config,
  server_main, make_server, server_program,
}
use ngp_mtls.Cmd.Starts.{client_main_lem}

Loaded-cases :
    {A : Type 0} (r : Loaded A) → ((e : LoadError) × (r ≡ refused e)) ⊎ ((a : A) × (r ≡ loaded a))
Loaded-cases (refused e) = inl (e, refl)
Loaded-cases (loaded a) = inr (a, refl)

-- The client's program ends at once with the exit code 1 when its configuration is refused.
-- Otherwise it never does: whatever its rounds meet, it still runs, or has ended with 0.
pub client_program_lem :
    (read : Bytes → Result Bytes) (unmarshal : Bytes → Result ClientConfig)
    (flags : Flags ClientConfig) (rs : List Round) (w : Net)
    → ((e : LoadError) × (client_config read unmarshal flags ≡ refused e)
        × (client_program read unmarshal flags rs w ≡ some 1))
      ⊎ ((c : ClientConfig) × (client_config read unmarshal flags ≡ loaded c)
          × ((client_program read unmarshal flags rs w ≡ none)
              ⊎ (client_program read unmarshal flags rs w ≡ some 0)))
unfolding client_program client_main exit_code
client_program_lem read unmarshal flags rs w =
    elim (Loaded-cases (client_config read unmarshal flags)) [
      | inl (e, bad) ↦ inl (e, bad, ground arith)
      | inr (c, good) ↦
          let fresh = started_fresh c good in
          inr (c, good, ground (arith, run_cancelled rs (make_client c w) fresh))
    ]
  where
    started_fresh :
        (c : ClientConfig)
        → client_config read unmarshal flags ≡ loaded c
        → (make_client c w).control_conn ≡ none
    started_fresh c good =
        (client_main_lem read unmarshal flags w (make_client c w) (ground arith)).3

abbrev ended : Outcome (Result (ℕ × Option ℕ) × Server) → Option ℕ
ended (done (err e, t)) = some (exit_code e)
ended (done (ok l, t)) = none
ended blocked = none
ended fatal = some 2

ended_lem :
    (c : ℕ) (s : Server) (o : Outcome (Result (ℕ × Option ℕ) × Server))
    → Returns o (λ out s'. Ended s c out s')
    → ((e : Error) × (ended o ≡ some (exit_code e)))
      ⊎ ((l : ℕ) × (m : Option ℕ) × (t : Server) × (o ≡ done (ok (l, m), t))
          × (ended o ≡ none)
          × (t.net.is_open l ≡ true))
ended_lem c s (done (err e, t)) r = inl (e, refl)
ended_lem c s (done (ok (l, m), t)) (inl (l', m', same, started, live)) =
    inr (l, m, t, refl, refl, ground (arith, same, live))
ended_lem c s (done (ok (l, m), t)) (inr (e, same, rest, _, _)) = cc
ended_lem c s blocked r = absurd r
ended_lem c s fatal r = absurd r

-- The server's program ends at once with the exit code 1 when its configuration is refused.
-- Otherwise it ends with the code of an error of `Run`, or goes on with an open control listener;
-- it neither hangs nor crashes before.
server_program_lem :
    (read : Bytes → Result Bytes) (unmarshal : Bytes → Result ServerConfig)
    (flags : Flags ServerConfig) (pqc : Option Error) (w : Net)
    → ((e : LoadError) × (server_config read unmarshal flags ≡ refused e)
        × (server_program read unmarshal flags pqc w ≡ some 1))
      ⊎ ((c : ServerConfig) × (server_config read unmarshal flags ≡ loaded c)
          × (((e : Error) × (server_program read unmarshal flags pqc w ≡ some (exit_code e)))
              ⊎ ((l : ℕ) × (m : Option ℕ) × (t : Server) × (start pqc (make_server c w)
                    ≡ done (ok (l, m), t))
                  × (server_program read unmarshal flags pqc w ≡ none)
                  × (t.net.is_open l ≡ true))))
unfolding server_program server_main
server_program_lem read unmarshal flags pqc w =
    elim (Loaded-cases (server_config read unmarshal flags)) [
      | inl (e, bad) ↦ inl (e, bad, ground arith)
      | inr (c, good) ↦ inr (
        c,
        good,
        rw (server_program, server_main, good)
            (ended_lem 0 (make_server c w) (start pqc (make_server c w))
              (start_ends (make_server c w) pqc 0)),
      )
    ]
