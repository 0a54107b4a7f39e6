-- ===== src/Tunnel/Server/Run.antt =====
-- internal/tunnel/server.go: the constructors, and `Run`.
pub mod Starts
pub mod Initial
pub mod Accepts
pub mod Finish
use ngp_mtls.Prelude.{
  ℕ, Bool, true, false, Option, none, some, List, [], ◌∷◌, Bytes, Error, cancelled, Result, ok, err,
  if◌then◌else◌,
}
use ngp_mtls.Tunnel.Net.{Net, dial}
use ngp_mtls.Tunnel.Server.{
  Server, ClientInfo, free, M, done, pure, ◌>>=◌, ◌>>◌, modify, gets, close_conn, go, client_frames,
  global_listener, control_listener,
}
use ngp_mtls.Tunnel.Server.Clients.{new_info, register_client, close_listener, cleanup}
use ngp_mtls.Tunnel.Server.Public.{accept}

-- `NewServer`, in a process whose network is `w`. No pointer is in use yet.
abbrev pub new_server : Bytes → Bytes → Net → Server
new_server control public w = record {
  control_listen_addr = control;
  public_listen_addr = public;
  use_tls = false;
  tls_cert_file = [];
  tls_key_file = [];
  tls_ca_file = [];
  clients = [];
  clients_mu = free;
  public_listener = none;
  next_client_id = 0;
  infos = λ p. new_info [] 0;
  fresh = 0;
  net = w;
  tasks = [];
}

-- `NewServerWithTLS`.
abbrev pub new_server_with_tls : Bytes → Bytes → Bytes → Bytes → Bytes → Net → Server
new_server_with_tls control public cert key ca w = record (new_server control public w) {
  use_tls = true;
  tls_cert_file = cert;
  tls_key_file = key;
  tls_ca_file = ca;
}

-- `net.Listen`.
listen : M (Result ℕ)
listen s = let (r, w) = dial s.net in done (r, record s { net = w })

-- The control listener. `pqc` is the error of the constructor of the PQC listener, if it fails; that
-- listener accepts from, and closes, the one that it wraps.
open_control : Option Error → M (Result ℕ)
open_control pqc = do
  r ← listen
  use_tls ← gets (λ s. s.use_tls)
  elim r [
    | err e ↦ pure (err e)
    | ok l ↦
        if use_tls
        then elim pqc [ none ↦ pure (ok l) | some e ↦ do close_conn l; pure (err e) ]
        else pure (ok l)
  ]

-- The global listener, if the server has an address for it.
open_public : M (Result (Option ℕ))
open_public = do
  addr ← gets (λ s. s.public_listen_addr)
  elim addr [
    | [] ↦ pure (ok none)
    | _ ∷ _ ↦ do r ← listen; elim r [ err e ↦ pure (err e) | ok l ↦ pure (ok (some l)) ]
  ]

publish : Option ℕ → M (Unit {0})
publish none = pure tt
publish (some l) = do modify λ s. record s { public_listener = some l }; go (global_listener l)

-- `Run` up to its wait for the end of the context: its listeners, or the error that it returns.
pub start : Option Error → M (Result (ℕ × Option ℕ))
start pqc = do
  r ← open_control pqc
  elim r [
    | err e ↦ pure (err e)
    | ok l ↦ do
      q ← open_public
      elim q [
        | err e ↦ do close_conn l; pure (err e)
        | ok m ↦ do publish m; go (control_listener l); pure (ok (l, m))
      ]
  ]

-- `Run` from the end of the context on, with its deferred calls.
pub finish : ℕ → Option ℕ → M Error
finish l m = do cleanup; close_listener m; close_conn l; pure cancelled

-- What a round of the goroutine that accepts clients meets: whether the context is cancelled at its
-- start, an arrival, and whether the context is cancelled after it.
pub record Round : Type 0 where
  pub stop : Bool
  pub arrival : Result ℕ
  pub stop_after : Bool

-- The goroutine of `Run` that accepts clients; `false` if it has returned.
pub accept_clients : ℕ → List Round → M Bool
accept_clients l [] = pure true
accept_clients l (r ∷ rest) = if r.stop then pure false else (do
  c ← accept l r.arrival
  elim c [
    | ok conn ↦ do id ← register_client conn; go (client_frames id conn); accept_clients l rest
    | err e ↦ if r.stop_after then pure false else accept_clients l rest
  ])
