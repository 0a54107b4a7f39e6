-- ===== src/Tunnel/Server/Run/Initial.antt =====
-- From a new server to the first state of the system.
use ngp_mtls.Prelude.{
  ℕ, ◌≡◌, refl, ◌∙◌, All, Option, List, [], ◌∷◌, Bytes, Error, Result, ok, err, arith,
}
use ngp_mtls.Tunnel.Net.{Net, dial}
use ngp_mtls.Tunnel.Server.{Server, Returns, Returns_mono}
use ngp_mtls.Tunnel.Server.Run.{
  new_server, new_server_with_tls, start, open_control, open_public, publish, listen,
}
use ngp_mtls.Tunnel.Server.Sound.{IsTask}
use ngp_mtls.Tunnel.Server.System.{IsInitial, Reach, begin}

-- `start` changes the listeners and the goroutines only.
abbrev Started : Server → Server → Type 0
Started s s' =
    (s'.clients_mu ≡ s.clients_mu)
    × (s'.clients ≡ s.clients)
    × (s'.next_client_id ≡ s.next_client_id)
    × (s'.fresh ≡ s.fresh)
    × All (IsTask 0 0) s'.tasks

start-Started :
    (pqc : Option Error) (s : Server)
    → All (IsTask 0 0) s.tasks
    → Returns (start pqc s) (λ _ s'. Started s s')
unfolding start open_control open_public publish listen dial
start-Started pqc s v = go s.net.dials refl
  where
    go : (ds : List (Result ℕ)) → s.net.dials ≡ ds → Returns (start pqc s) (λ _ s'. Started s s')
    go [] d = ground arith
    go (err e ∷ rest) d = ground arith
    go (ok l ∷ []) d = ground arith
    go (ok l ∷ (err e ∷ rest)) d = ground arith
    go (ok l ∷ (ok m ∷ rest)) d = ground arith

start-IsInitial :
    (pqc : Option Error) (s : Server) → IsInitial s → Returns (start pqc s) (λ _ s'. IsInitial s')
start-IsInitial pqc s v =
    Returns_mono (start pqc s) (λ _ s'. Started s s') (λ _ s'. IsInitial s')
      (start-Started pqc s v.no_readers)
      λ _ s' (mu, clients, ids, infos, tasks). record {
        unlocked = mu ∙ v.unlocked;
        no_clients = clients ∙ v.no_clients;
        no_ids = ids ∙ v.no_ids;
        no_infos = infos ∙ v.no_infos;
        no_readers = tasks;
      }

new_server-IsInitial : (control public : Bytes) (w : Net) → IsInitial (new_server control public w)
new_server-IsInitial control public w = record {
  unlocked = refl;
  no_clients = refl;
  no_ids = refl;
  no_infos = refl;
  no_readers = tt;
}

-- Whether `Run` of a new server, with TLS or without, gets to its wait or returns an error: it does
-- so, and what it leaves is a first state of the system, before any action.
start_reaches :
    (pqc : Option Error) (control public cert key ca : Bytes) (w : Net) (n : ℕ)
    → Returns (start pqc (new_server control public w)) (λ _ s'. Reach 0 n s')
      × Returns
          (start pqc (new_server_with_tls control public cert key ca w))
          (λ _ s'. Reach 0 n s')
start_reaches pqc control public cert key ca w n = (
  reaches (new_server control public w) (new_server-IsInitial control public w),
  reaches (new_server_with_tls control public cert key ca w) (record {
    unlocked = refl;
    no_clients = refl;
    no_ids = refl;
    no_infos = refl;
    no_readers = tt;
  }),
)
  where
    reaches : (s : Server) → IsInitial s → Returns (start pqc s) (λ _ s'. Reach 0 n s')
    reaches s v =
        Returns_mono (start pqc s) (λ _ s'. IsInitial s') (λ _ s'. Reach 0 n s')
          (start-IsInitial pqc s v) (λ _ s' u. begin u)
