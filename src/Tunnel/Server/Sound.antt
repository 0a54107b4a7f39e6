-- ===== src/Tunnel/Server/Sound.antt =====
-- What holds of the server between any two of its actions, whoever holds the mutex.
pub mod Owners
pub mod Actions
pub mod Updates
pub mod Arrivals
pub mod Numbers
use ngp_mtls.Prelude.{
  ℕ, ◌+◌, ◌^◌, ◌≤◌, ◌<◌, ◌≡◌, ◌⊎◌, Option, none, some, List, [], ◌∷◌, ◌++◌, Bytes, All, lookup,
  nat_eq, bytes_eq,
}
use ngp_mtls.Proto.{Frame}
use ngp_mtls.Proto.RoundTrip.{wire, IsSendable}
use ngp_mtls.Tunnel.Net.{Net}
use ngp_mtls.Tunnel.Server.{
  Server, ClientInfo, Task, free, client_frames, public_reader, client_listener, global_listener,
  control_listener,
}
use ngp_mtls.Tunnel.Framed.{IsFramed}
use ngp_mtls.Tunnel.Protocol.{Speaks}
use ngp_mtls.Tunnel.Server.Clients.Register.{IsNumbered}
use ngp_mtls.Tunnel.Server.Public.Handle.{IsCounted}

-- What a connection or listener is used for: the control connection of the client at `p`, the outside
-- connection with the number `k` of that client, or its listener.
pub data Owner : Type 0 where
  control : ℕ → Owner
  mapped : ℕ → ℕ → Owner
  listener : ℕ → Owner

abbrev pub Uses : Server → Owner → ℕ → Type 0
Uses s (control p) c = (p < s.fresh) × ((s.infos p).conn ≡ c)
Uses s (mapped p k) c = (p < s.fresh) × (lookup k (s.infos p).conn_map ≡ some c)
Uses s (listener p) c = (p < s.fresh) × ((s.infos p).public_listener ≡ some c)

-- All connections in use are below `n`, and each has one use only.
pub record IsOwned (n : ℕ) (s : Server) : Type 0 where
  pub used : (o : Owner) (c : ℕ) → Uses s o c → c < n
  pub unique : (o o' : Owner) (c : ℕ) → Uses s o c → Uses s o' c → o ≡ o'

-- A goroutine that reads an outside connection has a client and a number that was given out.
abbrev pub IsTask : ℕ → ℕ → Task → Type 0
IsTask j fresh (public_reader p id k c) = (p < fresh) × (k ≤ j)
IsTask j fresh (client_frames id c) = Unit
IsTask j fresh (client_listener id l) = Unit
IsTask j fresh (global_listener l) = Unit
IsTask j fresh (control_listener l) = Unit

-- After at most `j` actions, with connections below `n`.
pub record IsSound (j n : ℕ) (s : Server) : Type 0 where
  pub numbered : IsNumbered s
  pub client_ids : s.next_client_id ≤ j
  pub conn_ids : (p : ℕ) → p < s.fresh → (s.infos p).next_conn_id ≤ j
  pub counted : (p : ℕ) → p < s.fresh → IsCounted (s.infos p)
  pub owners : IsOwned n s
  pub streams : (p : ℕ) → p < s.fresh → IsFramed (Speaks (s.infos p)) s.net (s.infos p).conn
  pub started : All (IsTask j s.fresh) s.tasks

-- The same while nobody holds the mutex.
abbrev pub IsReady : ℕ → ℕ → Server → Type 0
IsReady j n s = IsSound j n s × (s.clients_mu ≡ free)
