-- ===== src/Examples/Data.antt =====
-- A server with one client, that client, and what stands around them.
use ngp_mtls.Prelude.{
  ℕ, ◌≡◌, ◌≢◌, ◌≤◌, refl, true, none, some, [], ◌∷◌, Bytes, codes, lookup, nat_eq, bytes_eq, arith,
  ok, pos,
}
use ngp_mtls.Tunnel.Net.{Net}
use ngp_mtls.Tunnel.Server.{Server, ClientInfo}
use ngp_mtls.Tunnel.Server.Clients.Register.{IsNumbered}
use ngp_mtls.Tunnel.Server.Public.Handle.{IsCounted}
use ngp_mtls.Tunnel.Server.Run.{new_server}
use ngp_mtls.Tunnel.Server.Run.Accepts.{IsAccepting}
use ngp_mtls.Tunnel.Client.{Client}
use ngp_mtls.Tunnel.Client.Run.{new_client}
use ngp_mtls.Tunnel.Client.Frames.Relay.{IsServing}

abbrev pub network : Net
network = record {
  is_open = λ c. true;
  sent = λ c. [];
  limit = λ c. none;
  dials = ok 20 ∷ ok 21 ∷ [];
}

abbrev pub name : Bytes
name = codes "client-1"

abbrev pub info : ClientInfo
info = record {
  id = name;
  conn = 1;
  conn_map = (5, 9) ∷ [];
  next_conn_id = 5;
  local_addr = [];
  remote_port = pos 0;
  public_listener = none;
}

abbrev pub idle_server : Server
idle_server = new_server (codes ":7000") (codes ":8080") network

abbrev pub server : Server
server = record (new_server (codes ":7000") [] network) {
  clients = (name, 0) ∷ [];
  next_client_id = 1;
  infos = λ p. info;
  fresh = 1;
}

-- The client has a listener of its own.
abbrev pub listening : Server
listening = record server { infos = λ p. record info { public_listener = some 4 } }

abbrev pub client : Client
client = record (new_client (codes "example.org:7000") (codes "127.0.0.1:80") (pos 8080) network) {
  control_conn = some 2;
  conn_map = (5, 3) ∷ [];
}

abbrev pub idle_client : Client
idle_client = new_client (codes "example.org:7000") (codes "127.0.0.1:80") (pos 8080) network

pub registered_name : lookup name server.clients ≡ some 0
unfolding lookup
registered_name = refl

pub no_empty_name : lookup [] server.clients ≡ none
unfolding lookup
no_empty_name = refl

pub mapped_info : lookup 5 info.conn_map ≡ some 9
unfolding lookup
mapped_info = refl

pub mapped_client : lookup 5 client.conn_map ≡ some 3
unfolding lookup
mapped_client = refl

pub info-IsCounted : IsCounted info
unfolding lookup
info-IsCounted = record { given = counted }
  where
    counted : (k c : ℕ) → lookup k info.conn_map ≡ some c → k ≤ 5
    counted k c h = ground arith

pub idle-IsNumbered : IsNumbered idle_server
unfolding lookup
idle-IsNumbered = record { names = λ id p h. absurd (unknown id p h) }
  where
    unknown : (id : Bytes) (p : ℕ) → lookup id idle_server.clients ≢ some p
    unknown id p h = cc

pub idle-IsAccepting : IsAccepting 6 idle_server
idle-IsAccepting = record { unlocked = refl; listens = refl; numbered = idle-IsNumbered }

pub client-IsServing : IsServing client 5 2 3
client-IsServing = record {
  connected = refl;
  mapped = mapped_client;
  control_open = refl;
  local_open = refl;
  control_unlimited = refl;
  local_unlimited = refl;
  apart = omega arith;
}
