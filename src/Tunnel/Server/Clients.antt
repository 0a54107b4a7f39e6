-- ===== src/Tunnel/Server/Clients.antt =====
-- internal/tunnel/server.go: `registerClient`, `unregisterClient` and `cleanup`.
pub mod Register
pub mod Unregister
pub mod Cleanup
pub mod Sound
pub mod Said
pub mod Kept
use ngp_mtls.Prelude.{
  ℕ, suc, ◌+◌, ◌%◌, ◌^◌, Option, none, some, List, [], ◌∷◌, ◌++◌, Bytes, codes, update, lookup,
  insert, delete, bytes_eq, pos, map,
}
use ngp_mtls.Decimal.{format_ℕ}
use ngp_mtls.Tunnel.Net.{close}
use ngp_mtls.Tunnel.Server.{
  ClientInfo, Server, Outcome, done, M, pure, ◌>>=◌, ◌>>◌, modify, gets, lock, unlock, close_conn,
  delete_conn, get_info,
}

-- `fmt.Sprintf("client-%d", n)`.
abbrev pub client_name : ℕ → Bytes
client_name n = codes "client-" ++ format_ℕ n

-- `atomic.AddUint32(&s.nextClientID, 1)`.
next_id : M ℕ
next_id s = let n = (s.next_client_id + 1) % 2 ^ 32 in done (n, record s { next_client_id = n })

abbrev pub new_info : Bytes → ℕ → ClientInfo
new_info id conn = record {
  id = id;
  conn = conn;
  conn_map = [];
  next_conn_id = 0;
  local_addr = [];
  remote_port = pos 0;
  public_listener = none;
}

-- `&ClientInfo{…}`: a new pointer.
alloc : ClientInfo → M ℕ
alloc info s = done (s.fresh, record s { infos = update s.infos s.fresh info; fresh = suc s.fresh })

-- `registerClient`.
pub register_client : ℕ → M Bytes
register_client conn = do
  n ← next_id
  p ← alloc (new_info (client_name n) conn)
  lock
  modify λ s. record s { clients = insert (client_name n) p s.clients }
  unlock
  pure (client_name n)

-- The body of `ConnMap.Range` in `unregisterClient`, over the entries.
close_all : ℕ → List (ℕ × ℕ) → M (Unit {0})
close_all p [] = pure tt
close_all p ((k, c) ∷ rest) = do close_conn c; delete_conn p k; close_all p rest

pub close_listener : Option ℕ → M (Unit {0})
close_listener none = pure tt
close_listener (some l) = close_conn l

-- What `unregisterClient` does for a client that is there.
pub remove_client : Bytes → ℕ → M (Unit {0})
remove_client id p = do
  info ← get_info p
  close_all p info.conn_map
  close_listener info.public_listener
  close_conn info.conn
  modify λ s. record s { clients = delete id s.clients }

-- `unregisterClient`, under the write lock to its end.
pub unregister_client : Bytes → M (Unit {0})
unregister_client id = do
  lock
  found ← gets (λ s. lookup id s.clients)
  elim found [ none ↦ pure tt | some p ↦ remove_client id p ]
  unlock

unregister_all : List Bytes → M (Unit {0})
unregister_all [] = pure tt
unregister_all (id ∷ ids) = do unregister_client id; unregister_all ids

-- `cleanup`: the clients are unregistered while the write lock is held.
pub cleanup : M (Unit {0})
cleanup = do
  lock
  ids ← gets (λ s. map (λ e. e.0) s.clients)
  unregister_all ids
  modify λ s. record s { clients = [] }
  unlock
  listener ← gets (λ s. s.public_listener)
  close_listener listener
  modify λ s. record s { public_listener = none }
