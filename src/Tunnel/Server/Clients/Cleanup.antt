-- ===== src/Tunnel/Server/Clients/Cleanup.antt =====
-- `cleanup`, which `Run` calls at the end, waits for a mutex that it holds itself.
use ngp_mtls.Prelude.{Option, refl, ℕ, ◌≡◌, ◌≢◌, false, none, some, [], Bytes, arith}
use ngp_mtls.Tunnel.Net.{Net, close}
use ngp_mtls.Tunnel.Server.{Server, done, free, writing, blocked, lock, unlock, Returns}
use ngp_mtls.Tunnel.Server.Clients.{unregister_client, close_listener, unregister_all, cleanup}

-- While the write lock is held, `unregisterClient` waits for ever, whatever the name.
unregister_client-blocked :
    (id : Bytes) (s : Server) → s.clients_mu ≡ writing → unregister_client id s ≡ blocked
unfolding unregister_client lock
unregister_client-blocked id s h = ground arith

-- With a client in the table the shutdown never ends: when `cleanup` starts with the mutex free,
-- it takes the write lock of the table, and `unregisterClient`, which it calls, waits for the
-- same lock.
pub cleanup-blocked : (s : Server) → s.clients_mu ≡ free → s.clients ≢ [] → cleanup s ≡ blocked
unfolding cleanup unregister_all unregister_client lock
cleanup-blocked s h ne = ground arith

-- With no client in the table, and nobody holding the mutex, `cleanup` returns: the global
-- listener is closed and forgotten, and nobody holds the mutex.
pub cleanup-returns :
    (s : Server)
    → s.clients_mu ≡ free
    → s.clients ≡ []
    → Returns (cleanup s) λ _ s'.
      (s'.public_listener ≡ none)
      × ((l : ℕ) → s.public_listener ≡ some l → s'.net.is_open l ≡ false)
      × (s'.clients ≡ [])
      × (s'.clients_mu ≡ free)
unfolding cleanup unregister_all close_listener lock unlock
cleanup-returns s h none_left = ground arith

-- A listener, if there is one, is closed.
abbrev pub shut : Option ℕ → Net → Net
shut none w = w
shut (some l) w = close l w

pub close_listener-shut :
    (m : Option ℕ) (s : Server) → close_listener m s ≡ done (tt, record s { net = shut m s.net })
unfolding close_listener
close_listener-shut none s = refl
close_listener-shut (some l) s = refl

-- The state that it leaves then.
pub cleanup_emptied :
    (s : Server)
    → s.clients_mu ≡ free
    → s.clients ≡ []
    → cleanup s
      ≡ done (
        tt,
        record s {
          clients = [];
          clients_mu = free;
          public_listener = none;
          net = shut s.public_listener s.net;
        },
      )
unfolding cleanup unregister_all close_listener lock unlock
cleanup_emptied s h none_left = ground arith
