-- ===== src/Tunnel/Client/Forward/Stale.antt =====
-- A goroutine of an earlier connection to the server, after the numbers have started again.
use ngp_mtls.Prelude.{
  ℕ, ◌≡◌, ◌≢◌, true, none, [], ◌∷◌, ◌++◌, lookup, lookup-delete, nat_eq, arith, Error,
}
use ngp_mtls.Proto
use ngp_mtls.Proto.{bare_frame}
use ngp_mtls.Proto.RoundTrip.{layout}
use ngp_mtls.Tunnel.Net.{write, part-within}
use ngp_mtls.Tunnel.Client.{Client}
use ngp_mtls.Tunnel.Client.Steps.{send_close_frame-sent}
use ngp_mtls.Tunnel.Client.Forward.{failed, forward_local, forward_round}
use ngp_mtls.Tunnel.Client.Frames.Relay.{IsServing}

-- The goroutine of an old local connection whose number `k` the server has given to a new one: when
-- its `Read` fails, it takes the entry of the new connection `l` out of the map, leaves that
-- connection open, and tells the server to close it.
pub forward_local_stale :
    (k c l old : ℕ) (e : Error) (s : Client)
    → IsServing s k c l
    → old ≢ l
    → old ≢ c
    → (lookup k (forward_local k old (failed e ∷ []) s).1.conn_map ≡ none)
      × ((forward_local k old (failed e ∷ []) s).1.net.is_open l ≡ true)
      × ((forward_local k old (failed e ∷ []) s).1.net.sent c
          ≡ s.net.sent c ++ layout (bare_frame Proto.close k))
unfolding forward_local forward_round write
forward_local_stale k c l old e s v nl nc = ground (
  arith,
  send_close_frame-sent k c s v.connected,
  part-within (s.net.limit c) (layout (bare_frame Proto.close k)),
  lookup-delete k k s.conn_map,
)
