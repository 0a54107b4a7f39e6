-- ===== src/Tunnel/Session/Arriving.antt =====
-- An outside connection arrives for a registered client, and the server announces and keeps it.
use ngp_mtls.Prelude.{
  ℕ, ◌+◌, ◌^◌, ◌<◌, ◌≡◌, ◌≢◌, ap, ◌∙◌, true, none, some, ◌∷◌, ◌++◌, Bytes, lookup, lookup-insert,
  insert, update, nat_eq, bytes_eq, arith,
}
use ngp_mtls.Proto
use ngp_mtls.Proto.{bare_frame, Frame}
use ngp_mtls.Proto.RoundTrip.{layout}
use ngp_mtls.Tunnel.Net.{Net, takes, write, write-takes}
use ngp_mtls.Tunnel.Server.{Server, free, done, public_reader}
use ngp_mtls.Tunnel.Server.Public.{handle_public_connection, announced}
use ngp_mtls.Tunnel.Server.Public.Handle.{
  numbered, accepted_for-announced, announced-stored, handle_public_connection-accepted_for,
}
use ngp_mtls.Tunnel.Server.Public.Reader.{IsReading}
use ngp_mtls.Tunnel.Server.Frames.Relay.{IsRelaying}

-- The server has the client `id` at `p`, whose control connection takes all that is written to it,
-- and the outside connection `conn` arrives, before the numbers of the client's connections wrap
-- round.
pub record IsArriving (s : Server) (p : ℕ) (id : Bytes) (conn : ℕ) : Type 0 where
  pub unlocked : s.clients_mu ≡ free
  pub registered : lookup id s.clients ≡ some p
  pub below : (s.infos p).next_conn_id + 1 < 2 ^ 32
  pub control_open : s.net.is_open (s.infos p).conn ≡ true
  pub unlimited : s.net.limit (s.infos p).conn ≡ none
  pub apart : conn ≢ (s.infos p).conn

pub write_other : (c d : ℕ) (b : Bytes) (w : Net) → d ≢ c → (write c b w).1.sent d ≡ w.sent d
unfolding write
write_other c d b w ne = ground arith

abbrev pub stored : Server → ℕ → Bytes → ℕ → ℕ → Server
stored s p id k conn =
    let u = numbered s p k in
    record u {
      infos =
          update u.infos p (record (u.infos p) { conn_map = insert k conn (u.infos p).conn_map });
      tasks = public_reader p id k conn ∷ u.tasks;
    }

module _ (s : Server) (p : ℕ) (id : Bytes) (conn : ℕ) (v : IsArriving s p id conn) where
  abbrev pub k : ℕ
  k = (s.infos p).next_conn_id + 1

  notice_takes : takes s.net (s.infos p).conn (layout (bare_frame Proto.new_conn k)) ≡ true
  notice_takes = ground (arith, v.control_open, v.unlimited)

  pub arrives-stored : handle_public_connection conn id s ≡ done (tt, stored s p id k conn)
  arrives-stored =
      handle_public_connection-accepted_for conn id s p v.unlocked v.registered
      ∙ (accepted_for-announced conn id s p v.below
          ∙ (ap (λ e. announced p id k conn e (numbered s p k))
                (write-takes s.net (s.infos p).conn (layout (bare_frame Proto.new_conn k))
                  notice_takes).0
              ∙ announced-stored p id k conn (numbered s p k)))

  pub stored-IsReading : IsReading (stored s p id k conn) p id k conn
  unfolding write
  stored-IsReading = record {
    unlocked = v.unlocked;
    registered = v.registered;
    mapped = ground (arith, lookup-insert k k conn (s.infos p).conn_map);
    control_open = ground (arith, v.control_open);
    unlimited = ground (arith, v.control_open, v.unlimited);
    apart = ground (arith, v.apart);
  }

  pub stored_sent :
      (stored s p id k conn).net.sent (s.infos p).conn
      ≡ s.net.sent (s.infos p).conn ++ layout (bare_frame Proto.new_conn k)
  stored_sent =
      (write-takes s.net (s.infos p).conn (layout (bare_frame Proto.new_conn k)) notice_takes).1

  pub stored_conn : ((stored s p id k conn).infos p).conn ≡ (s.infos p).conn
  stored_conn = ground arith

  pub stored-IsRelaying :
      s.net.is_open conn ≡ true
      → s.net.limit conn ≡ none
      → IsRelaying (stored s p id k conn) id p k conn
  unfolding write
  stored-IsRelaying open_still unlimited = record {
    unlocked = v.unlocked;
    registered = v.registered;
    mapped = ground (arith, lookup-insert k k conn (s.infos p).conn_map);
    public_open = ground (arith, v.control_open);
    unlimited = ground (arith, v.control_open, v.apart);
  }
