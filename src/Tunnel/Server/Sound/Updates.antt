-- ===== src/Tunnel/Server/Sound/Updates.antt =====
-- Changes of the record of a client keep a sound state.
use ngp_mtls.Prelude.{
  ℕ, ◌≤◌, ◌<◌, ◌≡◌, ◌≢◌, refl, sym, inl, inr, Bool-cases, some, Bytes, lookup, delete,
  lookup-delete, nat_eq, bytes_eq, ◌==◌, update, arith, ℤ,
}
use ngp_mtls.Tunnel.Net.{Net}
use ngp_mtls.Tunnel.Server.{Server, ClientInfo}
use ngp_mtls.Tunnel.Server.Public.Handle.{IsCounted}
use ngp_mtls.Tunnel.Server.Sound.{Owner, control, mapped, listener, Uses, IsOwned, IsSound}
use ngp_mtls.Tunnel.Server.Sound.Owners.{IsOwned-sub}
use ngp_mtls.Tunnel.Protocol.{Speaks, Speaks-same}
use ngp_mtls.Tunnel.Framed.{IsFramed, IsFramed-same}

module _ {j n : ℕ} (s : Server) (v : IsSound j n s) where
  -- The record at `p` changes, but not its connection or name, and the network.
  pub IsSound-update :
      (p : ℕ) (info : ClientInfo) (w : Net)
      → info.id ≡ (s.infos p).id
      → info.conn ≡ (s.infos p).conn
      → info.next_conn_id ≤ j
      → IsCounted info
      → IsOwned n (record s { infos = update s.infos p info; net = w })
      → ((q : ℕ) → q < s.fresh → p ≢ q → IsFramed (Speaks (s.infos q)) w (s.infos q).conn)
      → (p < s.fresh → IsFramed (Speaks info) w (s.infos p).conn)
      → IsSound j n (record s { infos = update s.infos p info; net = w })
  IsSound-update p info w id conn below counted owned others changed = record {
    numbered = record { names = λ i q h. ground (arith, v.numbered.names i q h) };
    client_ids = v.client_ids;
    conn_ids = λ q h. ground (arith, v.conn_ids q h);
    counted = λ q h. elim (Bool-cases (p == q)) [
      | inl same ↦ rw same counted
      | inr differ ↦ rw differ (v.counted q h)
    ];
    owners = owned;
    streams = λ q h. elim (Bool-cases (p == q)) [
      | inl same ↦
          let at : p ≡ q = ground arith in
          let framed = changed (rw at h) in rw same (rw (← conn) at framed)
      | inr differ ↦ rw differ (others q h (ground arith))
    ];
    started = v.started;
  }

  -- The same, where the network does not change and no connection comes to the map.
  pub IsSound-info :
      (p : ℕ) (info : ClientInfo)
      → info.id ≡ (s.infos p).id
      → info.conn ≡ (s.infos p).conn
      → info.next_conn_id ≡ (s.infos p).next_conn_id
      → p < s.fresh
      → IsCounted info
      → ((k c : ℕ) → lookup k info.conn_map ≡ some c → lookup k (s.infos p).conn_map ≡ some c)
      → IsOwned n (record s { infos = update s.infos p info })
      → IsSound j n (record s { infos = update s.infos p info })
  IsSound-info p info id conn next below counted fewer owned =
      IsSound-update p info s.net id conn (rw next (v.conn_ids p below)) counted owned
        (λ q h _. v.streams q h)
        (λ h.
          IsFramed-same s.net s.net (s.infos p).conn (v.streams p h)
            (Speaks-same (s.infos p) info (sym next) fewer) refl refl)

  -- `ConnMap.Delete`.
  pub IsSound-delete :
      (p k : ℕ)
      → p < s.fresh
      → IsSound j n (record s {
        infos = update s.infos p (record (s.infos p) { conn_map = delete k (s.infos p).conn_map });
      })
  IsSound-delete p k below =
      IsSound-info p info refl refl refl below counted
        (λ i c h. ground (arith, lookup-delete k i (s.infos p).conn_map))
        (IsOwned-sub v.owners (record s { infos = update s.infos p info }) n (omega arith) fewer)
    where
      info : ClientInfo
      info = record (s.infos p) { conn_map = delete k (s.infos p).conn_map }

      counted : IsCounted info
      counted = record {
        given = λ i c h.
            ground (arith, lookup-delete k i (s.infos p).conn_map, (v.counted p below).given i c);
      }

      fewer :
          (o : Owner) (c : ℕ) → Uses (record s { infos = update s.infos p info }) o c → Uses s o c
      fewer (control q) c u = ground arith
      fewer (listener q) c u = ground arith
      fewer (mapped q i) c u = ground (arith, lookup-delete k i (s.infos p).conn_map)

  -- The address and port of a client.
  pub IsSound-config :
      (p : ℕ) (addr : Bytes) (port : ℤ)
      → p < s.fresh
      → IsSound j n (record s {
        infos = update s.infos p (record (s.infos p) { local_addr = addr; remote_port = port });
      })
  IsSound-config p addr port below =
      IsSound-info p info refl refl refl below (record { given = (v.counted p below).given })
        (λ i c h. h)
        (IsOwned-sub v.owners (record s { infos = update s.infos p info }) n (omega arith) fewer)
    where
      info : ClientInfo
      info = record (s.infos p) { local_addr = addr; remote_port = port }

      fewer :
          (o : Owner) (c : ℕ) → Uses (record s { infos = update s.infos p info }) o c → Uses s o c
      fewer (control q) c u = ground arith
      fewer (listener q) c u = ground arith
      fewer (mapped q i) c u = ground arith
