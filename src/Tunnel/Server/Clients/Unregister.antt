-- ===== src/Tunnel/Server/Clients/Unregister.antt =====
-- `unregisterClient` closes all that the client had.
use ngp_mtls.Prelude.{
  ℕ, ◌≡◌, ◌≢◌, refl, false, none, some, List, [], ◌∷◌, Bytes, update, lookup, lookup-delete, delete,
  nat_eq, bytes_eq, bytes_iff, Bool-cases, Option-cases, arith, if◌then◌else◌, ◌==◌, ◌⊎◌, inl, inr,
}
use ngp_mtls.Tunnel.Net.{close}
use ngp_mtls.Tunnel.Server.{
  Server, free, writing, done, lock, unlock, ◌>>◌, modify, close_conn, take_write, drop_write,
  chain, Returns, Returns-chain, Returns_mono,
}
use ngp_mtls.Tunnel.Server.Clients.{unregister_client, remove_client, close_all, close_listener}

-- `c` is the connection of an entry.
abbrev pub Holds : ℕ → List (ℕ × ℕ) → Type 0
Holds c [] = ⊥
Holds c ((k, d) ∷ m) = (c ≡ d) ⊎ Holds c m

-- Entries with the keys of `m` taken out of `n`.
abbrev without : List (ℕ × ℕ) → List (ℕ × ℕ) → List (ℕ × ℕ)
without [] n = n
without ((k, c) ∷ m) n = without m (delete k n)

-- What closing the connections of the entries `m` of the client at `p` does.
record Swept (s s' : Server) (p : ℕ) (m : List (ℕ × ℕ)) : Type 0 where
  closed : (c : ℕ) → Holds c m → s'.net.is_open c ≡ false
  still_closed : (c : ℕ) → s.net.is_open c ≡ false → s'.net.is_open c ≡ false
  mutex : s'.clients_mu ≡ s.clients_mu
  clients : s'.clients ≡ s.clients
  emptied : (s'.infos p).conn_map ≡ without m (s.infos p).conn_map
  others : (q : ℕ) → q ≢ p → s'.infos q ≡ s.infos q

close_all-Swept :
    (p : ℕ) (m : List (ℕ × ℕ)) (s : Server) → Returns (close_all p m s) (λ _ s'. Swept s s' p m)
unfolding close_all
close_all-Swept p [] s = record {
  closed = λ c h. absurd h;
  still_closed = λ c h. h;
  mutex = refl;
  clients = refl;
  emptied = refl;
  others = λ q ne. refl;
}
close_all-Swept p ((k, c) ∷ m) s =
    Returns_mono (close_all p m after) (λ _ s'. Swept after s' p m) _ (close_all-Swept p m after)
      λ _ s' v. record {
        closed = λ d h. ground (arith, h, v.closed d, v.still_closed d);
        still_closed = λ d h. ground (arith, v.still_closed d);
        mutex = v.mutex;
        clients = v.clients;
        emptied = ground (arith, v.emptied);
        others = λ q ne. ground (arith, v.others q ne);
      }
  where
    after : Server
    after = record s {
      net = close c s.net;
      infos = update s.infos p (record (s.infos p) { conn_map = delete k (s.infos p).conn_map });
    }

lookup-without_gone :
    (m n : List (ℕ × ℕ)) (k : ℕ) → lookup k n ≡ none → lookup k (without m n) ≡ none
lookup-without_gone [] n k h = h
lookup-without_gone ((j, c) ∷ m) n k h =
    lookup-without_gone m (delete j n) k (ground (arith, lookup-delete j k n))

lookup-without_mem :
    (m n : List (ℕ × ℕ)) (k : ℕ) {c : ℕ} → lookup k m ≡ some c → lookup k (without m n) ≡ none
unfolding lookup
lookup-without_mem [] n k h = cc
lookup-without_mem ((j, d) ∷ m) n k h = elim (Bool-cases (j == k)) [
  | inl hit ↦
      lookup-without_gone m (delete j n) k (unfold delete in ground (arith, lookup-delete j k n))
  | inr miss ↦ lookup-without_mem m (delete j n) k (rw (miss, if◌then◌else◌) at h)
]

without_self : (m : List (ℕ × ℕ)) (k : ℕ) → lookup k (without m m) ≡ none
without_self m k = elim (Option-cases (lookup k m)) [
  | inl gone ↦ lookup-without_gone m m k gone
  | inr (c, there) ↦ lookup-without_mem m m k there
]

-- What a client leaves behind.
record Removed (s s' : Server) (id : Bytes) (p : ℕ) : Type 0 where
  name_gone : lookup id s'.clients ≡ none
  names_kept : (j : Bytes) → j ≢ id → lookup j s'.clients ≡ lookup j s.clients
  control_closed : s'.net.is_open (s.infos p).conn ≡ false
  conns_closed : (c : ℕ) → Holds c (s.infos p).conn_map → s'.net.is_open c ≡ false
  listener_closed : (l : ℕ) → (s.infos p).public_listener ≡ some l → s'.net.is_open l ≡ false
  map_empty : (k : ℕ) → lookup k (s'.infos p).conn_map ≡ none
  records_kept : (q : ℕ) → q ≢ p → s'.infos q ≡ s.infos q
  mutex_kept : s'.clients_mu ≡ s.clients_mu

close_last :
    (id : Bytes) (p : ℕ) (s s' : Server)
    → Swept s s' p (s.infos p).conn_map
    → Returns
        ((do
          close_listener (s.infos p).public_listener
          close_conn (s.infos p).conn
          modify λ s. record s { clients = delete id s.clients })
          s')
        (λ _ s''. Removed s s'' id p)
unfolding close_listener
close_last id p s s' v = elim (Option-cases (s.infos p).public_listener) [
  | inl no_listener ↦ rw no_listener (record {
    name_gone = ground (arith, lookup-delete id id s'.clients, bytes_iff id id);
    names_kept = λ j ne. ground (arith, lookup-delete id j s'.clients, bytes_iff id j, v.clients);
    control_closed = ground arith;
    conns_closed = λ c h. ground (arith, v.closed c h);
    listener_closed = λ l e. cc;
    map_empty = λ k. rw v.emptied (without_self (s.infos p).conn_map k);
    records_kept = v.others;
    mutex_kept = v.mutex;
  })
  | inr (l, listens) ↦ rw listens (record {
    name_gone = ground (arith, lookup-delete id id s'.clients, bytes_iff id id);
    names_kept = λ j ne. ground (arith, lookup-delete id j s'.clients, bytes_iff id j, v.clients);
    control_closed = ground arith;
    conns_closed = λ c h. ground (arith, v.closed c h);
    listener_closed = λ k e. ground (arith, e, listens);
    map_empty = λ k. rw v.emptied (without_self (s.infos p).conn_map k);
    records_kept = v.others;
    mutex_kept = v.mutex;
  })
]

remove_client-Removed :
    (id : Bytes) (p : ℕ) (s : Server) → Returns (remove_client id p s) (λ _ s'. Removed s s' id p)
unfolding remove_client
remove_client-Removed id p s =
    Returns-chain (close_all p (s.infos p).conn_map s) _ _ _
      (close_all-Swept p (s.infos p).conn_map s) (λ _ s' v. close_last id p s s' v)

-- While nobody holds the mutex, unregistering a registered client returns; then its name is gone
-- from the table, its control connection, its listener if it had one, and every connection in
-- its map are closed, its map is empty, the other names and records are as before, and the mutex
-- is free.
pub unregister_client_lem :
    (id : Bytes) (s : Server) (p : ℕ)
    → s.clients_mu ≡ free
    → lookup id s.clients ≡ some p
    → Returns (unregister_client id s) λ _ s'.
      (lookup id s'.clients ≡ none)
      × ((j : Bytes) → j ≢ id → lookup j s'.clients ≡ lookup j s.clients)
      × (s'.net.is_open (s.infos p).conn ≡ false)
      × ((l : ℕ) → (s.infos p).public_listener ≡ some l → s'.net.is_open l ≡ false)
      × ((c : ℕ) → Holds c (s.infos p).conn_map → s'.net.is_open c ≡ false)
      × ((k : ℕ) → lookup k (s'.infos p).conn_map ≡ none)
      × ((q : ℕ) → q ≢ p → s'.infos q ≡ s.infos q)
      × (s'.clients_mu ≡ free)
unfolding unregister_client lock unlock
unregister_client_lem id s p h found =
    let locked = record s { clients_mu = writing } in
    rw (h, found, lock, take_write, chain)
      (Returns-chain (remove_client id p locked) _ (λ _ s'. Removed locked s' id p) _
        (remove_client-Removed id p locked)
        λ _ s' v.
          rw (v.mutex_kept, unlock, drop_write)
            (
              v.name_gone, v.names_kept, v.control_closed, v.listener_closed, v.conns_closed,
              v.map_empty, v.records_kept, refl,
            ))

-- Unregistering a client that is not registered, as after a first time, changes nothing.
pub unregister_client_gone :
    (id : Bytes) (s : Server)
    → s.clients_mu ≡ free
    → lookup id s.clients ≡ none
    → unregister_client id s ≡ done (tt, s)
unfolding unregister_client lock unlock
unregister_client_gone id s h gone = ground arith
