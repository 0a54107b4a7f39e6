-- ===== src/Tunnel/Server/Public/Accept.antt =====
-- The loops that accept outside connections.
use ngp_mtls.Prelude.{
  ◌≢◌, ◌⊎◌, inl, inr, zero, suc, none, List-cases, beq_refl, ℕ, ◌≡◌, refl, Bool, true, false, none,
  some, List, [], ◌∷◌, Bytes, lookup, bytes_eq, arith, Result, All,
}
use ngp_mtls.Tunnel.Net.{close}
use ngp_mtls.Tunnel.Server.{rlock, runlock, Server, free, done, Returns, Returns_mono}
use ngp_mtls.Tunnel.Server.Clients.{unregister_client}
use ngp_mtls.Tunnel.Server.Clients.Unregister.{unregister_client_lem}
use ngp_mtls.Tunnel.Server.Public.{
  accept, accept_for_client, first_client, choose_client, route_public, handle_public_connection,
}

-- In a round the context is not cancelled.
abbrev pub Running : Result ℕ × Bool → Type 0
Running (arrival, cancelled) = cancelled ≡ false

-- Once its listener is closed, the loop of a client goes round for as long as the context lives: it
-- never returns, and does nothing else.
accept_for_client_spins :
    (id : Bytes) (l : ℕ) (rounds : List (Result ℕ × Bool)) (s : Server)
    → s.net.is_open l ≡ false
    → All Running rounds
    → accept_for_client id l rounds s ≡ done (true, s)
unfolding accept_for_client accept
accept_for_client_spins id l [] s closed v = refl
accept_for_client_spins id l ((arrival, cancelled) ∷ rounds) s closed v =
    ground (arith, accept_for_client_spins id l rounds s closed v.1)

-- When a client with a listener of its own is unregistered, the goroutine that accepts on this
-- listener does not end: through any number of rounds in which the server still runs, it has not
-- returned, and it changes nothing.
pub unregister_client-spins :
    (id : Bytes) (s : Server) (p l : ℕ) (rounds : List (Result ℕ × Bool))
    → s.clients_mu ≡ free
    → lookup id s.clients ≡ some p
    → (s.infos p).public_listener ≡ some l
    → All Running rounds
    → Returns
        (unregister_client id s)
        λ _ s'. (lookup id s'.clients ≡ none) × (accept_for_client id l rounds s' ≡ done (true, s'))
unregister_client-spins id s p l rounds h found listens v =
    Returns_mono (unregister_client id s) _ _ (unregister_client_lem id s p h found)
      λ _ s' r. (r.0, accept_for_client_spins id l rounds s' (r.3 l listens) v)

-- The choice among the clients: a registered one, wherever the iteration starts.
first_client_registered :
    (start : ℕ) (m : List (Bytes × ℕ)) → m ≢ [] → lookup (first_client start m) m ≢ none
unfolding first_client lookup
first_client_registered start [] ne = absurd (ne refl)
first_client_registered start ((id, p) ∷ []) ne = ground (arith, beq_refl id)
first_client_registered zero ((id, p) ∷ (e ∷ m)) ne = ground (arith, beq_refl id)
first_client_registered (suc n) ((id, p) ∷ (e ∷ m)) ne =
    ground (arith, first_client_registered n (e ∷ m) (λ h. cc))

choose_client_lem :
    (start : ℕ) (s : Server)
    → s.clients_mu ≡ free
    → choose_client start s ≡ done (first_client start s.clients, s)
unfolding choose_client rlock runlock
choose_client_lem start s h = ground arith

no_client : (start : ℕ) → first_client start [] ≡ []
unfolding first_client
no_client zero = refl
no_client (suc n) = refl

-- An outside connection at the global listener: without clients it is closed, and nothing else
-- happens; with clients, none of which has an empty name, it is handled for one of them, wherever
-- the iteration over the table starts.
pub route_public_lem :
    (start conn : ℕ) (s : Server)
    → s.clients_mu ≡ free
    → lookup [] s.clients ≡ none
    → ((s.clients ≡ [])
        × (route_public start conn s ≡ done (tt, record s { net = close conn s.net })))
      ⊎ ((id : Bytes) × (lookup id s.clients ≢ none)
          × (route_public start conn s ≡ handle_public_connection conn id s))
unfolding route_public
route_public_lem start conn s h named = elim (List-cases s.clients) [
  | inl alone ↦ inl (alone, ground (arith, choose_client_lem start s h, no_client start))
  | inr some_client ↦
      let there = first_client_registered start s.clients some_client in
      inr (first_client start s.clients, there, chosen (first_client start s.clients) refl there)
]
  where
    chosen :
        (id : Bytes)
        → first_client start s.clients ≡ id
        → lookup id s.clients ≢ none
        → route_public start conn s ≡ handle_public_connection conn id s
    chosen [] e there = absurd (there named)
    chosen (b ∷ bs) e there = rw (choose_client_lem start s h, e) refl
