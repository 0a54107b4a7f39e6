-- ===== src/Tunnel/Server/Clients/Said.antt =====
-- What unregistering says to the clients: nothing.
use ngp_mtls.Prelude.{
  ℕ, ◌≡◌, refl, inl, inr, Option, Option-cases, none, some, List, [], ◌∷◌, Bytes, lookup, nat_eq,
  bytes_eq, arith,
}
use ngp_mtls.Tunnel.Server.{Server, free, writing, Returns, Returns-chain, unlock, drop_write}
use ngp_mtls.Tunnel.Server.Clients.{close_all, close_listener, remove_client, unregister_client}
use ngp_mtls.Tunnel.Server.Clients.Unregister.{unregister_client_gone}
use ngp_mtls.Tunnel.Server.Clients.Sound.{unregister_locked}
use ngp_mtls.Tunnel.Server.Moves.{Moves, nobody, Moves-quiet, Moves-refl, Moves-trans}

-- While the write lock is held.
abbrev Held : Server → Server → Type 0
Held s s' = Moves nobody s s' × (s'.clients_mu ≡ writing)

close_all-Held :
    (p : ℕ) (m : List (ℕ × ℕ)) (s t : Server)
    → Held s t
    → Returns (close_all p m t) (λ _ s'. Held s s')
unfolding close_all
close_all-Held p [] s t v = v
close_all-Held p ((k, c) ∷ m) s t (v, h) = close_all-Held p m s _ (
  Moves-trans s t _ v
      (Moves-quiet t _ refl (λ q below. ground arith) (λ q below. refl) (λ q below. refl)),
  h,
)

close_listener-Held :
    (l : Option ℕ) (s t : Server) → Held s t → Returns (close_listener l t) (λ _ s'. Held s s')
unfolding close_listener
close_listener-Held none s t v = v
close_listener-Held (some l) s t (v, h) = (
  Moves-trans s t _ v (Moves-quiet t _ refl (λ q below. refl) (λ q below. refl) (λ q below. refl)),
  h,
)

remove_client-Held :
    (id : Bytes) (p : ℕ) (s t : Server)
    → Held s t
    → Returns (remove_client id p t) (λ _ s'. Held s s')
unfolding remove_client
remove_client-Held id p s t v =
    Returns-chain (close_all p (t.infos p).conn_map t) _ (λ _ s'. Held s s') _
      (close_all-Held p (t.infos p).conn_map s t v)
      λ _ t1 v1.
        Returns-chain (close_listener (t.infos p).public_listener t1) _ (λ _ s'. Held s s') _
          (close_listener-Held (t.infos p).public_listener s t1 v1)
          λ _ t2 (v2, h2). (
            Moves-trans s t2 _ v2
                (Moves-quiet t2 _ refl (λ q below. refl) (λ q below. refl) (λ q below. refl)),
            h2,
          )

unlock-Moves : (s t : Server) → Held s t → Returns (unlock t) (λ _ s'. Moves nobody s s')
unfolding unlock
unlock-Moves s t (v, h) =
    rw (h, unlock, drop_write)
      (Moves-trans s t _ v
        (Moves-quiet t _ refl (λ q below. refl) (λ q below. refl) (λ q below. refl)))

pub unregister_client-Moves :
    (id : Bytes) (s : Server)
    → s.clients_mu ≡ free
    → Returns (unregister_client id s) (λ _ s'. Moves nobody s s')
unregister_client-Moves id s h = elim (Option-cases (lookup id s.clients)) [
  | inl gone ↦ rw (unregister_client_gone id s h gone) (Moves-refl s)
  | inr (p, found) ↦
      let locked = record s { clients_mu = writing } in
      rw (unregister_locked id s p h found) (
        Returns-chain (remove_client id p locked) _ (λ _ s'. Held s s') _
          (remove_client-Held id p s locked
            (Moves-quiet s locked refl (λ q below. refl) (λ q below. refl) (λ q below. refl), refl))
          (λ _ s' held. unlock-Moves s s' held))
]
