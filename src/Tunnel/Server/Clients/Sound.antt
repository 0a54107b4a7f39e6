-- ===== src/Tunnel/Server/Clients/Sound.antt =====
-- Registering and unregistering keep a sound state, and return.
use ngp_mtls.Prelude.{
  ℕ, suc, ◌+◌, ◌^◌, ◌<◌, ◌≡◌, refl, inl, inr, Option, Option-cases, none, some, List, [], ◌∷◌,
  Bytes, lookup, nat_eq, bytes_eq, arith,
}
use ngp_mtls.Tunnel.Net.{opened}
use ngp_mtls.Tunnel.Server.{
  Server, free, writing, ◌>>◌, Returns, Returns-chain, lock, unlock, drop_write,
}
use ngp_mtls.Tunnel.Server.Clients.{
  register_client, close_all, close_listener, remove_client, unregister_client,
}
use ngp_mtls.Tunnel.Server.Clients.Register.{register_client-registered}
use ngp_mtls.Tunnel.Server.Clients.Unregister.{unregister_client_gone}
use ngp_mtls.Tunnel.Server.Sound.{IsSound, IsReady}
use ngp_mtls.Tunnel.Server.Sound.Actions.{IsSound-close, IsSound-unlist, IsSound-mutex}
use ngp_mtls.Tunnel.Server.Sound.Updates.{IsSound-delete}
use ngp_mtls.Tunnel.Server.Sound.Arrivals.{IsSound-registered}

-- The connection `n` arrives and gets a client.
pub register_client-IsReady :
    {j n : ℕ} (s : Server)
    → IsReady j n s
    → j + 1 < 2 ^ 32
    → Returns
        (register_client n (record s { net = opened n s.net }))
        (λ _ s'. IsReady (suc j) (suc n) s')
register_client-IsReady {j} {n} s (v, h) below =
    rw
      (register_client-registered n (record s { net = opened n s.net }) h
        (omega (arith, v.client_ids)))
      (IsSound-registered s v, refl)

-- While the write lock is held.
abbrev Held : ℕ → ℕ → ℕ → Server → Type 0
Held j n fresh s = IsSound j n s × (s.clients_mu ≡ writing) × (s.fresh ≡ fresh)

module _ {j n : ℕ} (fresh : ℕ) where
  close_all-Held :
      (p : ℕ) (m : List (ℕ × ℕ)) (s : Server)
      → p < fresh
      → Held j n fresh s
      → Returns (close_all p m s) (λ _ s'. Held j n fresh s')
  unfolding close_all
  close_all-Held p [] s below v = v
  close_all-Held p ((k, c) ∷ m) s below (v, h, at) =
      let closed = IsSound-close s v c in
      close_all-Held p m _ below (IsSound-delete _ closed p k (omega arith), h, at)

  close_listener-Held :
      (l : Option ℕ) (s : Server)
      → Held j n fresh s
      → Returns (close_listener l s) (λ _ s'. Held j n fresh s')
  unfolding close_listener
  close_listener-Held none s v = v
  close_listener-Held (some l) s (v, h, at) = (IsSound-close s v l, h, at)

  remove_client-Held :
      (id : Bytes) (p : ℕ) (s : Server)
      → p < fresh
      → Held j n fresh s
      → Returns (remove_client id p s) (λ _ s'. Held j n fresh s')
  unfolding remove_client
  remove_client-Held id p s below v =
      Returns-chain (close_all p (s.infos p).conn_map s) _ (λ _ s'. Held j n fresh s') _
        (close_all-Held p (s.infos p).conn_map s below v)
        λ _ s1 v1.
          Returns-chain (close_listener (s.infos p).public_listener s1) _
            (λ _ s'. Held j n fresh s') _ (close_listener-Held (s.infos p).public_listener s1 v1)
            λ _ s2 (v2, h2, at2).
              (IsSound-unlist _ (IsSound-close s2 v2 (s.infos p).conn) id, h2, at2)

unlock-IsReady :
    {j n fresh : ℕ} (s : Server) → Held j n fresh s → Returns (unlock s) (λ _ s'. IsReady j n s')
unfolding unlock
unlock-IsReady s (v, h, at) = rw (h, unlock, drop_write) (IsSound-mutex s v free, refl)

pub unregister_locked :
    (id : Bytes) (s : Server) (p : ℕ)
    → s.clients_mu ≡ free
    → lookup id s.clients ≡ some p
    → unregister_client id s ≡ (do remove_client id p; unlock) (record s { clients_mu = writing })
unfolding unregister_client lock
unregister_locked id s p h found = ground arith

-- Any name.
pub unregister_client-IsReady :
    {j n : ℕ} (id : Bytes) (s : Server)
    → IsReady j n s
    → Returns (unregister_client id s) (λ _ s'. IsReady j n s')
unregister_client-IsReady {j} {n} id s (v, h) = elim (Option-cases (lookup id s.clients)) [
  | inl gone ↦ rw (unregister_client_gone id s h gone) (v, h)
  | inr (p, found) ↦
      let locked = record s { clients_mu = writing } in
      rw (unregister_locked id s p h found) (
        Returns-chain (remove_client id p locked) _ (λ _ s'. Held j n s.fresh s') _
          (remove_client-Held s.fresh id p locked (v.numbered.names id p found).0
            (IsSound-mutex s v writing, refl, refl))
          λ _ s' held. unlock-IsReady s' held)
]
