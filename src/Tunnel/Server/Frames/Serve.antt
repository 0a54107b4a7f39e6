-- ===== src/Tunnel/Server/Frames/Serve.antt =====
-- The life of a client's goroutine: `handleClientConnection`.
use ngp_mtls.Prelude.{
  ℕ, ◌<◌, ◌≡◌, ◌≢◌, refl, ap, ◌∙◌, if◌then◌else◌, Bool, true, Option-cases, none, inl, inr, Bytes,
  length, lookup, bytes_eq,
}
use ngp_mtls.Proto.{Stream}
use ngp_mtls.Tunnel.Server.{Server, free, Returns, Returns-chain, Returns_mono}
use ngp_mtls.Tunnel.Server.Clients.{unregister_client}
use ngp_mtls.Tunnel.Server.Clients.Unregister.{unregister_client_lem, unregister_client_gone}
use ngp_mtls.Tunnel.Server.Frames.{handle_frames, handle_client_connection}
use ngp_mtls.Tunnel.Server.Frames.Loop.{handle_frames_returns}

unregister_client_drops :
    (id : Bytes) (s : Server)
    → s.clients_mu ≡ free
    → Returns (unregister_client id s) λ _ s'.
      (lookup id s'.clients ≡ none)
      × ((j : Bytes) → j ≢ id → lookup j s'.clients ≡ lookup j s.clients)
      × (s'.clients_mu ≡ free)
unregister_client_drops id s h = elim (Option-cases (lookup id s.clients)) [
  | inl gone ↦ rw (unregister_client_gone id s h gone) (gone, λ j ne. refl, h)
  | inr (p, found) ↦
      Returns_mono (unregister_client id s) _ _ (unregister_client_lem id s p h found)
        (λ _ s' v. (v.0, v.1, v.7))
]

-- If nobody holds the mutex when it starts and nobody else does anything until it returns (the
-- cleanup at the end of `Run` included, which may keep the mutex for ever), then whatever a
-- client sends, however its stream ends and whenever it finds the context cancelled, the client's
-- goroutine returns, one round more than there are bytes being enough; then the client is not
-- registered, all other names stand for what they stood for, and the mutex is free.
pub handle_client_connection_lem :
    (n : ℕ) (ctx : ℕ → Bool) (id : Bytes) (conn : ℕ) (r : Stream) (s : Server)
    → length r.bytes < n
    → s.clients_mu ≡ free
    → Returns (handle_client_connection n ctx id conn r s) λ ended s'.
      (ended ≡ true)
      × (lookup id s'.clients ≡ none)
      × ((j : Bytes) → j ≢ id → lookup j s'.clients ≡ lookup j s.clients)
      × (s'.clients_mu ≡ free)
unfolding handle_client_connection
handle_client_connection_lem n ctx id conn r s fuel h =
    Returns-chain (handle_frames n ctx id conn r s) _ _ _
      (handle_frames_returns n ctx id conn r s fuel h)
      λ ended s' (stopped, closed, unlocked, same).
        rw (stopped, if◌then◌else◌)
          (Returns-chain (unregister_client id s') _ _ _ (unregister_client_drops id s' unlocked)
            λ _ s'' (gone, kept, free_again).
              (refl, gone, λ j ne. kept j ne ∙ ap (lookup j) same, free_again))
