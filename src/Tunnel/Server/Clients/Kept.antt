-- ===== src/Tunnel/Server/Clients/Kept.antt =====
-- Unregistering closes all that it takes out of a map.
use ngp_mtls.Prelude.{
  ℕ, ◌≡◌, refl, inl, inr, Bool-cases, Option, Option-cases, none, some, List, [], ◌∷◌, Bytes,
  lookup, nat_eq, bytes_eq, arith, ◌==◌, if◌then◌else◌,
}
use ngp_mtls.Tunnel.Net.{close}
use ngp_mtls.Tunnel.Server.{
  Server, Outcome, free, writing, done, blocked, fatal, Returns, Returns-chain, Returns_mono,
  unlock, drop_write,
}
use ngp_mtls.Tunnel.Server.Clients.{close_all, close_listener, remove_client, unregister_client}
use ngp_mtls.Tunnel.Server.Clients.Unregister.{Holds, unregister_client_lem, unregister_client_gone}
use ngp_mtls.Tunnel.Server.Clients.Sound.{unregister_locked}
use ngp_mtls.Tunnel.Server.Keeping.{
  Shrinks, Shrinks-trans, Keeps, Keeps-refl, Keeps-close, deleted, deleted-Shrinks,
}

-- While the write lock is held.
abbrev Held : ℕ → Server → Server → Type 0
Held n s s' = Shrinks n s s' × (s'.clients_mu ≡ writing)

close_all-Shrinks :
    (n p : ℕ) (m : List (ℕ × ℕ)) (s t : Server)
    → Held n s t
    → Returns (close_all p m t) (λ _ s'. Held n s s')
unfolding close_all
close_all-Shrinks n p [] s t v = v
close_all-Shrinks n p ((k, c) ∷ m) s t (v, h) =
    let u = record t { net = close c t.net } in
    close_all-Shrinks n p m s (deleted p k u)
      (Shrinks-trans s u _ (Shrinks-trans s t u v (Keeps-close t c).0) (deleted-Shrinks u p k), h)

close_listener-Shrinks :
    (n : ℕ) (l : Option ℕ) (s t : Server)
    → Held n s t
    → Returns (close_listener l t) (λ _ s'. Held n s s')
unfolding close_listener
close_listener-Shrinks n none s t v = v
close_listener-Shrinks n (some l) s t (v, h) = (Shrinks-trans s t _ v (Keeps-close t l).0, h)

-- The table of clients and the mutex are not looked at.
Shrinks-table :
    {n : ℕ} (s t u : Server)
    → Shrinks n s t
    → (u.fresh ≡ t.fresh) × (u.net ≡ t.net) × (u.infos ≡ t.infos) × (u.tasks ≡ t.tasks)
    → Shrinks n s u
Shrinks-table s t u v (a, b, c, d) = record {
  fresh = rw a v.fresh;
  closed = rw b v.closed;
  entries = rw c v.entries;
  ids = rw c v.ids;
  readers = rw d v.readers;
  started = rw d v.started;
}

remove_client-Shrinks :
    (n : ℕ) (id : Bytes) (p : ℕ) (s t : Server)
    → Held n s t
    → Returns (remove_client id p t) (λ _ s'. Held n s s')
unfolding remove_client
remove_client-Shrinks n id p s t v =
    Returns-chain (close_all p (t.infos p).conn_map t) _ (λ _ s'. Held n s s') _
      (close_all-Shrinks n p (t.infos p).conn_map s t v)
      λ _ t1 v1.
        Returns-chain (close_listener (t.infos p).public_listener t1) _ (λ _ s'. Held n s s') _
          (close_listener-Shrinks n (t.infos p).public_listener s t1 v1)
          λ _ t2 (v2, h2).
            let t3 = record t2 { net = close (t.infos p).conn t2.net } in
            (
              Shrinks-table s t3 _ (Shrinks-trans s t2 t3 v2 (Keeps-close t2 (t.infos p).conn).0)
                  (refl, refl, refl, refl),
              h2,
            )

unlock-Shrinks : (n : ℕ) (s t : Server) → Held n s t → Returns (unlock t) (λ _ s'. Shrinks n s s')
unfolding unlock
unlock-Shrinks n s t (v, h) =
    rw (h, unlock, drop_write) (Shrinks-table s t _ v (refl, refl, refl, refl))

unregister_client-Shrinks :
    (n : ℕ) (id : Bytes) (s : Server) (p : ℕ)
    → s.clients_mu ≡ free
    → lookup id s.clients ≡ some p
    → Returns (unregister_client id s) (λ _ s'. Shrinks n s s')
unregister_client-Shrinks n id s p h found =
    let locked = record s { clients_mu = writing } in
    rw (unregister_locked id s p h found) (
      Returns-chain (remove_client id p locked) _ (λ _ s'. Held n s s') _
        (remove_client-Shrinks n id p s locked
          (Shrinks-table s s locked (Keeps-refl s).0 (refl, refl, refl, refl), refl))
        (λ _ s' held. unlock-Shrinks n s s' held))

-- Two things are true of an outcome.
Returns_both :
    {A : Type 0} (o : Outcome (A × Server)) (P Q : A → Server → Type 0)
    → Returns o P
    → Returns o Q
    → Returns o (λ a s. P a s × Q a s)
Returns_both (done (x, s)) P Q a b = (a, b)
Returns_both blocked P Q a b = absurd a
Returns_both fatal P Q a b = absurd a

lookup-Holds : (m : List (ℕ × ℕ)) (k c : ℕ) → lookup k m ≡ some c → Holds c m
unfolding lookup
lookup-Holds [] k c h = cc
lookup-Holds ((i, d) ∷ m) k c h = elim (Bool-cases (i == k)) [
  | inl here ↦ inl (ground (arith, h))
  | inr there ↦ inr (lookup-Holds m k c (rw (there, if◌then◌else◌) at h))
]

pub unregister_client-Keeps :
    (n : ℕ) (id : Bytes) (s : Server)
    → s.clients_mu ≡ free
    → Returns (unregister_client id s) (λ _ s'. Keeps n s s')
unregister_client-Keeps n id s h = elim (Option-cases (lookup id s.clients)) [
  | inl gone ↦ rw (unregister_client_gone id s h gone) (Keeps-refl s)
  | inr (p, found) ↦
      Returns_mono (unregister_client id s) _ _
        (Returns_both (unregister_client id s) _ _ (unregister_client-Shrinks n id s p h found)
          (unregister_client_lem id s p h found))
        λ _ s' (shrinks, (_, _, _, _, closed, _, others, _)). (
          shrinks,
          λ q k c below m o. elim (Bool-cases (q == p)) [
            | inl same ↦
                let at : q ≡ p = ground arith in
                absurd
                  (ground (arith, closed c (lookup-Holds (s.infos p).conn_map k c (rw (← at) m))))
            | inr differ ↦ rw (others q (ground arith)) m
          ],
        )
]
