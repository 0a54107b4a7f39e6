-- ===== src/Tunnel/Server/Sound/Arrivals.antt =====
-- Connections and listeners that come into use keep a sound state.
use ngp_mtls.Prelude.{
  ℕ, suc, ◌<◌, ◌≡◌, ◌≢◌, refl, ap, ◌⊎◌, inl, inr, Bool-cases, some, [], lookup, nat_eq, bytes_eq,
  ◌==◌, update, arith,
}
use ngp_mtls.Tunnel.Net.{opened}
use ngp_mtls.Tunnel.Server.{Server, ClientInfo}
use ngp_mtls.Tunnel.Server.Clients.Register.{registered, registered-IsNumbered}
use ngp_mtls.Tunnel.Server.Sound.{Owner, control, mapped, listener, Uses, IsSound}
use ngp_mtls.Tunnel.Server.Sound.Owners.{IsOwned-add}
use ngp_mtls.Tunnel.Framed.{IsFramed-same, opened-IsFramed}
use ngp_mtls.Tunnel.Protocol.{Speaks-nothing}
use ngp_mtls.Tunnel.Server.Sound.Actions.{IsSound-net, IsSound-later, All-IsTask}
use ngp_mtls.Tunnel.Server.Sound.Updates.{IsSound-info}

module _ {j n : ℕ} (s : Server) (v : IsSound j n s) where
  -- The system hands out the connection or listener `n`, which nothing uses yet.
  pub IsSound-opened : IsSound j n (record s { net = opened n s.net })
  IsSound-opened = IsSound-net s v (opened n s.net) λ p h.
      let below = v.owners.used (control p) (s.infos p).conn (h, refl) in
      IsFramed-same s.net (opened n s.net) (s.infos p).conn (v.streams p h) (λ fs q. q)
        (ground arith) refl

  -- The client at `p` gets the listener `n`.
  pub IsSound-listener :
      (p : ℕ)
      → p < s.fresh
      → IsSound j
          (suc n)
          (record s { infos = update s.infos p (record (s.infos p) { public_listener = some n }) })
  IsSound-listener p below =
      IsSound-info s (IsSound-later j j n (suc n) s (omega arith) (omega arith) v) p info refl refl
        refl below (record { given = (v.counted p below).given }) (λ i c h. h)
        (IsOwned-add v.owners (record s { infos = update s.infos p info }) (listener p) more)
    where
      info : ClientInfo
      info = record (s.infos p) { public_listener = some n }

      more :
          (o : Owner) (c : ℕ)
          → Uses (record s { infos = update s.infos p info }) o c
          → Uses s o c ⊎ ((o ≡ listener p) × (c ≡ n))
      more (control q) c u = inl (ground arith)
      more (mapped q i) c u = inl (ground arith)
      more (listener q) c u = elim (Bool-cases (p == q)) [
        | inl same ↦ inr (ap listener (ground arith), ground arith)
        | inr differ ↦ inl (ground arith)
      ]

  -- A client is registered for the connection `n`.
  pub IsSound-registered :
      IsSound (suc j) (suc n) (registered n (record s { net = opened n s.net }))
  IsSound-registered = record {
    numbered =
        registered-IsNumbered n (record s { net = opened n s.net })
          (record { names = v.numbered.names });
    client_ids = omega (arith, v.client_ids);
    conn_ids = λ p h. elim (Bool-cases (s.fresh == p)) [
      | inl new ↦ ground arith
      | inr old ↦ ground (arith, v.conn_ids p)
    ];
    counted = λ p h. elim (Bool-cases (s.fresh == p)) [
      | inl new ↦ rw new (record { given = λ i c e. absurd (nothing i c e) })
      | inr old ↦ rw old (v.counted p (ground arith))
    ];
    owners = IsOwned-add v.owners after (control s.fresh) more;
    streams = λ p h. elim (Bool-cases (s.fresh == p)) [
      | inl new ↦ rw new (opened-IsFramed s.net n (Speaks-nothing _ refl))
      | inr old ↦
          let below : p < s.fresh = ground arith in
          let inside = v.owners.used (control p) (s.infos p).conn (below, refl) in
          rw old (
            IsFramed-same s.net (opened n s.net) (s.infos p).conn (v.streams p below) (λ fs q. q)
              (ground arith) refl)
    ];
    started =
        All-IsTask j (suc j) s.fresh (suc s.fresh) s.tasks (omega arith) (omega arith) v.started;
  }
    where
      after : Server
      after = registered n (record s { net = opened n s.net })

      nothing : (i c : ℕ) → lookup {K = ℕ} {V = ℕ} i [] ≢ some c
      nothing i c e = unfold lookup in cc e

      more : (o : Owner) (c : ℕ) → Uses after o c → Uses s o c ⊎ ((o ≡ control s.fresh) × (c ≡ n))
      more (control q) c u = elim (Bool-cases (s.fresh == q)) [
        | inl new ↦ inr (ap control (ground arith), ground arith)
        | inr old ↦ inl (ground arith)
      ]
      more (mapped q i) c u = elim (Bool-cases (s.fresh == q)) [
        | inl new ↦ absurd (ground (arith, nothing i c))
        | inr old ↦ inl (ground arith)
      ]
      more (listener q) c u = elim (Bool-cases (s.fresh == q)) [
        | inl new ↦ absurd (ground arith)
        | inr old ↦ inl (ground arith)
      ]
