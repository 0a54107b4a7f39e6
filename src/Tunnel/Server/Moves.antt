-- ===== src/Tunnel/Server/Moves.antt =====
-- What an action of the server adds to what it has said to its clients.
use ngp_mtls.Prelude.{
  ℕ, ◌<◌, ◌≡◌, refl, ◌∙◌, inl, inr, Bool-cases, Option-cases, [], Bytes, ◌==◌, arith,
}
use ngp_mtls.Proto.{Frame}
use ngp_mtls.Proto.RoundTrip.{layout, IsSendable}
use ngp_mtls.Tunnel.Net.{Net, write}
use ngp_mtls.Tunnel.Server.{Server}
use ngp_mtls.Tunnel.Saying.{
  Says, Says-same, Says-trans, Says-write, Says-write_failed, Says-write_other, Says-as, silence,
}

-- What holds of an action that leads from `s` to `s'`; `b p k` is what it tells the client at `p`
-- for the number `k`.
pub record Moves (b : ℕ → ℕ → Bytes) (s s' : Server) : Type 0 where
  pub fresh : s'.fresh ≡ s.fresh
  pub conns : (p : ℕ) → p < s.fresh → (s'.infos p).conn ≡ (s.infos p).conn
  pub says : (p : ℕ) → p < s.fresh → Says (b p) (s.infos p).conn s.net s'.net

abbrev pub nobody : ℕ → ℕ → Bytes
nobody p k = []

-- The network changes.
pub Moves-net :
    {b : ℕ → ℕ → Bytes} (s : Server) (w : Net)
    → ((p : ℕ) → p < s.fresh → Says (b p) (s.infos p).conn s.net w)
    → Moves b s (record s { net = w })
Moves-net s w says = record { fresh = refl; conns = λ p h. refl; says = says }

-- Nothing is written to a control connection.
pub Moves-quiet :
    (s s' : Server)
    → s'.fresh ≡ s.fresh
    → ((p : ℕ) → p < s.fresh → (s'.infos p).conn ≡ (s.infos p).conn)
    → ((p : ℕ) → p < s.fresh → s'.net.sent (s.infos p).conn ≡ s.net.sent (s.infos p).conn)
    → ((p : ℕ) → p < s.fresh → s'.net.limit (s.infos p).conn ≡ s.net.limit (s.infos p).conn)
    → Moves nobody s s'
Moves-quiet s s' fresh conns sent limit = record {
  fresh = fresh;
  conns = conns;
  says = λ p h. Says-same (s.infos p).conn s.net s'.net (sent p h) (limit p h);
}

pub Moves-refl : (s : Server) → Moves nobody s s
Moves-refl s = Moves-quiet s s refl (λ p h. refl) (λ p h. refl) (λ p h. refl)

pub Moves-trans :
    {b : ℕ → ℕ → Bytes} (s t u : Server) → Moves nobody s t → Moves b t u → Moves b s u
Moves-trans {b} s t u m n = record {
  fresh = n.fresh ∙ m.fresh;
  conns = λ p h. n.conns p (rw m.fresh h) ∙ m.conns p h;
  says = λ p h.
      let after = n.says p (rw m.fresh h) in
      Says-trans (s.infos p).conn s.net t.net u.net (m.says p h) (rw (m.conns p h) at after);
}

-- A frame without bytes to the client at `q`.
pub Moves-send :
    (s : Server) (q : ℕ) (f : Frame)
    → IsSendable f
    → f.payload ≡ []
    → Moves nobody s (record s { net = (write (s.infos q).conn (layout f) s.net).1 })
Moves-send s q f sendable bare = Moves-net s (write (s.infos q).conn (layout f) s.net).1 λ p h.
    elim (Bool-cases ((s.infos p).conn == (s.infos q).conn)) [
      | inr differ ↦
          Says-write_other s.net (s.infos p).conn (s.infos q).conn (layout f) (ground arith)
      | inl same ↦
          let e : (s.infos p).conn ≡ (s.infos q).conn = ground arith in
          rw e (bare_says (s.infos q).conn)
    ]
  where
    bare_says : (c : ℕ) → Says silence c s.net (write c (layout f) s.net).1
    bare_says c = elim (Option-cases (write c (layout f) s.net).0) [
      | inl fine ↦ Says-write s.net c f sendable fine (λ k. ground (arith, bare))
      | inr (e, bad) ↦ Says-write_failed s.net c f (λ h. cc (h, bad))
    ]

pub Moves-as :
    {b b' : ℕ → ℕ → Bytes} (s s' : Server)
    → ((p k : ℕ) → b p k ≡ b' p k)
    → Moves b s s'
    → Moves b' s s'
Moves-as s s' same m = record {
  fresh = m.fresh;
  conns = m.conns;
  says = λ p h. Says-as (s.infos p).conn s.net s'.net (same p) (m.says p h);
}
