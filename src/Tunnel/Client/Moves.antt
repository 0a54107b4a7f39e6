-- ===== src/Tunnel/Client/Moves.antt =====
-- What an action of the client adds to what it has said to the server.
use ngp_mtls.Prelude.{ℕ, ◌≡◌, ◌≢◌, refl, ◌∙◌, inl, inr, Option-cases, none, some, [], ◌∷◌, Bytes}
use ngp_mtls.Proto.{Frame}
use ngp_mtls.Proto.RoundTrip.{layout, IsSendable}
use ngp_mtls.Tunnel.Net.{write}
use ngp_mtls.Tunnel.Protocol.Carried.{bytes_for}
use ngp_mtls.Tunnel.Saying.{
  Says, silence, Says-same, Says-trans, Says-write, Says-write_failed, Says-as,
}
use ngp_mtls.Tunnel.Client.{Client}
use ngp_mtls.Tunnel.Client.Steps.{after_send}

-- What holds of an action that leads from `s` to `s'`, and keeps the control connection; `b k` is
-- what it tells the server for the number `k`.
pub record Moves (b : ℕ → Bytes) (s s' : Client) : Type 0 where
  pub control : s'.control_conn ≡ s.control_conn
  pub says : (c : ℕ) → s.control_conn ≡ some c → Says b c s.net s'.net

-- Nothing is written to the control connection.
pub Moves-quiet :
    (s s' : Client)
    → s'.control_conn ≡ s.control_conn
    → ((c : ℕ) → s.control_conn ≡ some c → s'.net.sent c ≡ s.net.sent c)
    → ((c : ℕ) → s.control_conn ≡ some c → s'.net.limit c ≡ s.net.limit c)
    → Moves silence s s'
Moves-quiet s s' control sent limit = record {
  control = control;
  says = λ c h. Says-same c s.net s'.net (sent c h) (limit c h);
}

pub Moves-refl : (s : Client) → Moves silence s s
Moves-refl s = Moves-quiet s s refl (λ c h. refl) (λ c h. refl)

pub Moves-trans : {b : ℕ → Bytes} (s t u : Client) → Moves silence s t → Moves b t u → Moves b s u
Moves-trans s t u m n = record {
  control = n.control ∙ m.control;
  says = λ c h. Says-trans c s.net t.net u.net (m.says c h) (n.says c (m.control ∙ h));
}

pub Moves-as :
    {b b' : ℕ → Bytes} (s s' : Client) → ((k : ℕ) → b k ≡ b' k) → Moves b s s' → Moves b' s s'
Moves-as s s' same m = record {
  control = m.control;
  says = λ c h. Says-as c s.net s'.net same (m.says c h);
}

-- A frame on the control connection, written whole.
pub Moves-send :
    {b : ℕ → Bytes} (s : Client) (c : ℕ) (f : Frame)
    → s.control_conn ≡ some c
    → IsSendable f
    → (write c (layout f) s.net).0 ≡ none
    → ((k : ℕ) → bytes_for k (f ∷ []) ≡ b k)
    → Moves b s (after_send c f s)
Moves-send s c f h sendable fine carries = record {
  control = refl;
  says = λ d hd.
      let same : c ≡ d = cc (h, hd) in rw (← same) (Says-write s.net c f sendable fine carries);
}

-- A write that fails.
pub Moves-lost :
    (s : Client) (c : ℕ) (f : Frame)
    → s.control_conn ≡ some c
    → (write c (layout f) s.net).0 ≢ none
    → Moves silence s (after_send c f s)
Moves-lost s c f h failed = record {
  control = refl;
  says = λ d hd. let same : c ≡ d = cc (h, hd) in rw (← same) (Says-write_failed s.net c f failed);
}

-- A frame that carries no bytes of a connection.
pub Moves-tell :
    (s : Client) (c : ℕ) (f : Frame)
    → s.control_conn ≡ some c
    → IsSendable f
    → ((k : ℕ) → bytes_for k (f ∷ []) ≡ [])
    → Moves silence s (after_send c f s)
Moves-tell s c f h sendable bare = elim (Option-cases (write c (layout f) s.net).0) [
  | inl fine ↦ Moves-send s c f h sendable fine bare
  | inr (e, bad) ↦ Moves-lost s c f h (λ x. cc (x, bad))
]
