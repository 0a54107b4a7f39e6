-- ===== src/Tunnel/Client/System/History.antt =====
-- The bytes that the client passes on, against the rounds of its reading goroutines, in any order
-- of actions.
use ngp_mtls.Prelude.{
  ℕ, ◌≡◌, refl, ap, sym, ◌∙◌, inl, inr, Bool-cases, Option-cases, none, some, List, [], ◌∷◌, ◌++◌,
  All, All-append, Bytes, arith, positive,
}
use ngp_mtls.Proto.{Frame}
use ngp_mtls.Proto.RoundTrip.{wire, wire-append, IsSendable}
use ngp_mtls.Tunnel.Net.{opened}
use ngp_mtls.Tunnel.Protocol.Carried.{bytes_for, bytes_for-append}
use ngp_mtls.Tunnel.Saying.{silence}
use ngp_mtls.Tunnel.Client.{Client, init_frame, send_init_config}
use ngp_mtls.Tunnel.Client.Moves.{Moves, Moves-refl, Moves-tell}
use ngp_mtls.Tunnel.Client.Sound.{IsSound}
use ngp_mtls.Tunnel.Client.Frames.Said.{handle_frame-Moves}
use ngp_mtls.Tunnel.Client.Forward.{forward_local}
use ngp_mtls.Tunnel.Client.Forward.Said.{passed_on, after_round-Moves}
use ngp_mtls.Tunnel.Client.Run.{connect_to_server-done}
use ngp_mtls.Tunnel.Client.System.{
  Step, connects, configures, loses, frame_arrives, reads, Reach, begin, act,
}
use ngp_mtls.Tunnel.Client.System.Invariant.{
  client_Reach-IsSound, init_unsent, init_sent, close_control_conn-gone,
}

-- What an action makes of the bytes `b` passed on since the client has connected: those of a
-- round that goes on come behind them.
abbrev pub since : {n n' : ℕ} {s s' : Client} → Step n s n' s' → (ℕ → Bytes) → ℕ → Bytes
since (connects h) b k = []
since {s = s} (reads i l poll there ok_poll) b k =
    b k ++ passed_on i poll (forward_local i l (poll ∷ []) s).0 k
since configures b k = b k ++ []
since loses b k = b k ++ []
since (frame_arrives f r fits) b k = b k ++ []

-- All that was passed on since the client has connected.
abbrev pub taken : {n : ℕ} {s : Client} → Reach n s → ℕ → Bytes
taken (begin v) k = []
taken (act r st) k = since st (taken r) k

-- Where the control connection takes all that is written to it, what was written is whole frames,
-- which carry `b k` for each number `k`.
abbrev pub Told : (ℕ → Bytes) → Client → Type 0
Told b s =
    (c : ℕ)
    → s.control_conn ≡ some c
    → s.net.limit c ≡ none
    → (fs : List Frame) × All IsSendable fs
      × (s.net.sent c ≡ wire fs)
      × ((k : ℕ) → bytes_for k fs ≡ b k)

Told-Moves :
    {b b' : ℕ → Bytes} (s s' : Client) → Told b s → Moves b' s s' → Told (λ k. b k ++ b' k) s'
Told-Moves {b} s s' v m c h limit =
    let h' : s.control_conn ≡ some c = sym m.control ∙ h in
    let says = m.says c h' in
    let (fs, sendable, sent, carries) = v c h' (says.limit limit) in
    (
      fs ++ says.frames,
      All-append IsSendable fs says.frames sendable says.sendable,
      says.sent limit ∙ (ap (λ z. z ++ wire says.frames) sent ∙ sym (wire-append fs says.frames)),
      λ k.
          bytes_for-append k fs says.frames
          ∙ (ap (λ z. z ++ bytes_for k says.frames) (carries k)
              ∙ ap (λ z. b k ++ z) (says.carries k)),
    )

send_init_config-Moves : {n : ℕ} (s : Client) → IsSound n s → Moves silence s (send_init_config s).1
send_init_config-Moves s v = elim (Option-cases s.control_conn) [
  | inl alone ↦ rw (init_unsent s (inr alone)) (Moves-refl s)
  | inr (c, h) ↦ elim (Bool-cases (positive s.remote_port)) [
    | inr unwanted ↦ rw (init_unsent s (inl unwanted)) (Moves-refl s)
    | inl wanted ↦
        rw (init_sent s c wanted h) (Moves-tell s c (init_frame s) h v.init_fits (λ k. refl))
  ]
]

Step-Told :
    {n n' : ℕ} {s s' : Client} {b : ℕ → Bytes} (st : Step n s n' s')
    → IsSound n s
    → Told b s
    → Told (since st b) s'
Step-Told {n = n} {s = s} (connects h) v told = rw (connect_to_server-done n s) connected
  where
    connected : Told (λ k. []) (record s { control_conn = some n; net = opened n s.net })
    connected c h' limit = ([], tt, ground arith, λ k. refl)
Step-Told {s = s} configures v told = Told-Moves s _ told (send_init_config-Moves s v)
Step-Told {s = s} loses v told = λ c h limit. absurd (cc ((close_control_conn-gone s).0, h))
Step-Told {s = s} (frame_arrives f r fits) v told =
    Told-Moves s _ told (handle_frame-Moves f r s v fits)
Step-Told {s = s} (reads k l poll there ok_poll) v told =
    Told-Moves s _ told (after_round-Moves k s (v.tasks_below k l there).1 l poll ok_poll)

pub Reach-Told : {n : ℕ} {s : Client} (r : Reach n s) → Told (taken r) s
Reach-Told (begin v) = λ c h limit. absurd (cc (v.no_control, h))
Reach-Told (act r st) = Step-Told st (client_Reach-IsSound r) (Reach-Told r)
