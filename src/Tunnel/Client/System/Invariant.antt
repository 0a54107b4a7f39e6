-- ===== src/Tunnel/Client/System/Invariant.antt =====
-- Every reachable state of the client is sound.
use ngp_mtls.Prelude.{
  ◌⊎◌, ℕ, ◌≡◌, inl, inr, Bool-cases, true, false, Option-cases, none, some, lookup, nat_eq, arith,
  positive,
}
use ngp_mtls.Proto.RoundTrip.{layout}
use ngp_mtls.Tunnel.Net.{write, close}
use ngp_mtls.Tunnel.Client.{Client, init_frame, send_init_config, close_control_conn}
use ngp_mtls.Tunnel.Client.Steps.{send_lem}
use ngp_mtls.Tunnel.Client.Sound.{IsSound, IsSound-send, IsSound-lost, IsSound-connected}
use ngp_mtls.Tunnel.Client.Frames.Sound.{handle_frame-IsSound}
use ngp_mtls.Tunnel.Client.Forward.Sound.{after_round-IsSound}
use ngp_mtls.Tunnel.Client.Run.{connect_to_server-done}
use ngp_mtls.Tunnel.Client.Settings.{init_frame-IsSendable}
use ngp_mtls.Tunnel.Client.System.{
  Step, connects, configures, loses, frame_arrives, reads, IsInitial, Reach, begin, act,
}

pub init_unsent :
    (s : Client)
    → (positive s.remote_port ≡ false) ⊎ (s.control_conn ≡ none)
    → (send_init_config s).1 ≡ s
unfolding send_init_config
init_unsent s why = ground arith

pub init_sent :
    (s : Client) (c : ℕ)
    → positive s.remote_port ≡ true
    → s.control_conn ≡ some c
    → (send_init_config s).1 ≡ record s { net = (write c (layout (init_frame s)) s.net).1 }
unfolding send_init_config
init_sent s c wanted h = ground (arith, send_lem c (init_frame s) s)

send_init_config-IsSound : {n : ℕ} (s : Client) → IsSound n s → IsSound n (send_init_config s).1
send_init_config-IsSound s v = elim (Option-cases s.control_conn) [
  | inl alone ↦ rw (init_unsent s (inr alone)) v
  | inr (c, h) ↦ elim (Bool-cases (positive s.remote_port)) [
    | inr unwanted ↦ rw (init_unsent s (inl unwanted)) v
    | inl wanted ↦ rw (init_sent s c wanted h) (IsSound-send s v c (init_frame s) h v.init_fits)
  ]
]

pub lost_none : (s : Client) → s.control_conn ≡ none → (close_control_conn s).1 ≡ s
unfolding close_control_conn
lost_none s h = ground arith

pub lost_some :
    (s : Client) (c : ℕ)
    → s.control_conn ≡ some c
    → (close_control_conn s).1 ≡ record s { control_conn = none; net = close c s.net }
unfolding close_control_conn
lost_some s c h = ground arith

close_control_conn-IsSound : {n : ℕ} (s : Client) → IsSound n s → IsSound n (close_control_conn s).1
close_control_conn-IsSound s v = elim (Option-cases s.control_conn) [
  | inl alone ↦ rw (lost_none s alone) v
  | inr (c, h) ↦ rw (lost_some s c h) (IsSound-lost s v c h)
]

pub close_control_conn-gone :
    (s : Client)
    → ((close_control_conn s).1.control_conn ≡ none) × ((close_control_conn s).1.tasks ≡ s.tasks)
unfolding close_control_conn
close_control_conn-gone s = ground arith

-- One action.
pub client_Step-IsSound : {n n' : ℕ} {s s' : Client} → IsSound n s → Step n s n' s' → IsSound n' s'
client_Step-IsSound {n} {n'} {s} v (connects h) =
    rw (connect_to_server-done n s) (IsSound-connected s v h)
client_Step-IsSound {s} v configures = send_init_config-IsSound s v
client_Step-IsSound {s} v loses = close_control_conn-IsSound s v
client_Step-IsSound {s} v (frame_arrives f r fits) = handle_frame-IsSound f r s v fits
client_Step-IsSound {s} v (reads k l poll there q) =
    after_round-IsSound k s v (v.tasks_below k l there).1 l poll q

IsInitial-IsSound : (n : ℕ) (s : Client) → IsInitial s → IsSound n s
unfolding lookup
IsInitial-IsSound n s v = record {
  init_fits = init_frame-IsSendable s v.configured;
  control_below = λ c h. cc (v.no_control, h);
  tasks_below = λ k l h. absurd (rw v.no_tasks at h);
  apart = λ k l h. absurd (rw v.no_tasks at h);
  stream = λ c h. absurd (cc (v.no_control, h));
  mapped = λ k l h. absurd (cc (rw v.no_locals at h));
  accounted = λ c h. absurd (cc (v.none_open c, h));
}

-- Whatever the server sends, however dials and reads turn out, whenever the connection to the
-- server is lost and made again, and in whatever order the goroutines run: the control connection
-- carries whole frames, no goroutine reads it as a local connection, every connection in the map
-- has its goroutine, and everything that is open is the control connection or has its goroutine.
pub client_Reach-IsSound : {n : ℕ} {s : Client} → Reach n s → IsSound n s
client_Reach-IsSound {n} {s} (begin v) = IsInitial-IsSound n s v
client_Reach-IsSound (act r st) = client_Step-IsSound (client_Reach-IsSound r) st
