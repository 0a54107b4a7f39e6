-- ===== src/Examples/Delivering.antt =====
-- The bytes of an outside connection arrive at the local service.
use ngp_mtls.Prelude.{
  ◌≡◌, refl, true, false, some, [], ◌∷◌, codes, lookup, nat_eq, eof, ok, arith, inr,
}
use ngp_mtls.Proto
use ngp_mtls.Proto.{data_frame}
use ngp_mtls.Proto.RoundTrip.{stream}
use ngp_mtls.Tunnel.Client.Frames.{handle_connection}
use ngp_mtls.Tunnel.Client.Frames.Demux.{handle_all_nothing}
use ngp_mtls.Tunnel.Delivery.{IsDialling, delivers}
use ngp_mtls.Proto.{Frame}
use ngp_mtls.Proto.RoundTrip.{layout, wire, IsSendable}
use ngp_mtls.Tunnel.Net.{write}
use ngp_mtls.Tunnel.Server.{Server, Returns}
use ngp_mtls.Tunnel.Server.Frames.{handle_frames}
use ngp_mtls.Tunnel.Server.Frames.Sink.{IsSink}
use ngp_mtls.Tunnel.Client.{Client, init_frame}
use ngp_mtls.Tunnel.Client.Steps.{after_send}
use ngp_mtls.Tunnel.Client.Forward.{got}
use ngp_mtls.Tunnel.Client.Forward.Said.{after_round_forwards}
use ngp_mtls.Tunnel.Client.System.{Reach, act, reads}
use ngp_mtls.Tunnel.Client.System.Invariant.{client_Reach-IsSound}
use ngp_mtls.Tunnel.Client.System.History.{taken}
use ngp_mtls.Tunnel.Delivery.Upstream.{delivers_upstream}
use ngp_mtls.Examples.Connecting.{starting, working, working_reached}
use ngp_mtls.Examples.Data.{idle_client, server, info, name, registered_name}
use ngp_mtls.Prelude.{ℕ, none, inl, List, ◌++◌, All, bytes_eq}
use ngp_mtls.Examples.Reaching.{
  spoken, spoken_reached, spoken_unlimited, said_whole, said-IsSendable,
}

client-IsDialling : IsDialling idle_client 20 (ok 21 ∷ [])
unfolding lookup
client-IsDialling = record {
  dials = refl;
  later = ((λ h. ground arith), tt);
  unlimited = refl;
  apart = λ h. cc;
  unmapped = λ i h. cc;
}

delivers_example :
    ((handle_connection 2 false (stream (spoken.net.sent 6) eof) idle_client).1.net.sent 20
      ≡ codes "ab")
    × ((handle_connection 2 false (stream (spoken.net.sent 6) eof) idle_client).1.net.is_open 20
        ≡ true)
    × (lookup 1 (handle_connection 2 false (stream (spoken.net.sent 6) eof) idle_client).1.conn_map
        ≡ some 20)
delivers_example =
    delivers spoken_reached 0 1 [] (data_frame 1 (codes "ab") ∷ []) idle_client 20 (ok 21 ∷ []) 2
      eof (omega arith) (omega arith) spoken_unlimited said-IsSendable said_whole
      (inr (λ h. omega (arith, h)), tt) (rw (handle_all_nothing idle_client) client-IsDialling)
      (omega arith)

-- The local service answers.
abbrev answered : Client
answered = after_send 6 (data_frame 1 (codes "yes")) working

answer_fits : (write 6 (layout (data_frame 1 (codes "yes"))) working.net).0 ≡ none
unfolding write
answer_fits = refl

answered_reached : Reach 8 answered
answered_reached =
    rw (after_round_forwards 1 working (omega arith) 7 (codes "yes") 6 refl refl answer_fits) at
      (act working_reached (reads 1 7 (got (codes "yes")) (inl refl) (omega arith)))

answer_unlimited : answered.net.limit 6 ≡ none
unfolding write
answer_unlimited = refl

abbrev greeting : List Frame
greeting = init_frame starting ∷ []

abbrev answer : List Frame
answer = data_frame 1 (codes "yes") ∷ []

answer_whole : answered.net.sent 6 ≡ wire (greeting ++ answer)
unfolding write Proto.put_uint32
answer_whole = refl

answer-IsSendable : All IsSendable (greeting ++ answer)
answer-IsSendable = (
  (client_Reach-IsSound working_reached).init_fits,
  (
    (
      record { type_fits = omega arith; id_fits = omega arith; payload_bytes = omega arith },
      omega arith,
    ),
    tt,
  ),
)

-- The server, whose client has one outside connection.
abbrev waiting : Server
waiting = record server { infos = λ p. record info { conn_map = (1, 9) ∷ [] } }

waiting_maps : lookup 1 (waiting.infos 0).conn_map ≡ some 9
unfolding lookup
waiting_maps = refl

waiting-IsSink : IsSink waiting name 0 1 9
unfolding lookup
waiting-IsSink = record {
  unlocked = refl;
  registered = registered_name;
  mapped = waiting_maps;
  public_open = refl;
  unlimited = refl;
  once = only;
  not_control = λ h. omega (arith, h);
  undialled = ((λ h. ground arith), ((λ h. ground arith), tt));
}
  where
    only : (i : ℕ) → lookup i (waiting.infos 0).conn_map ≡ some 9 → i ≡ 1
    only i h = ground arith

delivers_upstream_example :
    Returns (handle_frames 2 (λ _. false) name 1 (stream (wire answer) eof) waiting) λ ended t'.
      (ended ≡ true)
      × (t'.net.sent 9 ≡ [] ++ taken answered_reached 1)
      × (t'.net.is_open 9 ≡ true)
      × (lookup 1 (t'.infos 0).conn_map ≡ some 9)
delivers_upstream_example =
    delivers_upstream answered_reached 6 1 greeting answer waiting name 0 9 1 2 eof refl
      answer_unlimited answer-IsSendable answer_whole ((λ h. omega (arith, h)), tt)
      (inr (λ h. omega (arith, h)), tt) waiting-IsSink (λ h. omega (arith, h)) (omega arith)
