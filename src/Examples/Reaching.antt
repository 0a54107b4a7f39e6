-- ===== src/Examples/Reaching.antt =====
-- A server that two clients and an outside connection have come to.
use ngp_mtls.Prelude.{
  false, ℕ, suc, ◌+◌, ◌^◌, ◌<◌, ◌≡◌, refl, inl, ◌∙◌, true, none, some, List, [], ◌∷◌, Bytes, codes,
  All, eof, length, lookup, insert, lookup-insert, beq_refl, nat_eq, bytes_eq, update, arith,
}
use ngp_mtls.Proto
use ngp_mtls.Proto.{Frame, bare_frame, data_frame}
use ngp_mtls.Proto.RoundTrip.{layout, wire, IsSendable, stream, bare_frame-IsSendable}
use ngp_mtls.Tunnel.Net.{write}
use ngp_mtls.Tunnel.Client.Frames.{read_frames}
use ngp_mtls.Tunnel.Server.{Server, free, done, Returns, public_reader, client_frames}
use ngp_mtls.Tunnel.Server.Clients.Register.{
  next_name, registered, registered-keeps, register_client-registered,
}
use ngp_mtls.Tunnel.Server.Public.{handle_public_connection, got}
use ngp_mtls.Tunnel.Server.Public.Handle.{
  numbered, announced-stored, accepted_for-announced, handle_public_connection-accepted_for,
}
use ngp_mtls.Tunnel.Server.Public.Sound.{reader_turn-unseen, round_mapped, read_fine}
use ngp_mtls.Tunnel.Protocol.Grammar.{Allowed}
use ngp_mtls.Tunnel.Server.System.Order.{server_speaks}
use ngp_mtls.Tunnel.Server.Frames.{handle_frame}
use ngp_mtls.Tunnel.Server.Frames.Isolation.{Untouched}
use ngp_mtls.Tunnel.Server.Sound.{control, Uses, IsReady}
use ngp_mtls.Tunnel.Server.System.{
  IsInitial, Reach, begin, act, client_arrives, outside_arrives, reads, arrived, offered,
}
use ngp_mtls.Tunnel.Server.Keeping.Tidy.{IsKnown}
use ngp_mtls.Tunnel.Server.System.Leaks.{no_leaks}
use ngp_mtls.Tunnel.Server.System.Invariant.{Reach-IsReady}
use ngp_mtls.Tunnel.Server.System.Safety.{reach_isolated, control_stream}
use ngp_mtls.Examples.Wire.{hi}
use ngp_mtls.Examples.Data.{idle_server}

abbrev pub joined : ℕ → Server → Server
joined c s = record (registered c (arrived c s)) { tasks = client_frames (next_name s) c ∷ s.tasks }

abbrev pub joins :
    {j n : ℕ} {s : Server}
    → Reach j n s
    → s.clients_mu ≡ free
    → s.next_client_id + 1 < 2 ^ 32
    → Reach (suc j) (suc n) (joined n s)
joins {j} {n} {s} r h below =
    act r (client_arrives (next_name s) (register_client-registered n (arrived n s) h below))

pub idle-IsInitial : IsInitial idle_server
idle-IsInitial = record {
  unlocked = refl;
  no_clients = refl;
  no_ids = refl;
  no_infos = refl;
  no_readers = tt;
}

abbrev pub two : Server
two = joined 7 (joined 6 idle_server)

two_reached : Reach 2 8 two
two_reached = joins (joins (begin idle-IsInitial) refl (omega arith)) refl (omega arith)

second : Uses two (control 1) 7
second = (omega arith, refl)

Reach-IsReady_example : IsReady 2 8 two
Reach-IsReady_example = Reach-IsReady two_reached (omega arith)

-- An outside connection comes for the first client.
abbrev pub first : Bytes
first = next_name idle_server

abbrev pub one : Server
one = joined 6 idle_server

abbrev pub one_reached : Reach 1 7 one
one_reached = joins (begin idle-IsInitial) refl (omega arith)

pub one_first : lookup first one.clients ≡ some 0
one_first = rw (lookup-insert, beq_refl first) refl

two_first : lookup first two.clients ≡ some 0
two_first =
    let numbered = (Reach-IsReady one_reached (omega arith)).0.numbered in
    (registered-keeps 7 (arrived 7 one) first 0 (record { names = numbered.names }) one_first).0

reach_isolated_example :
    Returns
      (handle_frame first hi (offered 8 none two))
      (λ _ s'. Untouched (offered 8 none two) s' 1 7)
reach_isolated_example =
    reach_isolated first hi 0 7 (control 1) none two_reached (omega arith) two_first second
      (omega arith)

abbrev pub relaying : Server
relaying =
    let s = numbered (arrived 7 one) 0 1 in
    record s {
      infos = update s.infos 0 (record (s.infos 0) { conn_map = insert 1 7 (s.infos 0).conn_map });
      tasks = public_reader 0 first 1 7 ∷ s.tasks;
    }

pub told : (write 6 (layout (bare_frame Proto.new_conn 1)) (arrived 7 one).net).0 ≡ none
unfolding write
told = refl

unlimited : relaying.net.limit 6 ≡ none
unfolding write
unlimited = refl

pub outside_runs : handle_public_connection 7 first (arrived 7 one) ≡ done (tt, relaying)
outside_runs =
    handle_public_connection-accepted_for 7 first (arrived 7 one) 0 refl one_first
    ∙ (accepted_for-announced 7 first (arrived 7 one) 0 (omega arith)
        ∙ rw told (announced-stored 0 first 1 7 (numbered (arrived 7 one) 0 1)))

abbrev pub relaying_reached : Reach 2 8 relaying
relaying_reached = act one_reached (outside_arrives first outside_runs)

control_stream_example :
    (fs : List Frame) × All IsSendable fs
    × (relaying.net.sent 6 ≡ wire fs)
    × (read_frames (suc (length (relaying.net.sent 6))) (stream (relaying.net.sent 6) eof)
        ≡ (fs, some eof))
control_stream_example =
    control_stream 0 eof relaying_reached (omega arith) (omega arith)
      (λ h. ground (arith, unlimited))

-- The outside connection sends two bytes.
abbrev pub spoken : Server
spoken = record relaying { net = (write 6 (layout (data_frame 1 (codes "ab"))) relaying.net).1 }

pub relaying_maps : lookup 1 (relaying.infos 0).conn_map ≡ some 7
relaying_maps = lookup-insert 1 1 7 []

pub told_on : (write 6 (layout (data_frame 1 (codes "ab"))) relaying.net).0 ≡ none
unfolding write
told_on = refl

-- Every state on the way to `spoken`, with the round of the goroutine last.
abbrev pub spoken_reached : Reach 3 8 spoken
spoken_reached =
    let v = Reach-IsReady relaying_reached (omega arith) in
    act relaying_reached (
      reads 0 first 1 7 false (got (codes "ab")) (inl refl)
        ((omega arith, (omega arith, tt)), omega arith)
        (reader_turn-unseen 0 first 1 (got (codes "ab")) relaying
          ∙ (round_mapped 0 first 1 relaying v.0 v.1 (omega arith) (omega arith) (got (codes "ab"))
                7 relaying_maps
              ∙ read_fine 0 first 1 relaying v.0 v.1 (omega arith) (omega arith) (codes "ab") 7 refl
                  relaying_maps told_on)))

abbrev pub said : List Frame
said = bare_frame Proto.new_conn 1 ∷ data_frame 1 (codes "ab") ∷ []

pub spoken_unlimited : spoken.net.limit 6 ≡ none
unfolding write
spoken_unlimited = refl

pub said_whole : spoken.net.sent 6 ≡ wire said
unfolding write Proto.put_uint32
said_whole = refl

pub said-IsSendable : All IsSendable said
said-IsSendable = (
  bare_frame-IsSendable Proto.new_conn 1 (omega arith) (omega arith),
  (
    (
      record { type_fits = omega arith; id_fits = omega arith; payload_bytes = omega arith },
      omega arith,
    ),
    tt,
  ),
)

server_speaks_example : Allowed (bare_frame Proto.new_conn 1 ∷ []) (data_frame 1 (codes "ab"))
server_speaks_example =
    server_speaks 0 (bare_frame Proto.new_conn 1 ∷ []) (data_frame 1 (codes "ab")) [] spoken_reached
      (omega arith) (omega arith) (λ h. ground (arith, spoken_unlimited)) said-IsSendable said_whole

still_open : spoken.net.is_open 7 ≡ true
unfolding write
still_open = refl

no_leaks_example : IsKnown spoken 7
no_leaks_example = no_leaks spoken_reached 7 (omega arith) (inl refl) still_open
