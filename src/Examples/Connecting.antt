-- ===== src/Examples/Connecting.antt =====
-- A client from its start: it connects, and a local connection is dialled for it.
use ngp_mtls.Prelude.{
  ◌∷◌, [], ℕ, inl, Has, ◌⊎◌, ◌+◌, ◌≤◌, suc, ◌≡◌, ◌≢◌, refl, true, false, none, some, List, [], All,
  codes, length, nat_eq, bytes_eq, arith, eof, pos,
}
use ngp_mtls.Proto
use ngp_mtls.Proto.{Frame, bare_frame}
use ngp_mtls.Proto.RoundTrip.{layout, wire, IsSendable, stream}
use ngp_mtls.Tunnel.Net.{Net, opened, write}
use ngp_mtls.Tunnel.Server.{◌>>◌, pure, close_conn}
use ngp_mtls.Tunnel.Server.Frames.{handle_frames}
use ngp_mtls.Tunnel.Server.Frames.Loop.{handle_all}
use ngp_mtls.Tunnel.Client.{Client, init_frame}
use ngp_mtls.Tunnel.Client.Run.{new_client, connect_to_server-done}
use ngp_mtls.Tunnel.Client.Frames.Dialled.{dialled, handle_frame-dialled}
use ngp_mtls.Tunnel.Client.Settings.{IsConfigured}
use ngp_mtls.Tunnel.Client.Sound.{IsSound}
use ngp_mtls.Tunnel.Client.System.{
  offered, IsInitial, Reach, Winding, unwound, unwinds, after_round, begin, act, connects,
  frame_arrives, configures,
}
use ngp_mtls.Tunnel.Client.System.Invariant.{client_Reach-IsSound, init_sent}
use ngp_mtls.Tunnel.Client.{close_control_conn}
use ngp_mtls.Tunnel.Client.Forward.{ctx_done, forward_local}
use ngp_mtls.Tunnel.Client.System.Safety.{IsAtRest, shutdown, server_reads}
use ngp_mtls.Examples.Data.{name, server}

abbrev pub quiet : Net
quiet = record { is_open = λ c. false; sent = λ c. []; limit = λ c. none; dials = [] }

abbrev pub starting : Client
starting = new_client (codes "example.org:7000") (codes "127.0.0.1:80") (pos 8080) quiet

starting-IsConfigured : IsConfigured starting
starting-IsConfigured = record {
  port_fits = omega arith;
  addr_bytes = omega arith;
  addr_fits = omega arith;
}

starting-IsInitial : IsInitial starting
starting-IsInitial = record {
  configured = starting-IsConfigured;
  no_control = refl;
  no_tasks = refl;
  no_locals = refl;
  none_open = λ c. refl;
}

abbrev pub connected : Client
connected = record starting { control_conn = some 6; net = opened 6 starting.net }

connected_reached : Reach 7 connected
connected_reached =
    rw (connect_to_server-done 6 starting) at
      (act {n = 6} {n' = 7} {s = starting} (begin starting-IsInitial) (connects refl))

abbrev pub configured : Client
configured = record connected { net = (write 6 (layout (init_frame connected)) connected.net).1 }

configured_reached : Reach 7 configured
configured_reached =
    rw (init_sent connected 6 refl refl) at
      (act {n = 7} {n' = 7} {s = connected} connected_reached configures)

abbrev pub ready : Client
ready = offered 7 none configured

abbrev pub working : Client
working = dialled ready 1 7 []

pub working_reached : Reach 8 working
working_reached = rw (handle_frame-dialled 1 7 ready [] refl) at (
    act {n = 7} {n' = 8} {s = configured} configured_reached
      (frame_arrives (bare_frame Proto.new_conn 1) none (omega arith)))

takes_more : working.net.limit 6 ≢ some 0
unfolding write
takes_more h = cc

client_Reach-IsSound_example : IsSound 8 working
client_Reach-IsSound_example = client_Reach-IsSound working_reached

-- The goroutine of the local connection finds the context cancelled.
abbrev wound : Client
wound = after_round 1 7 (forward_local 1 7 (ctx_done ∷ []) working)

shutdown_example :
    (1 + length wound.tasks ≤ length working.tasks)
    × (((x : ℕ × ℕ) × Has x wound.tasks) ⊎ IsAtRest (close_control_conn wound).1)
    × ((i : ℕ) × (u : Client) × Winding working i u × IsAtRest (close_control_conn u).1)
shutdown_example = shutdown working_reached (unwinds 1 7 unwound (inl refl))

server_reads_example :
    (fs : List Frame) × All IsSendable fs
    × (working.net.sent 6 ≡ wire fs)
    × (handle_frames
          (suc (length (working.net.sent 6)))
          (λ _. false)
          name
          1
          (stream (working.net.sent 6) eof)
          server
        ≡ (do handle_all name fs; close_conn 1; pure true) server)
server_reads_example = server_reads 6 eof name 1 server working_reached refl takes_more
