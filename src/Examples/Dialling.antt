-- ===== src/Examples/Dialling.antt =====
-- The client at work.
use ngp_mtls.Prelude.{
  All, codes, inl, inr, ℕ, ◌≡◌, ◌≢◌, ◌⊎◌, refl, true, false, none, some, List, [], ◌∷◌, ◌++◌,
  lookup, nat_eq, bytes_eq, arith, eof, other, cancelled, ok, err,
}
use ngp_mtls.Proto
use ngp_mtls.Proto.{Frame, bare_frame, data_frame, Stream}
use ngp_mtls.Proto.RoundTrip.{layout, stream}
use ngp_mtls.Examples.Wire.{hi_bytes}
use ngp_mtls.Examples.Data.{client, idle_client, mapped_client, client-IsServing}
use ngp_mtls.Tunnel.Client.Frames.Sink.{IsSink, Keeps}
use ngp_mtls.Tunnel.Client.Frames.Demux.{demultiplexes}
use ngp_mtls.Tunnel.Client.Frames.{handle_all}
use ngp_mtls.Tunnel.Client.Forward.{forward_local, failed}
use ngp_mtls.Tunnel.Client.Forward.Stale.{forward_local_stale}
use ngp_mtls.Tunnel.Client.Run.{Round, run}
use ngp_mtls.Tunnel.Client.{Client}
use ngp_mtls.Tunnel.Client.Run.Ends.{run_ends}

-- The server cannot be reached, then it sends a frame and ends the connection.
abbrev rounds : List Round
rounds =
    record {
      stop = false;
      connects = err (other 0);
      incoming = stream [] eof;
      served = 0;
      stop_serving = false;
      stop_waiting = false;
    }
    ∷ record {
      stop = false;
      connects = ok 40;
      incoming = stream hi_bytes eof;
      served = 1;
      stop_serving = false;
      stop_waiting = false;
    }
    ∷ []

not_mapped : lookup 5 client.conn_map ≢ some 2
unfolding lookup
not_mapped = λ h. ground arith

forward_local_stale_example :
    (lookup 5 (forward_local 5 8 (failed eof ∷ []) client).1.conn_map ≡ none)
    × ((forward_local 5 8 (failed eof ∷ []) client).1.net.is_open 3 ≡ true)
    × ((forward_local 5 8 (failed eof ∷ []) client).1.net.sent 2
        ≡ client.net.sent 2 ++ layout (bare_frame Proto.close 5))
forward_local_stale_example =
    forward_local_stale 5 2 3 8 eof client client-IsServing (omega arith) (omega arith)

-- The connection to the server is 40, and is not there at first.
abbrev offline : Client
offline = record idle_client { net = record idle_client.net { is_open = λ c. false } }

run_ends_example :
    ((run rounds offline).1.control_conn ≡ none)
    × (((run rounds offline).0 ≡ none) ⊎ ((run rounds offline).0 ≡ some cancelled))
    × ((run rounds offline).1.net.is_open 40 ≡ false)
run_ends_example =
    run_ends rounds offline 40 refl refl ((λ h. ground arith), ((λ h. ground arith), tt))

client-IsSink : IsSink client 5 3
unfolding lookup
client-IsSink = record {
  mapped = mapped_client;
  local_open = refl;
  unlimited = refl;
  once = only;
  undialled = ((λ h. ground arith), ((λ h. ground arith), tt));
  apart = λ h. ground arith;
}
  where
    only : (j : ℕ) → lookup j client.conn_map ≡ some 3 → j ≡ 5
    only j h = ground arith

-- Another connection comes and goes between the bytes of this one.
abbrev mixed : List Frame
mixed =
    bare_frame Proto.new_conn 6
    ∷ data_frame 5 (codes "ab")
    ∷ data_frame 6 (codes "x")
    ∷ bare_frame Proto.close 6
    ∷ data_frame 5 (codes "c")
    ∷ []

mixed-Keeps : All (Keeps 5) mixed
mixed-Keeps = (
  inl (λ h. omega (arith, h)),
  (
    inr ((λ h. omega (arith, h)), (λ h. omega (arith, h))),
    (
      inl (λ h. omega (arith, h)),
      (inl (λ h. omega (arith, h)), (inr ((λ h. omega (arith, h)), (λ h. omega (arith, h))), tt)),
    ),
  ),
)

demultiplexes_example :
    ((handle_all mixed client).1.net.sent 3 ≡ [] ++ codes "abc")
    × IsSink (handle_all mixed client).1 5 3
demultiplexes_example = demultiplexes 5 3 mixed client client-IsSink mixed-Keeps
