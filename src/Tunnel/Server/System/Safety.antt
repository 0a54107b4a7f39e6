-- ===== src/Tunnel/Server/System/Safety.antt =====
-- What the server can rely on in every reachable state.
use ngp_mtls.Prelude.{
  ℕ, suc, ◌^◌, ◌<◌, ◌≡◌, ◌≢◌, ap, sym, Option, none, some, List, Bytes, All, Error, ok, length,
  lookup, bytes_eq, nat_eq, arith,
}
use ngp_mtls.Proto.{Frame}
use ngp_mtls.Proto.RoundTrip.{wire, IsSendable, stream}
use ngp_mtls.Tunnel.Client.Frames.{read_frames}
use ngp_mtls.Tunnel.Client.Frames.Serve.{read_frames-wire, frames≤bytes}
use ngp_mtls.Tunnel.Server.{Server, Returns}
use ngp_mtls.Tunnel.Server.Frames.{handle_frame}
use ngp_mtls.Tunnel.Server.Frames.Isolation.{Foreign, Untouched, handle_frame_isolated}
use ngp_mtls.Tunnel.Framed.{IsFramed-whole}
use ngp_mtls.Tunnel.Server.Sound.{Owner, control, mapped, listener, Uses, IsSound}
use ngp_mtls.Tunnel.Server.System.{Reach, offered, answer}
use ngp_mtls.Tunnel.Server.System.Invariant.{Reach-IsReady}

-- In a state that the server reaches in fewer than 2^32 actions, a connection or listener has one
-- use only: it belongs to one client, as its control connection, as its listener, or under one
-- number of its map. All of them have been opened before.
one_use :
    {j n : ℕ} {s : Server} (o o' : Owner) (c : ℕ)
    → Reach j n s
    → j < 2 ^ 32
    → Uses s o c
    → Uses s o' c
    → (o ≡ o') × (c < n)
one_use o o' c r small u u' =
    let (v, h) = Reach-IsReady r small in (v.owners.unique o o' c u u', v.owners.used o c u)

abbrev client_of : Owner → ℕ
client_of (control p) = p
client_of (mapped p k) = p
client_of (listener p) = p

used-Foreign :
    {j n : ℕ} {s : Server} (o : Owner) (p c : ℕ) (r : Option Error)
    → IsSound j n s
    → p < s.fresh
    → Uses s o c
    → client_of o ≢ p
    → Foreign (offered n r s) p c
used-Foreign {n} {s} o p c r v below u ne = record {
  not_control = λ e. ne (ap client_of (v.owners.unique o (control p) c u (below, sym e)));
  not_mapped = λ k m. ne (ap client_of (v.owners.unique o (mapped p k) c u (below, m)));
  not_dialled = (fresh_answer r, tt);
}
  where
    fresh_answer : (r : Option Error) → answer n r ≢ ok c
    fresh_answer none e = ground (arith, v.owners.used o c u)
    fresh_answer (some x) e = cc

-- In a state that the server reaches in fewer than 2^32 actions, before its `Run` ends with a
-- client registered, a frame of the client registered at `p`, whatever its type and payload and
-- whether or not the system grants a listener, is handled to the end, and touches no connection
-- or listener that another client uses, nor that client's record.
pub reach_isolated :
    {j n : ℕ} {s : Server} (id : Bytes) (f : Frame) (p c : ℕ) (o : Owner) (r : Option Error)
    → Reach j n s
    → j < 2 ^ 32
    → lookup id s.clients ≡ some p
    → Uses s o c
    → client_of o ≢ p
    → Returns
        (handle_frame id f (offered n r s))
        (λ _ s'. Untouched (offered n r s) s' (client_of o) c)
reach_isolated {n} {s} id f p c o r reached small found u ne =
    let (v, h) = Reach-IsReady reached small in
    handle_frame_isolated id f (offered n r s) (client_of o) c h p found ne
      (used-Foreign o p c r v (v.numbered.names id p found).0 u ne)

-- In a state that the server reaches in fewer than 2^32 actions, before its `Run` ends with a
-- client registered, whatever was written to a control connection that still takes bytes is what
-- a client reads back: when these bytes arrive and then the error `e`, its reading goroutine
-- decodes some list of well-formed frames, whose encoding is exactly these bytes, and ends with
-- `e`.
pub control_stream :
    {j n : ℕ} {s : Server} (p : ℕ) (e : Error)
    → Reach j n s
    → j < 2 ^ 32
    → p < s.fresh
    → s.net.limit (s.infos p).conn ≢ some 0
    → (fs : List Frame) × All IsSendable fs
      × (s.net.sent (s.infos p).conn ≡ wire fs)
      × (read_frames
            (suc (length (s.net.sent (s.infos p).conn)))
            (stream (s.net.sent (s.infos p).conn) e)
          ≡ (fs, some e))
control_stream {s} p e reached small below takes =
    let (v, h) = Reach-IsReady reached small in
    let framed = v.streams p below in
    let whole = IsFramed-whole s.net (s.infos p).conn framed takes in
    (
      framed.frames,
      framed.sendable,
      whole,
      rw (whole) (
          read_frames-wire (suc (length (wire framed.frames))) framed.frames e framed.sendable
            (omega (arith, frames≤bytes framed.frames))),
    )
