-- ===== src/Tunnel/Server/System/Order.antt =====
-- The order of what the server says on a control connection, in every reachable state.
use ngp_mtls.Prelude.{
  ℕ, suc, ◌^◌, ◌<◌, ◌≡◌, ◌≢◌, ap, sym, ◌∙◌, some, List, ◌∷◌, ◌++◌, All, eof, length, arith,
}
use ngp_mtls.Proto.{Frame}
use ngp_mtls.Proto.RoundTrip.{wire, IsSendable, stream}
use ngp_mtls.Tunnel.Framed.{IsFramed-whole}
use ngp_mtls.Tunnel.Protocol.Grammar.{Allowed, ordered-Allowed}
use ngp_mtls.Tunnel.Client.Frames.{read_frames}
use ngp_mtls.Tunnel.Client.Frames.Serve.{read_frames-wire, frames≤bytes}
use ngp_mtls.Tunnel.Server.{Server}
use ngp_mtls.Tunnel.Server.System.{Reach}
use ngp_mtls.Tunnel.Server.System.Invariant.{Reach-IsReady}

pub wire_inj :
    (fs gs : List Frame) → All IsSendable fs → All IsSendable gs → wire fs ≡ wire gs → fs ≡ gs
wire_inj fs gs v w e =
    let n = suc (length (wire gs)) in
    let enough : length fs < n = omega (arith, frames≤bytes fs, ap length e) in
    let one = read_frames-wire n fs eof v enough in
    let other = read_frames-wire n gs eof w (omega (arith, frames≤bytes gs)) in
    let same : read_frames n (stream (wire fs) eof) ≡ read_frames n (stream (wire gs) eof) =
      ap (λ b. read_frames n (stream b eof)) e in
    ap (λ r. r.0) (sym one ∙ same ∙ other)

-- In a state that the server reaches in fewer than 2^32 actions, before its `Run` ends with a client
-- registered, if what was written to a control
-- connection that still takes bytes is the encoding of the well-formed frames `xs`, `f`, `ys` in
-- this order, then `f` is NEW_CONN with a number above all that `xs` announces, or DATA for a
-- number that NEW_CONN announces in `xs`, or CLOSE_CONN: a client hears of each connection before
-- it gets bytes for it, and never twice.
pub server_speaks :
    {j n : ℕ} {s : Server} (p : ℕ) (xs : List Frame) (f : Frame) (ys : List Frame)
    → Reach j n s
    → j < 2 ^ 32
    → p < s.fresh
    → s.net.limit (s.infos p).conn ≢ some 0
    → All IsSendable (xs ++ f ∷ ys)
    → s.net.sent (s.infos p).conn ≡ wire (xs ++ f ∷ ys)
    → Allowed xs f
server_speaks {s} p xs f ys reached small below takes sendable sent =
    let framed = (Reach-IsReady reached small).0.streams p below in
    let whole = IsFramed-whole s.net (s.infos p).conn framed takes in
    ordered-Allowed xs f ys framed.good.ordered
      (wire_inj framed.frames (xs ++ f ∷ ys) framed.sendable sendable (sym whole ∙ sent))
