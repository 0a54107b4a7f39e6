-- ===== src/Tunnel/Delivery.antt =====
-- The bytes of one outside connection among all others, from the reads of the server's goroutine
-- to the writes of the client, in any order of the server's actions.
pub mod Upstream
use ngp_mtls.Prelude.{
  ℕ, ◌^◌, ◌≤◌, ◌<◌, ◌≡◌, ◌≢◌, refl, ap, sym, ◌∙◌, ◌⊎◌, inl, inr, true, false, none, some, List, [],
  ◌∷◌, ◌++◌, All, Error, Result, ok, length, lookup, lookup-insert, beq_refl, nat_eq, ◌==◌,
  Bool-cases, arith,
}
use ngp_mtls.Proto
use ngp_mtls.Proto.{Frame, bare_frame}
use ngp_mtls.Proto.RoundTrip.{wire, IsSendable, stream}
use ngp_mtls.Tunnel.Framed.{IsFramed-whole}
use ngp_mtls.Tunnel.Protocol.{IsOrdered}
use ngp_mtls.Tunnel.Protocol.Announced.{Other, Open, announced_once, announced_first}
use ngp_mtls.Tunnel.Protocol.Carried.{bytes_for, bytes_for-append}
use ngp_mtls.Tunnel.Client.{Client}
use ngp_mtls.Tunnel.Client.Frames.{handle_all, handle_connection}
use ngp_mtls.Tunnel.Client.Frames.Dialled.{dialled, handle_all-dialled}
use ngp_mtls.Tunnel.Client.Frames.Sink.{IsSink, Keeps}
use ngp_mtls.Tunnel.Client.Frames.Demux.{demultiplexes, handle_all-append}
use ngp_mtls.Tunnel.Client.Frames.Serve.{handle_connection-wire}
use ngp_mtls.Tunnel.Server.{Server}
use ngp_mtls.Tunnel.Server.System.{Reach}
use ngp_mtls.Tunnel.Server.System.Invariant.{Reach-IsReady}
use ngp_mtls.Tunnel.Server.System.History.{taken, Reach-Told}
use ngp_mtls.Tunnel.Server.System.Order.{wire_inj}

-- The next dial of the client returns `l`, which takes all that is written to it, and which
-- nothing else is or will be.
pub record IsDialling (t : Client) (l : ℕ) (rest : List (Result ℕ)) : Type 0 where
  pub dials : t.net.dials ≡ ok l ∷ rest
  pub later : All (λ r. r ≢ ok l) rest
  pub unlimited : t.net.limit l ≡ none
  pub apart : t.control_conn ≢ some l
  pub unmapped : (i : ℕ) → lookup i t.conn_map ≢ some l

dialled-IsSink :
    (t : Client) (k l : ℕ) (rest : List (Result ℕ))
    → IsDialling t l rest
    → IsSink (dialled t k l rest) k l
dialled-IsSink t k l rest v = record {
  mapped = rw (lookup-insert, beq_refl k) refl;
  local_open = ground arith;
  unlimited = v.unlimited;
  once = λ i h. elim (Bool-cases (k == i)) [
    | inl same ↦ ground arith
    | inr differ ↦ absurd (v.unmapped i (ground (arith, lookup-insert k i l t.conn_map)))
  ];
  undialled = v.later;
  apart = v.apart;
}

all-Keeps : (k : ℕ) (fs : List Frame) → All (Other k) fs → All (Open k) fs → All (Keeps k) fs
all-Keeps k [] others opens = tt
all-Keeps k (f ∷ fs) (o, os) (c, cs) = (one o c, all-Keeps k fs os cs)
  where
    one : Other k f → Open k f → Keeps k f
    one (inl ne) c = inl ne
    one (inr a) (inl ne) = inl ne
    one (inr a) (inr b) = inr (a, b)

module _ {j n : ℕ} {s : Server} (r : Reach j n s) (small : j < 2 ^ 32) (p : ℕ) (below : p < s.fresh)
    (takes : s.net.limit (s.infos p).conn ≡ none) (fs : List Frame) (sendable : All IsSendable fs)
    (sent : s.net.sent (s.infos p).conn ≡ wire fs) where
  -- What was written carries what was read.
  passes_on : (k : ℕ) → bytes_for k fs ≡ taken r p k
  passes_on k =
      let (gs, sendable', sent', carries) = (Reach-Told r small).told p below takes in
      let same : fs ≡ gs = wire_inj fs gs sendable sendable' (sym sent ∙ sent') in
      rw same (carries k)

  in_order : (known : List ℕ) × IsOrdered known fs
  in_order =
      let v = (Reach-IsReady r small).0.streams p below in
      let whole = IsFramed-whole s.net (s.infos p).conn v (λ h. cc (takes, h)) in
      let same : v.frames ≡ fs = wire_inj v.frames fs v.sendable sendable (sym whole ∙ sent) in
      (v.good.known, rw same at v.good.ordered)

-- The server has reached, in fewer than 2^32 actions of its goroutines in any order and before
-- its `Run` ends with a client registered, a state in which what it wrote to the control
-- connection of the client at `p`, which takes all that is written to it, is the frames `xs`,
-- NEW_CONN for `k`, and `ys`, in which `k` is not closed. A client `t` that receives these bytes,
-- and then an error, serves them all before it takes the error; when it dials for `k`, it gets
-- the connection `l`, which takes all that is written to it and is used for nothing else. Then
-- what it has written to `l` is exactly what the rounds of the server's goroutine for `k` have
-- read and passed on, in order, whatever happened to the other connections and other clients
-- meanwhile; `l` is open and in its map.
pub delivers :
    {j n : ℕ} {s : Server} (r : Reach j n s) (p k : ℕ) (xs ys : List Frame) (t : Client) (l : ℕ)
    (rest : List (Result ℕ)) (served : ℕ) (e : Error)
    → j < 2 ^ 32
    → p < s.fresh
    → s.net.limit (s.infos p).conn ≡ none
    → let fs = xs ++ bare_frame Proto.new_conn k ∷ ys in
      All IsSendable fs
      → s.net.sent (s.infos p).conn ≡ wire fs
      → All (Open k) ys
      → IsDialling (handle_all xs t).1 l rest
      → length fs ≤ served
      → let t' = (handle_connection served false (stream (s.net.sent (s.infos p).conn) e) t).1 in
        (t'.net.sent l ≡ taken r p k) × (t'.net.is_open l ≡ true) × (lookup k t'.conn_map ≡ some l)
delivers r p k xs ys t l rest served e small below takes sendable sent opens v enough =
    let (known, ordered) = in_order r small p below takes _ sendable sent in
    let (_, others) = announced_once k xs ys ordered refl in
    let u = (handle_all xs t).1 in
    let (got, sink) =
      demultiplexes k l ys (dialled u k l rest) (dialled-IsSink u k l rest v)
        (all-Keeps k ys others opens) in
    let fresh : (dialled u k l rest).net.sent l ≡ [] = ground arith in
    let all : bytes_for k (xs ++ bare_frame Proto.new_conn k ∷ ys) ≡ bytes_for k ys =
      bytes_for-append k xs (bare_frame Proto.new_conn k ∷ ys)
      ∙ ap (λ z. z ++ bytes_for k ys) (announced_first k xs ys ordered refl) in
    let passed = passes_on r small p below takes _ sendable sent k in
    let handled =
      handle_all-append xs (bare_frame Proto.new_conn k ∷ ys) t
      ∙ handle_all-dialled k l ys u rest v.dials in
    rw (sent, handle_connection-wire served _ e t sendable enough, handled)
      (
        got ∙ (ap (λ z. z ++ bytes_for k ys) fresh ∙ (sym all ∙ passed)),
        sink.local_open,
        sink.mapped,
      )
