-- ===== src/Tunnel/Client/System/Safety.antt =====
-- What the client and the server can rely on in every reachable state of the client.
use ngp_mtls.Prelude.{
  Has, ℕ, zero, suc, ◌≤◌, ◌<◌, ◌+◌, ◌⊎◌, ◌≡◌, ◌≢◌, refl, ap, ◌∙◌, inl, inr, Bool-cases, true, false,
  Option-cases, none, some, List, [], ◌∷◌, All, Bytes, Error, length, List-split, lookup, nat_eq,
  arith,
}
use ngp_mtls.Proto.{Frame}
use ngp_mtls.Proto.RoundTrip.{wire, IsSendable, stream}
use ngp_mtls.Tunnel.Framed.{IsFramed-whole}
use ngp_mtls.Tunnel.Server.{Server, ◌>>◌, pure, close_conn}
use ngp_mtls.Tunnel.Server.Frames.{handle_frames}
use ngp_mtls.Tunnel.Server.Frames.Loop.{handle_frames-wire, handle_all}
use ngp_mtls.Tunnel.Client.{Client, close_control_conn}
use ngp_mtls.Tunnel.Client.Frames.Serve.{frames≤bytes}
use ngp_mtls.Tunnel.Client.Forward.{ctx_done, forward_local}
use ngp_mtls.Tunnel.Client.Forward.Sound.{cancelled_round}
use ngp_mtls.Tunnel.Client.Sound.{IsSound}
use ngp_mtls.Tunnel.Client.System.{
  Step, loses, reads, Reach, Winding, unwound, unwinds, without, after_round,
}
use ngp_mtls.Tunnel.Client.System.Invariant.{
  client_Reach-IsSound, client_Step-IsSound, close_control_conn-gone,
}

-- With no goroutine left and no control connection.
idle_closed :
    {n : ℕ} (s : Client) (v : IsSound n s) (c k : ℕ)
    → s.tasks ≡ []
    → s.control_conn ≡ none
    → (s.net.is_open c ≡ false) × (lookup k s.conn_map ≡ none)
idle_closed s v c k idle alone = (not_open, unmapped)
  where
    nobody : (j l : ℕ) → Has (j, l) s.tasks → ⊥
    nobody j l h = absurd (rw idle at h)

    not_open : s.net.is_open c ≡ false
    not_open = elim (Bool-cases (s.net.is_open c)) [
      | inr shut ↦ shut
      | inl open_still ↦ elim (v.accounted c open_still) [
        | inl e ↦ absurd (cc (alone, e))
        | inr (j, there) ↦ absurd (nobody j c there)
      ]
    ]

    unmapped : lookup k s.conn_map ≡ none
    unmapped = elim (Option-cases (lookup k s.conn_map)) [
      | inl gone ↦ gone
      | inr (l, there) ↦ absurd (nobody k l (v.mapped k l there))
    ]

-- In every reachable state of the client, when no goroutine is left and the control connection is
-- gone, no connection of the process is open, and none is in the map.
pub no_leak :
    {n : ℕ} {s : Client} (c k : ℕ)
    → Reach n s
    → s.tasks ≡ []
    → s.control_conn ≡ none
    → (s.net.is_open c ≡ false) × (lookup k s.conn_map ≡ none)
no_leak {n} {s} c k r idle alone = idle_closed s (client_Reach-IsSound r) c k idle alone

without_shorter : (k l : ℕ) (ts : List (ℕ × ℕ)) → length (without k l ts) ≤ length ts
without_shorter k l [] = omega arith
without_shorter k l ((j, m) ∷ ts) = ground (arith, without_shorter k l ts)

without_less : (k l : ℕ) (ts : List (ℕ × ℕ)) → Has (k, l) ts → length (without k l ts) < length ts
without_less k l [] h = absurd h
without_less k l ((j, m) ∷ ts) (inl e) =
    let one : j ≡ k = cc e in
    let two : m ≡ l = cc e in ground (arith, one, two, without_shorter k l ts)
without_less k l ((j, m) ∷ ts) (inr there) =
    ground (arith, without_shorter k l ts, without_less k l ts there)

-- Each round ends a goroutine.
Winding-IsSound :
    {n : ℕ} {s : Client} {m : ℕ} {t : Client}
    → IsSound n s
    → Winding s m t
    → IsSound n t × (m + length t.tasks ≤ length s.tasks)
Winding-IsSound v unwound = (v, omega arith)
Winding-IsSound {n} v (unwinds k l {m} {t} w there) =
    let (u, le) = Winding-IsSound v w in
    let st : Step n t n (after_round k l (forward_local k l (ctx_done ∷ []) t)) =
      reads k l ctx_done there tt in
    let fewer : length (after_round k l (forward_local k l (ctx_done ∷ []) t)).tasks
        < length t.tasks =
      rw (cancelled_round k l t) (without_less k l t.tasks there) in
    (client_Step-IsSound u st, omega (arith, fewer, le))

-- The goroutines end one after the other.
drain :
    {i : ℕ} (m : ℕ) {s : Client} (t : Client)
    → Winding s i t
    → length t.tasks ≤ m
    → (j : ℕ) × (u : Client) × Winding s j u × (u.tasks ≡ [])
drain {i = i} zero t w le = elim (List-split t.tasks) [
  | inl idle ↦ (i, t, w, idle)
  | inr (x, ts, e) ↦ absurd (omega (arith, ap length e, le))
]
drain {i = i} (suc m) t w le = elim (List-split t.tasks) [
  | inl idle ↦ (i, t, w, idle)
  | inr ((k, l), ts, e) ↦
      let there : Has (k, l) t.tasks = rw e (inl refl) in
      let t' = after_round k l (forward_local k l (ctx_done ∷ []) t) in
      let fewer : length t'.tasks < length t.tasks =
        rw (cancelled_round k l t) (without_less k l t.tasks there) in
      drain m t' (unwinds k l w there) (omega (arith, fewer, le))
]

-- No goroutine is left, no connection is open, and the map is empty.
abbrev pub IsAtRest : Client → Type 0
IsAtRest s =
    (s.tasks ≡ [])
    × (s.control_conn ≡ none)
    × ((c : ℕ) → s.net.is_open c ≡ false)
    × ((k : ℕ) → lookup k s.conn_map ≡ none)

rests : {n : ℕ} (t : Client) → IsSound n t → t.tasks ≡ [] → IsAtRest (close_control_conn t).1
rests t v idle =
    let (alone, same) = close_control_conn-gone t in
    let u = client_Step-IsSound v loses in
    let w = (close_control_conn t).1 in
    (
      same ∙ idle,
      alone,
      λ c. (idle_closed w u c 0 (same ∙ idle) alone).0,
      λ k. (idle_closed w u 0 k (same ∙ idle) alone).1,
    )

-- From every reachable state of the client, after its context is cancelled: each goroutine ends with
-- its next round, in which it finds the context cancelled, in whichever order they take these rounds.
-- After `m` of them there are at least `m` goroutines fewer than at the start; and then either one is
-- left, whose round may be next, or, once the control connection is closed, no goroutine is
-- left, no connection is open, and the map is empty. And there are such rounds after which that is
-- so.
pub shutdown :
    {n m : ℕ} {s t : Client}
    → Reach n s
    → Winding s m t
    → (m + length t.tasks ≤ length s.tasks)
      × (((x : ℕ × ℕ) × Has x t.tasks) ⊎ IsAtRest (close_control_conn t).1)
      × ((i : ℕ) × (u : Client) × Winding s i u × IsAtRest (close_control_conn u).1)
shutdown {s = s} {t} r w =
    let v = client_Reach-IsSound r in
    let (sound, fewer) = Winding-IsSound v w in
    let (i, u, w', idle) = drain (length s.tasks) s unwound (omega arith) in
    (
      fewer,
      elim (List-split t.tasks) [
        | inl idle ↦ inr (rests t sound idle)
        | inr (x, ts, e) ↦ inl (x, rw e (inl refl))
      ],
      (i, u, w', rests u (Winding-IsSound v w').0 idle),
    )

-- In every reachable state of the client, whatever was written to the control connection, by
-- whichever goroutines, is a sequence of whole frames, as long as that connection still takes
-- bytes: when these bytes reach any server, and then the stream ends, its loop handles exactly
-- these frames one after the other, and closes the connection.
pub server_reads :
    {n : ℕ} {s : Client} (c : ℕ) (e : Error) (id : Bytes) (d : ℕ) (t : Server)
    → Reach n s
    → s.control_conn ≡ some c
    → s.net.limit c ≢ some 0
    → (fs : List Frame) × All IsSendable fs
      × (s.net.sent c ≡ wire fs)
      × (handle_frames (suc (length (s.net.sent c))) (λ _. false) id d (stream (s.net.sent c) e) t
          ≡ (do handle_all id fs; close_conn d; pure true) t)
server_reads {n} {s} c e id d t r h takes =
    let framed = (client_Reach-IsSound r).stream c h in
    let whole = IsFramed-whole s.net c framed takes in
    (
      framed.frames,
      framed.sendable,
      whole,
      rw whole (
          handle_frames-wire (suc (length (wire framed.frames))) id d framed.frames e t
            framed.sendable (omega (arith, frames≤bytes framed.frames))),
    )
