-- ===== src/Tunnel/Server/System/Leaks.antt =====
-- No outside connection is left open that nobody knows.
use ngp_mtls.Prelude.{
  Has, ℕ, suc, ◌+◌, ◌^◌, ◌≤◌, ◌<◌, ◌≡◌, ◌≢◌, ◌∙◌, ◌⊎◌, inl, inr, true, Option, Option-cases, none,
  some, List, All, Bytes, Error, lookup, nat_eq, bytes_eq, arith,
}
use ngp_mtls.Proto
use ngp_mtls.Proto.{bare_frame}
use ngp_mtls.Proto.RoundTrip.{layout}
use ngp_mtls.Tunnel.Net.{write, opened}
use ngp_mtls.Tunnel.Server.{Server, Task, Returns, public_reader}
use ngp_mtls.Tunnel.Server.Clients.Register.{registered, register_client-registered}
use ngp_mtls.Tunnel.Server.Clients.Kept.{unregister_client-Keeps}
use ngp_mtls.Tunnel.Server.Frames.Kept.{handle_frame-Keeps}
use ngp_mtls.Tunnel.Server.Public.{announced, handle_public_connection}
use ngp_mtls.Tunnel.Server.Public.Handle.{
  numbered, announced-stored, accepted_for-announced, handle_public_connection-accepted_for,
}
use ngp_mtls.Tunnel.Server.Public.Sound.{unknown_client, reader_turn-IsReady}
use ngp_mtls.Tunnel.Server.Run.Finish.{finished, finish-finished, finished-Keeps}
use ngp_mtls.Tunnel.Server.Public.Kept.{
  announced_lost, reader_turn-Keeps, reader_exit-Keeps, reader_exit_unmapped,
}
use ngp_mtls.Tunnel.Server.Keeping.{Keeps, Keeps-trans, Keeps-net, Keeps-close}
use ngp_mtls.Tunnel.Server.Keeping.Tidy.{
  IsKnown, Tidy, Tidy-Keeps, Tidy-ended, Tidy-arrives, Tidy-closed, Tidy-stored, numbered-Keeps,
}
use ngp_mtls.Tunnel.Server.Sound.{IsTask, IsReady}
use ngp_mtls.Tunnel.Server.System.{
  server_ends, arrived, offered, Step, client_arrives, outside_arrives, frame_arrives, reads,
  reader_ends, control_ends, client_ends, Reach, begin, act,
}
use ngp_mtls.Tunnel.Server.System.Invariant.{
  Returns-done, Reach-IsReady, Has-IsTask, offered-IsOffered,
}

-- The outside connections after an action, of which `outs` came before it.
abbrev pub Comes : {n n' : ℕ} {s s' : Server} → Step n s n' s' → (ℕ → Type 0) → ℕ → Type 0
Comes {n} (outside_arrives id e) outs c = (c ≡ n) ⊎ outs c
Comes (client_arrives id e) outs c = outs c
Comes (frame_arrives id f r fits e) outs c = outs c
Comes (reads p id k d seen poll there ok_poll e) outs c = outs c
Comes (reader_ends p id k d seen poll there ok_poll e ends still) outs c = outs c
Comes (control_ends id d there) outs c = outs c
Comes (client_ends id e) outs c = outs c
Comes (server_ends l m e ends) outs c = outs c

-- The outside connections that have arrived until now.
abbrev pub Came : {j n : ℕ} {s : Server} → Reach j n s → ℕ → Type 0
Came (begin v) c = ⊥
Came (act r st) c = Comes st (Came r) c

announced-Tidy :
    {outs : ℕ → Type 0} {n : ℕ} (p : ℕ) (id : Bytes) (k : ℕ) (e : Option Error) (t : Server)
    → Tidy outs n t
    → p < t.fresh
    → ((q : ℕ) (name : Bytes) (i c : ℕ) → Has (public_reader q name i c) t.tasks → q ≡ p → i ≢ k)
    → k ≤ (t.infos p).next_conn_id
    → Returns (announced p id k n e t) (λ _ s'. Tidy (λ c. (c ≡ n) ⊎ outs c) (suc n) s')
announced-Tidy {n = n} p id k (some e) t v there unread le =
    rw (announced_lost p id k n e t)
      (Tidy-closed _ (ground arith) (Tidy-Keeps t _ (omega arith) v (Keeps-close t n)))
announced-Tidy {n = n} p id k none t v there unread le =
    rw (announced-stored p id k n t) (Tidy-stored t p k id v there unread le)

-- The outside connection `n` arrives.
handle_public_connection-Tidy :
    {outs : ℕ → Type 0} {j n : ℕ} (id : Bytes) (s : Server)
    → IsReady j n s
    → j + 1 < 2 ^ 32
    → Tidy outs n s
    → Returns
        (handle_public_connection n id (arrived n s))
        (λ _ s'. Tidy (λ c. (c ≡ n) ⊎ outs c) (suc n) s')
handle_public_connection-Tidy {j = j} {n} id s (sound, h) small v =
    let t = arrived n s in
    let opens : Keeps n s t = Keeps-net s (opened n s.net) (λ c below o. ground arith) in
    elim (Option-cases (lookup id s.clients)) [
      | inl gone ↦ rw (unknown_client n id t h gone) (
          Tidy-closed _ (ground arith)
            (Tidy-Keeps s _ (omega arith) v (Keeps-trans s t _ opens (Keeps-close t n))))
      | inr (p, found) ↦
          let below = (sound.numbered.names id p found).0 in
          let le = sound.conn_ids p below in
          let k = (s.infos p).next_conn_id + 1 in
          let u = numbered t p k in
          rw
            (handle_public_connection-accepted_for n id t p h found
              ∙ accepted_for-announced n id t p (omega arith))
            (announced-Tidy p id k
              (write (s.infos p).conn (layout (bare_frame Proto.new_conn k)) t.net).0 u
              (Tidy-Keeps s u (omega arith) v (Keeps-trans s t u opens (numbered-Keeps t p))) below
              (λ q name i c reader at same. ground (arith, at, same, (v.agree q name i c reader).0))
              (ground arith))
    ]

Step-Tidy :
    {outs : ℕ → Type 0} {j n n' : ℕ} {s s' : Server} (st : Step n s n' s')
    → IsReady j n s
    → j + 1 < 2 ^ 32
    → Tidy outs n s
    → Tidy (Comes st outs) n' s'
Step-Tidy {n = n} {s = s} (client_arrives id {s'} e) (v, h) small tidy =
    let one = register_client-registered n (arrived n s) h (omega (arith, v.client_ids)) in
    let same : registered n (arrived n s) ≡ s' = cc (one, e) in
    rw (← same) (Tidy-arrives s id v tidy)
Step-Tidy {outs} {n = n} {s = s} (outside_arrives id {s'} e) v small tidy =
    Returns-done _ (λ _ t. Tidy (λ c. (c ≡ n) ⊎ outs c) (suc n) t)
      (handle_public_connection-Tidy id s v small tidy) e
Step-Tidy {n = n} {s = s} (frame_arrives id f r {s'} fits e) (v, h) small tidy =
    let t = offered n r s in
    let kept =
      Returns-done _ (λ _ u. Keeps n t u) (handle_frame-Keeps n id f t h (offered-IsOffered n s r))
        e in
    Tidy-Keeps s s' (omega arith) tidy
      (Keeps-trans s t s' (Keeps-net s t.net (λ c below o. o)) kept)
Step-Tidy {j = j} {n} {s = s} (reads q id i c seen poll {s'} there ok_poll e) (v, h) small tidy =
    let (below, le) = Has-IsTask j s.fresh (public_reader q id i c) s.tasks v.started there in
    Tidy-Keeps s s' (omega arith) tidy (
      Returns-done _ (λ _ t. Keeps n s t)
        (reader_turn-Keeps q id i s v h below (omega arith) seen poll) e)
Step-Tidy {j = j} {n} {s = s} (reader_ends q id i c seen poll {t} {s'} there ok_poll e ends still)
      (v, h) small tidy =
    let (below, le) = Has-IsTask j s.fresh (public_reader q id i c) s.tasks v.started there in
    let turn =
      Returns-done _ (λ _ t. Keeps n s t)
        (reader_turn-Keeps q id i s v h below (omega arith) seen poll) e in
    let (w, h') =
      Returns-done _ _ (reader_turn-IsReady q id i s v h below (omega arith) seen poll ok_poll) e in
    let below' : q < t.fresh = rw turn.0.fresh below in
    let tidy' = Tidy-Keeps s t (omega arith) tidy turn in
    let own = (tidy'.agree q id i c (turn.0.started q id i c there)).1 in
    let exit =
      Returns-done _ (λ _ u. Keeps n t u)
        (reader_exit-Keeps q id i t w h' below' (omega arith) c own) ends in
    let gone =
      Returns-done _ (λ _ u. lookup i (u.infos q).conn_map ≡ none)
        (reader_exit_unmapped q id i t w h' below' (omega arith) c) ends in
    Tidy-ended s' q i c id still gone (Tidy-Keeps t s' (omega arith) tidy' exit)
Step-Tidy {s = s} (control_ends id c there) v small tidy =
    Tidy-Keeps s _ (omega arith) tidy (Keeps-close s c)
Step-Tidy {n = n} {s = s} (client_ends id {s'} e) (v, h) small tidy =
    Tidy-Keeps s s' (omega arith) tidy
      (Returns-done _ (λ _ t. Keeps n s t) (unregister_client-Keeps n id s h) e)
Step-Tidy {n = n} {s = s} (server_ends l m e {s'} ends) (v, h) small tidy =
    rw (← finish-finished l m s h ends)
      (Tidy-Keeps s (finished l m s) (omega arith) tidy (finished-Keeps l m s))

no_readers :
    (j : ℕ) (ts : List Task) (p : ℕ) (id : Bytes) (k c : ℕ)
    → All (IsTask j 0) ts
    → Has (public_reader p id k c) ts
    → ⊥
no_readers j ts p id k c v there =
    omega (arith, (Has-IsTask j 0 (public_reader p id k c) ts v there).0)

Reach-Tidy : {j n : ℕ} {s : Server} (r : Reach j n s) → j < 2 ^ 32 → Tidy (Came r) n s
Reach-Tidy (begin {s = s} v) small = record {
  below = λ c h. absurd h;
  known = λ c h o. absurd h;
  agree = λ p id k c reader. absurd (no_readers 0 s.tasks p id k c v.no_readers reader);
}
Reach-Tidy (act r st) small =
    Step-Tidy st (Reach-IsReady r (omega arith)) (omega arith) (Reach-Tidy r (omega arith))

-- After fewer than 2^32 actions of any kind and in any order, as long as `Run` has not begun to end
-- with a client registered: each outside connection that has arrived and that the server has not
-- closed is in the map of a client, under a number for which there is a goroutine that reads it
-- and has not ended: whatever clients did, whichever writes failed and however goroutines ended, no
-- connection was left open that nobody serves.
pub no_leaks :
    {j n : ℕ} {s : Server} (r : Reach j n s) (c : ℕ)
    → j < 2 ^ 32
    → Came r c
    → s.net.is_open c ≡ true
    → IsKnown s c
no_leaks r c small arrived_before still_open =
    (Reach-Tidy r small).known c arrived_before still_open
