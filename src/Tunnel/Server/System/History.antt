-- ===== src/Tunnel/Server/System/History.antt =====
-- The bytes that the server passes on, against the rounds of its reading goroutines, in any order
-- of actions.
use ngp_mtls.Prelude.{
  true, ℕ, ◌+◌, ◌^◌, ◌≤◌, ◌<◌, ◌≡◌, refl, ap, sym, ◌∙◌, inl, inr, Bool-cases, none, List, [], ◌∷◌,
  ◌++◌, append-nil, All, All-append, Bytes, ◌==◌, nat_eq, bytes_eq, arith,
}
use ngp_mtls.Proto.{Frame}
use ngp_mtls.Proto.RoundTrip.{wire, wire-append, IsSendable}
use ngp_mtls.Tunnel.Protocol.Carried.{bytes_for, bytes_for-append}
use ngp_mtls.Tunnel.Server.{Server, client_frames, public_reader}
use ngp_mtls.Tunnel.Server.Clients.Register.{registered, register_client-registered}
use ngp_mtls.Tunnel.Server.Clients.Said.{unregister_client-Moves}
use ngp_mtls.Tunnel.Server.Public.Said.{
  passed_on, handle_public_connection-Moves, reader_turn-Moves, reader_exit-Moves,
}
use ngp_mtls.Tunnel.Server.Frames.Quiet.{handle_frame-Moves}
use ngp_mtls.Tunnel.Server.Moves.{Moves, nobody, Moves-quiet, Moves-trans, Moves-as}
use ngp_mtls.Tunnel.Server.Public.Sound.{reader_turn-IsReady}
use ngp_mtls.Tunnel.Server.Run.Finish.{finished, finish-finished, finished-Moves}
use ngp_mtls.Tunnel.Server.Sound.{IsSound, IsReady, control}
use ngp_mtls.Tunnel.Server.System.{
  arrived, offered, Step, client_arrives, outside_arrives, frame_arrives, reads, reader_ends,
  control_ends, client_ends, server_ends, without, Reach, begin, act,
}
use ngp_mtls.Tunnel.Server.System.Invariant.{
  Returns-done, Reach-IsReady, Has-IsTask, offered-IsSound, offered-IsOffered,
}

-- What an action passes on for the number `k` of the client at `p`: the bytes of a round that
-- goes on.
abbrev pub heard : {n n' : ℕ} {s s' : Server} → Step n s n' s' → ℕ → ℕ → Bytes
heard (reads q id i c seen poll there ok_poll e) p k = passed_on q i poll true p k
heard (client_arrives id e) p k = []
heard (outside_arrives id e) p k = []
heard (frame_arrives id f r fits e) p k = []
heard (reader_ends q id i c seen poll there ok_poll e ends still) p k = []
heard (control_ends id c there) p k = []
heard (client_ends id e) p k = []
heard (server_ends l m e ends) p k = []

-- All that was passed on until now.
abbrev pub taken : {j n : ℕ} {s : Server} → Reach j n s → ℕ → ℕ → Bytes
taken (begin v) p k = []
taken (act r st) p k = taken r p k ++ heard st p k

-- Where the control connection of the client at `p` takes all that is written to it, what was
-- written is whole frames, which carry `b p k` for each number `k`.
pub record Told (b : ℕ → ℕ → Bytes) (s : Server) : Type 0 where
  pub told :
      (p : ℕ)
      → p < s.fresh
      → s.net.limit (s.infos p).conn ≡ none
      → (fs : List Frame) × All IsSendable fs
        × (s.net.sent (s.infos p).conn ≡ wire fs)
        × ((k : ℕ) → bytes_for k fs ≡ b p k)
  pub unheard : (p k : ℕ) → s.fresh ≤ p → b p k ≡ []

Told-Moves :
    {b b' : ℕ → ℕ → Bytes} (s s' : Server)
    → Told b s
    → Moves b' s s'
    → ((p k : ℕ) → s.fresh ≤ p → b' p k ≡ [])
    → Told (λ p k. b p k ++ b' p k) s'
Told-Moves {b} {b'} s s' v m new = record {
  told = λ p h limit.
      let below : p < s.fresh = rw (← m.fresh) h in
      let same = m.conns p below in
      let says = m.says p below in
      let limit' : s'.net.limit (s.infos p).conn ≡ none = rw (← same) limit in
      let (fs, sendable, sent, carries) = v.told p below (says.limit limit') in
      (
        fs ++ says.frames,
        All-append IsSendable fs says.frames sendable says.sendable,
        ap s'.net.sent same
            ∙ says.sent limit'
            ∙ ap (λ z. z ++ wire says.frames) sent
            ∙ sym (wire-append fs says.frames),
        λ k.
            bytes_for-append k fs says.frames
            ∙ (ap (λ z. z ++ bytes_for k says.frames) (carries k)
                ∙ ap (λ z. b p k ++ z) (says.carries k)),
      );
  unheard =
      λ p k le. let le' : s.fresh ≤ p = rw (← m.fresh) le in rw (v.unheard p k le') (new p k le');
}

-- The client that comes has heard nothing.
Told-arrives :
    {j n : ℕ} {b : ℕ → ℕ → Bytes} (s : Server) (id : Bytes)
    → IsSound j n s
    → Told b s
    → Told
        (λ p k. b p k ++ [])
        (record (registered n (arrived n s)) { tasks = client_frames id n ∷ s.tasks })
Told-arrives {j} {n} {b} s id sound v = record {
  told = λ p h limit. elim (Bool-cases (s.fresh == p)) [
    | inl new ↦ ([], tt, ground arith, λ k. sym (append-nil (b p k) ∙ v.unheard p k (ground arith)))
    | inr old ↦
        let below : p < s.fresh = ground arith in
        let at = sound.owners.used (control p) (s.infos p).conn (below, refl) in
        let (fs, sendable, sent, carries) = v.told p below (ground arith) in
        (fs, sendable, ground (arith, sent), λ k. carries k ∙ sym (append-nil (b p k)))
  ];
  unheard = λ p k le. append-nil (b p k) ∙ v.unheard p k (omega arith);
}

Step-Told :
    {j n n' : ℕ} {s s' : Server} {b : ℕ → ℕ → Bytes} (st : Step n s n' s')
    → IsReady j n s
    → j + 1 < 2 ^ 32
    → Told b s
    → Told (λ p k. b p k ++ heard st p k) s'
Step-Told {n = n} {s = s} (client_arrives id {s'} e) (v, h) small told =
    let one = register_client-registered n (arrived n s) h (omega (arith, v.client_ids)) in
    let same : registered n (arrived n s) ≡ s' = cc (one, e) in
    rw (← same) (Told-arrives s id v told)
Step-Told {n = n} {s = s} (outside_arrives id {s'} e) v small told =
    Told-Moves s s' told
      (Returns-done _ (λ _ t. Moves nobody s t) (handle_public_connection-Moves id s v small) e)
      (λ p k le. refl)
Step-Told {n = n} {s = s} (frame_arrives id f r {s'} fits e) (v, h) small told =
    let t = offered n r s in
    let m =
      Returns-done _ (λ _ u. Moves nobody t u)
        (handle_frame-Moves id f t (offered-IsSound s r v) h (offered-IsOffered n s r) fits) e in
    let offer : Moves nobody s t =
      Moves-quiet s t refl (λ p below. refl) (λ p below. refl) (λ p below. refl) in
    Told-Moves s s' told (Moves-trans s t s' offer m) (λ p k le. refl)
Step-Told {j} {n} {s = s} (reads q id i c seen poll {s'} there ok_poll e) (v, h) small told =
    let (below, le) = Has-IsTask j s.fresh (public_reader q id i c) s.tasks v.started there in
    Told-Moves s s' told
      (Returns-done _ (λ again t. Moves (passed_on q i poll again) s t)
        (reader_turn-Moves q id i s v h below (omega arith) seen poll ok_poll) e)
      (λ p k le'. ground arith)
Step-Told {j} {n} {s = s} (reader_ends q id i c seen poll {t} {s'} there ok_poll e ends still)
      (v, h) small told =
    let (below, le) = Has-IsTask j s.fresh (public_reader q id i c) s.tasks v.started there in
    let turn =
      Returns-done _ (λ again t. Moves (passed_on q i poll again) s t)
        (reader_turn-Moves q id i s v h below (omega arith) seen poll ok_poll) e in
    let (w, h') =
      Returns-done _ _ (reader_turn-IsReady q id i s v h below (omega arith) seen poll ok_poll) e in
    let exit =
      Returns-done _ (λ _ u. Moves nobody t u)
        (reader_exit-Moves q id i t w h' (rw turn.fresh below) (omega arith) c) ends in
    let quiet : Moves nobody s t = Moves-as s t (λ p k. ground arith) turn in
    let u = record s' { tasks = without (public_reader q id i c) s'.tasks still } in
    Told-Moves s u told
      (Moves-trans s t u quiet (
        Moves-trans t s' u exit
          (Moves-quiet s' u refl (λ p below. refl) (λ p below. refl) (λ p below. refl))))
      (λ p k le'. refl)
Step-Told {s = s} (control_ends id c there) v small told =
    Told-Moves s _ told (Moves-quiet s _ refl (λ p below. refl) (λ p below. refl) (λ p below. refl))
      (λ p k le. refl)
Step-Told {s = s} (client_ends id {s'} e) (v, h) small told =
    Told-Moves s s' told
      (Returns-done _ (λ _ t. Moves nobody s t) (unregister_client-Moves id s h) e) (λ p k le. refl)
Step-Told {s = s} (server_ends l m e {s'} ends) (v, h) small told =
    rw (← finish-finished l m s h ends)
      (Told-Moves s (finished l m s) told (finished-Moves l m s) (λ p k le. refl))

pub Reach-Told : {j n : ℕ} {s : Server} (r : Reach j n s) → j < 2 ^ 32 → Told (taken r) s
Reach-Told (begin v) small = record {
  told = λ p h limit. absurd (omega (arith, v.no_infos, h));
  unheard = λ p k le. refl;
}
Reach-Told (act r st) small =
    Step-Told st (Reach-IsReady r (omega arith)) (omega arith) (Reach-Told r (omega arith))
