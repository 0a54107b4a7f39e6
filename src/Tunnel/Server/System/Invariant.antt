-- ===== src/Tunnel/Server/System/Invariant.antt =====
-- Every reachable state is sound.
use ngp_mtls.Prelude.{
  Has, ℕ, suc, ◌+◌, ◌^◌, ◌<◌, ◌≡◌, refl, inl, inr, Option, none, some, List, [], ◌∷◌, Bytes, All,
  Error, lookup, bytes_eq, nat_eq, arith,
}
use ngp_mtls.Tunnel.Server.{Server, Task, Outcome, done, Returns, client_frames, public_reader}
use ngp_mtls.Tunnel.Server.Clients.Sound.{register_client-IsReady, unregister_client-IsReady}
use ngp_mtls.Tunnel.Server.Public.Sound.{
  handle_public_connection-IsReady, reader_turn-IsReady, reader_exit-IsReady,
}
use ngp_mtls.Tunnel.Server.Frames.Listens.{handle_frame-IsReady, IsOffered, grants, refuses}
use ngp_mtls.Tunnel.Server.Sound.{Owner, control, mapped, listener, Uses, IsTask, IsSound, IsReady}
use ngp_mtls.Tunnel.Framed.{IsFramed-same}
use ngp_mtls.Tunnel.Server.Sound.Actions.{
  IsSound-net, IsSound-close, IsSound-go, IsSound-later, IsSound-tasks,
}
use ngp_mtls.Tunnel.Server.Keeping.{Keeps}
use ngp_mtls.Tunnel.Server.Public.Kept.{reader_turn-Keeps}
use ngp_mtls.Tunnel.Server.Run.Finish.{finish-finished, finished-IsSound}
use ngp_mtls.Tunnel.Server.System.{
  answer, offered, Step, client_arrives, outside_arrives, frame_arrives, reads, reader_ends,
  control_ends, client_ends, server_ends, without, IsInitial, Reach, begin, act,
}

-- What an outcome satisfies, its state does.
pub Returns-done :
    {A : Type 0} (o : Outcome (A × Server)) (Q : A → Server → Type 0) {a : A} {s : Server}
    → Returns o Q
    → o ≡ done (a, s)
    → Q a s
Returns-done o Q {a} {s} r e = rw e at r

pub Has-IsTask :
    (j fresh : ℕ) (t : Task) (ts : List Task)
    → All (IsTask j fresh) ts
    → Has t ts
    → IsTask j fresh t
Has-IsTask j fresh t [] v h = absurd h
Has-IsTask j fresh t (u ∷ us) (v, vs) (inl e) = rw (← e) v
Has-IsTask j fresh t (u ∷ us) (v, vs) (inr there) = Has-IsTask j fresh t us vs there

pub offered-IsSound :
    {j n : ℕ} (s : Server) (r : Option Error) → IsSound j n s → IsSound j n (offered n r s)
offered-IsSound {j} {n} s r v =
    let w = record s.net { dials = answer n r ∷ [] } in
    IsSound-net s v w
      λ p h. IsFramed-same s.net w (s.infos p).conn (v.streams p h) (λ fs q. q) refl refl

pub offered-IsOffered : (n : ℕ) (s : Server) (r : Option Error) → IsOffered n (offered n r s).net
offered-IsOffered n s none = grants refl
offered-IsOffered n s (some e) = refuses e refl

All-without :
    (j fresh : ℕ) (t : Task) (ts : List Task) (h : Has t ts)
    → All (IsTask j fresh) ts
    → All (IsTask j fresh) (without t ts h)
All-without j fresh t [] h v = tt
All-without j fresh t (u ∷ us) (inl e) (v, vs) = vs
All-without j fresh t (u ∷ us) (inr there) (v, vs) = (v, All-without j fresh t us there vs)

-- One action.
pub Step-IsReady :
    {j n n' : ℕ} {s s' : Server}
    → IsReady j n s
    → j + 1 < 2 ^ 32
    → Step n s n' s'
    → IsReady (suc j) n' s'
Step-IsReady {s} v small (client_arrives id e) =
    let (sound, h) = Returns-done _ _ (register_client-IsReady s v small) e in
    (IsSound-go _ sound (client_frames id _) tt, h)
Step-IsReady {s} v small (outside_arrives id e) =
    Returns-done _ _ (handle_public_connection-IsReady id s v small) e
Step-IsReady {j} {n} {s} (v, h) small (frame_arrives id f r fits e) =
    let (sound, free_again) =
      Returns-done _ _
        (handle_frame-IsReady id f (offered n r s) (offered-IsSound s r v) h
          (offered-IsOffered n s r) fits)
        e in
    (IsSound-later j (suc j) (suc n) (suc n) _ (omega arith) (omega arith) sound, free_again)
Step-IsReady {j} {n} {s} (v, h) small (reads p id k c seen poll there q e) =
    let (below, le) = Has-IsTask j s.fresh (public_reader p id k c) s.tasks v.started there in
    let (sound, free_again) =
      Returns-done _ _ (reader_turn-IsReady p id k s v h below (omega arith) seen poll q) e in
    (IsSound-later j (suc j) n n _ (omega arith) (omega arith) sound, free_again)
Step-IsReady {j} {n} {s} (v, h) small
      (reader_ends p id k c seen poll {t} {s'} there q e ends still) =
    let (below, le) = Has-IsTask j s.fresh (public_reader p id k c) s.tasks v.started there in
    let (w, h') =
      Returns-done _ _ (reader_turn-IsReady p id k s v h below (omega arith) seen poll q) e in
    let same : t.fresh ≡ s.fresh =
      (Returns-done _ (λ _ t. Keeps n s t)
        (reader_turn-Keeps p id k s v h below (omega arith) seen poll) e).0.fresh in
    let (sound, free_again) =
      Returns-done _ _ (reader_exit-IsReady p id k t w h' (rw same below) (omega arith) c) ends in
    let task = public_reader p id k c in
    (
      IsSound-later j (suc j) n n _ (omega arith) (omega arith) (
          IsSound-tasks s' sound (without task s'.tasks still)
            (All-without j s'.fresh task s'.tasks still sound.started)),
      free_again,
    )
Step-IsReady {j} {n} {s} (v, h) small (control_ends id c there) =
    (IsSound-later j (suc j) n n _ (omega arith) (omega arith) (IsSound-close s v c), h)
Step-IsReady {j} {n} {s} v small (client_ends id e) =
    let (sound, free_again) = Returns-done _ _ (unregister_client-IsReady id s v) e in
    (IsSound-later j (suc j) n n _ (omega arith) (omega arith) sound, free_again)
Step-IsReady {j} {n} {s} (v, h) small (server_ends l m e ends) =
    let same = finish-finished l m s h ends in
    rw (← same)
      (IsSound-later j (suc j) n n _ (omega arith) (omega arith) (finished-IsSound l m s v), refl)

IsInitial-IsReady : (n : ℕ) (s : Server) → IsInitial s → IsReady 0 n s
unfolding lookup
IsInitial-IsReady n s v = (
  record {
    numbered = record { names = λ id p h. absurd (unknown id p h) };
    client_ids = omega (arith, v.no_ids);
    conn_ids = λ p h. absurd (omega (arith, v.no_infos));
    counted = λ p h. absurd (omega (arith, v.no_infos));
    owners = record {
      used = λ o c u. absurd (unused o c u);
      unique = λ o o' c u u'. absurd (unused o c u);
    };
    streams = λ p h. absurd (omega (arith, v.no_infos));
    started = rw v.no_infos v.no_readers;
  },
  v.unlocked,
)
  where
    unknown : (id : Bytes) (p : ℕ) → lookup id s.clients ≡ some p → ⊥
    unknown id p h = cc (rw v.no_clients at h)

    unused : (o : Owner) (c : ℕ) → Uses s o c → ⊥
    unused (control p) c u = omega (arith, u.0, v.no_infos)
    unused (mapped p k) c u = omega (arith, u.0, v.no_infos)
    unused (listener p) c u = omega (arith, u.0, v.no_infos)

-- After fewer than 2^32 actions of any kind and in any order, as long as `Run` has not begun to end
-- with a client registered (it then holds the mutex for ever), nobody holds the mutex, and the state
-- is sound: names, numbers and pointers were given out once, each connection has one use, control
-- connections carry whole frames in the order of the protocol, and every goroutine that reads has a
-- client.
pub Reach-IsReady : {j n : ℕ} {s : Server} → Reach j n s → j < 2 ^ 32 → IsReady j n s
Reach-IsReady {j} {n} {s} (begin v) small = IsInitial-IsReady n s v
Reach-IsReady (act r st) small = Step-IsReady (Reach-IsReady r (omega arith)) (omega arith) st
