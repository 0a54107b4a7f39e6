-- ===== src/Tunnel/Server/System.antt =====
-- internal/tunnel/server.go as a whole: its goroutines' actions in any order. An action is what one
-- goroutine does between two waits for its connection or listener: a client or an outside connection
-- arrives, a frame is handled, a read of an outside connection returns, a goroutine ends, `Run`
-- comes to its end. The end of `Run` is an action only if its cleanup returns, which it does if no
-- client is registered then; otherwise it waits for ever and keeps the mutex of the table, and
-- nothing is said of what comes after that. The system hands out connections and listeners by
-- number; `n` is the next one.
pub mod Invariant
pub mod Safety
pub mod Order
pub mod History
pub mod Leaks
use ngp_mtls.Prelude.{
  Has, inl, inr, true, false, ℕ, suc, ◌+◌, ◌^◌, ◌<◌, ◌≡◌, ◌⊎◌, Bool, Option, none, some, List, [],
  ◌∷◌, Bytes, All, Error, Result, ok, err,
}
use ngp_mtls.Proto.{Frame}
use ngp_mtls.Tunnel.Net.{Net, close, opened}
use ngp_mtls.Tunnel.Server.{Server, Task, free, done, client_frames, public_reader}
use ngp_mtls.Tunnel.Server.Clients.{register_client, unregister_client}
use ngp_mtls.Tunnel.Server.Public.{Poll, handle_public_connection, reader_turn, reader_exit}
use ngp_mtls.Tunnel.Server.Public.Sound.{IsPoll}
use ngp_mtls.Tunnel.Server.Frames.{handle_frame}
use ngp_mtls.Tunnel.Server.Run.{finish}
use ngp_mtls.Tunnel.Server.Sound.{IsTask}

-- The connection `n` has arrived.
abbrev pub arrived : ℕ → Server → Server
arrived n s = record s { net = opened n s.net }

-- What the next `Listen` returns: the listener `n`, or an error.
abbrev pub answer : ℕ → Option Error → Result ℕ
answer n none = ok n
answer n (some e) = err e

abbrev pub offered : ℕ → Option Error → Server → Server
offered n r s = record s { net = record s.net { dials = answer n r ∷ [] } }

-- A goroutine that has ended is gone.
abbrev pub without : (t : Task) (ts : List Task) → Has t ts → List Task
without t [] h = []
without t (u ∷ us) (inl e) = us
without t (u ∷ us) (inr there) = u ∷ without t us there

pub data Step (n : ℕ) (s : Server) : ℕ → Server → Type 0 where
  client_arrives :
      (id : Bytes) {s' : Server}
      → register_client n (arrived n s) ≡ done (id, s')
      → Step n s (suc n) (record s' { tasks = client_frames id n ∷ s'.tasks })
  outside_arrives :
      (id : Bytes) {s' : Server}
      → handle_public_connection n id (arrived n s) ≡ done (tt, s')
      → Step n s (suc n) s'
  frame_arrives :
      (id : Bytes) (f : Frame) (r : Option Error) {s' : Server}
      → f.conn_id < 2 ^ 32
      → handle_frame id f (offered n r s) ≡ done (tt, s')
      → Step n s (suc n) s'
  reads :
      (p : ℕ) (id : Bytes) (k c : ℕ) (seen : Bool) (poll : Poll) {s' : Server}
      → Has (public_reader p id k c) s.tasks
      → IsPoll poll
      → reader_turn seen p id k poll s ≡ done (true, s')
      → Step n s n s'
  reader_ends :
      (p : ℕ) (id : Bytes) (k c : ℕ) (seen : Bool) (poll : Poll) {t s' : Server}
      → Has (public_reader p id k c) s.tasks
      → IsPoll poll
      → reader_turn seen p id k poll s ≡ done (false, t)
      → reader_exit p k c t ≡ done (tt, s')
      → (there : Has (public_reader p id k c) s'.tasks)
      → Step n s n (record s' { tasks = without (public_reader p id k c) s'.tasks there })
  control_ends :
      (id : Bytes) (c : ℕ)
      → Has (client_frames id c) s.tasks
      → Step n s n (record s { net = close c s.net })
  client_ends : (id : Bytes) {s' : Server} → unregister_client id s ≡ done (tt, s') → Step n s n s'
  server_ends :
      (l : ℕ) (m : Option ℕ) (e : Error) {s' : Server} → finish l m s ≡ done (e, s') → Step n s n s'

-- No client has come yet.
pub record IsInitial (s : Server) : Type 0 where
  pub unlocked : s.clients_mu ≡ free
  pub no_clients : s.clients ≡ []
  pub no_ids : s.next_client_id ≡ 0
  pub no_infos : s.fresh ≡ 0
  pub no_readers : All (IsTask 0 0) s.tasks

-- After `j` actions.
pub data Reach : ℕ → ℕ → Server → Type 0 where
  begin : {n : ℕ} {s : Server} → IsInitial s → Reach 0 n s
  act : {j n n' : ℕ} {s s' : Server} → Reach j n s → Step n s n' s' → Reach (suc j) n' s'
