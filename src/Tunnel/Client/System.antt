-- ===== src/Tunnel/Client/System.antt =====
-- internal/tunnel/client.go as a whole: the loop of `Run` and the goroutines that read local
-- connections, their actions in any order. An action is what one goroutine does between two waits
-- for a connection. The system hands out connections by number; `n` is the next one.
pub mod Invariant
pub mod Safety
pub mod History
use ngp_mtls.Prelude.{
  Has, ℕ, suc, ◌^◌, ◌≤◌, ◌<◌, ◌≡◌, Bool, true, false, Option, none, some, List, [], ◌∷◌, Bytes,
  IsBytes, length, Error, Result, ok, err, ◌==◌, ◌&&◌, if◌then◌else◌,
}
use ngp_mtls.Proto.{Frame}
use ngp_mtls.Proto.RoundTrip.{IsSendable}
use ngp_mtls.Tunnel.Client.{Client, init_frame, send_init_config, close_control_conn}
use ngp_mtls.Tunnel.Client.Frames.{handle_frame}
use ngp_mtls.Tunnel.Client.Forward.{Poll, ctx_done, got, failed, forward_local}
use ngp_mtls.Tunnel.Client.Run.{connect_to_server}
use ngp_mtls.Tunnel.Client.Settings.{IsConfigured}

-- The next dial returns the connection `n`, or an error.
abbrev pub offered : ℕ → Option Error → Client → Client
offered n none s = record s { net = record s.net { dials = ok n ∷ [] } }
offered n (some e) s = record s { net = record s.net { dials = err e ∷ [] } }

abbrev pub without : ℕ → ℕ → List (ℕ × ℕ) → List (ℕ × ℕ)
without k l [] = []
without k l ((j, m) ∷ ts) = if j == k && m == l then without k l ts else (j, m) ∷ without k l ts

-- A goroutine whose loop has ended is gone.
abbrev pub after_round : ℕ → ℕ → Bool × Client → Client
after_round k l (again, s) = if again then s else record s { tasks = without k l s.tasks }

-- What `Read` of a local connection may return.
abbrev pub IsPoll : Poll → Type 0
IsPoll ctx_done = Unit
IsPoll (got b) = IsBytes b × (length b ≤ 4096)
IsPoll (failed e) = Unit

pub data Step (n : ℕ) (s : Client) : ℕ → Client → Type 0 where
  connects : s.control_conn ≡ none → Step n s (suc n) (connect_to_server (ok n) s).1
  configures : Step n s n (send_init_config s).1
  loses : Step n s n (close_control_conn s).1
  frame_arrives :
      (f : Frame) (r : Option Error)
      → f.conn_id < 2 ^ 32
      → Step n s (suc n) (handle_frame f (offered n r s)).1
  reads :
      (k l : ℕ) (poll : Poll)
      → Has (k, l) s.tasks
      → IsPoll poll
      → Step n s n (after_round k l (forward_local k l (poll ∷ []) s))

-- Nothing is connected yet.
pub record IsInitial (s : Client) : Type 0 where
  pub configured : IsConfigured s
  pub no_control : s.control_conn ≡ none
  pub no_tasks : s.tasks ≡ []
  pub no_locals : s.conn_map ≡ []
  pub none_open : (c : ℕ) → s.net.is_open c ≡ false

pub data Reach : ℕ → Client → Type 0 where
  begin : {n : ℕ} {s : Client} → IsInitial s → Reach n s
  act : {n n' : ℕ} {s s' : Client} → Reach n s → Step n s n' s' → Reach n' s'

-- The context is cancelled: goroutines have one round more each, in any order. `m` rounds have been.
pub data Winding (s : Client) : ℕ → Client → Type 0 where
  unwound : Winding s 0 s
  unwinds :
      (k l : ℕ) {m : ℕ} {t : Client}
      → Winding s m t
      → Has (k, l) t.tasks
      → Winding s (suc m) (after_round k l (forward_local k l (ctx_done ∷ []) t))
