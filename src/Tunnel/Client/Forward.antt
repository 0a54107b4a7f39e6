-- ===== src/Tunnel/Client/Forward.antt =====
-- internal/tunnel/client.go: `forwardLocalToServer`, the goroutine that reads a local connection.
pub mod Relay
pub mod Stale
pub mod Sound
pub mod Said
use ngp_mtls.Prelude.{
  ℕ, Bool, true, false, Option, none, some, List, [], ◌∷◌, Bytes, length, ltb, if◌then◌else◌, Error,
}
use ngp_mtls.Proto
use ngp_mtls.Proto.{Frame, bare_frame, data_frame}
use ngp_mtls.Tunnel.Client.{
  Client, M, pure, ◌>>=◌, ◌>>◌, gets, close_conn, delete_conn, send, send_close_frame,
}

-- What one round meets: the context is cancelled, or `Read` returns bytes or an error (the end of the
-- file among them).
pub data Poll : Type 0 where
  ctx_done : Poll
  got : Bytes → Poll
  failed : Error → Poll

-- A DATA frame; the loop goes on if it could be sent.
pub forward : ℕ → Bytes → M Bool
forward conn_id b = do
  control ← gets (λ s. s.control_conn)
  elim control [
    | none ↦ pure false
    | some c ↦ do e ← send c (data_frame conn_id b); pure (elim e [ none ↦ true | some _ ↦ false ])
  ]

-- One round of the loop; `true` if there is a next one.
pub forward_round : ℕ → Poll → M Bool
forward_round conn_id ctx_done = do send_close_frame conn_id; pure false
forward_round conn_id (got b) = if ltb 0 (length b) then forward conn_id b else pure true
forward_round conn_id (failed e) = do send_close_frame conn_id; pure false

-- The goroutine over what its rounds meet, with nothing in between, and its deferred function;
-- `false` if it has ended, and `true` if it waits for more.
pub forward_local : ℕ → ℕ → List Poll → M Bool
forward_local conn_id local_conn [] = pure true
forward_local conn_id local_conn (poll ∷ polls) = do
  again ← forward_round conn_id poll
  if again
      then forward_local conn_id local_conn polls
      else (do close_conn local_conn; delete_conn conn_id; pure false)
