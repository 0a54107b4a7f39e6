-- ===== src/Tunnel/Client.antt =====
-- internal/tunnel/client.go: the client's state, the monad of its code, and the frames that it sends.
-- `controlMu` only guards single reads and writes of `controlConn`, which are single steps here.
pub mod Frames
pub mod Forward
pub mod Run
pub mod Steps
pub mod Settings
pub mod Sound
pub mod Moves
pub mod System
use ngp_mtls.Prelude.{
  ℕ, Bool, Option, none, some, List, [], ◌∷◌, Bytes, insert, delete, nat_eq, Error, no_control_conn,
  Result, ok, err, ℤ, positive, if◌then◌else◌,
}
use ngp_mtls.Proto
use ngp_mtls.Proto.{Frame, bare_frame, encode_frame}
use ngp_mtls.Proto.Init.{encode_init_config}
use ngp_mtls.Tunnel.Net.{Net, write, close}

-- `Client`, with its connections, and in `tasks` the `forwardLocalToServer` goroutines it started.
pub record Client : Type 0 where
  pub server_addr : Bytes
  pub local_addr : Bytes
  pub remote_port : ℤ
  pub use_tls : Bool
  pub tls_cert_file : Bytes
  pub tls_key_file : Bytes
  pub tls_ca_file : Bytes
  pub server_name : Bytes
  pub control_conn : Option ℕ
  pub conn_map : List (ℕ × ℕ)
  pub net : Net
  pub tasks : List (ℕ × ℕ)

abbrev pub M : Type 0 → Type 0
M A = Client → A × Client

abbrev pub pure : {A : Type 0} → A → M A
pure a s = (a, s)

infixl 5 ◌>>=◌ ◌>>◌
abbrev pub ◌>>=◌ : {A B : Type 0} → M A → (A → M B) → M B
◌>>=◌ m f s = let (a, s') = m s in f a s'

abbrev pub ◌>>◌ : {B : Type 0} → M (Unit {0}) → M B → M B
m >> k = m >>= λ _. k

abbrev pub modify : (Client → Client) → M (Unit {0})
modify f s = (tt, f s)

abbrev pub gets : {A : Type 0} → (Client → A) → M A
gets f s = (f s, s)

abbrev pub close_conn : ℕ → M (Unit {0})
close_conn c = modify λ s. record s { net = close c s.net }

abbrev pub store_conn : ℕ → ℕ → M (Unit {0})
store_conn k c = modify λ s. record s { conn_map = insert k c s.conn_map }

abbrev pub delete_conn : ℕ → M (Unit {0})
delete_conn k = modify λ s. record s { conn_map = delete k s.conn_map }

abbrev pub go_forward : ℕ → ℕ → M (Unit {0})
go_forward k c = modify λ s. record s { tasks = (k, c) ∷ s.tasks }

pub write_conn : ℕ → Bytes → M (Option Error)
write_conn c b s = let (e, w) = write c b s.net in (e, record s { net = w })

-- `EncodeFrame` and then `Write`, with the error of the step that failed.
pub send : ℕ → Frame → M (Option Error)
send c f = elim (encode_frame (some f)) [ err e ↦ pure (some e) | ok b ↦ write_conn c b ]

-- `sendCloseFrame`: errors are only logged.
pub send_close_frame : ℕ → M (Unit {0})
send_close_frame conn_id = do
  control ← gets (λ s. s.control_conn)
  elim control [ none ↦ pure tt | some c ↦ do _ ← send c (bare_frame Proto.close conn_id); pure tt ]

abbrev pub init_frame : Client → Frame
init_frame s = record {
  frame_type = Proto.init;
  conn_id = 0;
  payload = encode_init_config (record { remote_port = s.remote_port; local_addr = s.local_addr });
}

-- `sendInitConfig`.
pub send_init_config : M (Option Error)
send_init_config s =
    if positive s.remote_port
    then elim s.control_conn [ none ↦ (some no_control_conn, s) | some c ↦ send c (init_frame s) s ]
    else (none, s)

-- `closeControlConn`.
pub close_control_conn : M (Unit {0})
close_control_conn = do
  control ← gets (λ s. s.control_conn)
  elim control [
    | none ↦ pure tt
    | some c ↦ modify λ s. record s { control_conn = none; net = close c s.net }
  ]
