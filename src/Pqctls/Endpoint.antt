-- ===== src/Pqctls/Endpoint.antt =====
-- internal/pqctls/pqc_tls_openssl.go: the listener and the dialer. Inputs stand for what the system
-- and OpenSSL answer.
pub mod Safe
pub mod Built
use ngp_mtls.Prelude.{
  ℕ, ◌+◌, Bool, true, false, ◌&&◌, not, Option, none, some, List, [], ◌∷◌, Bytes, if◌then◌else◌,
  Error, Result, ok, err,
}
use ngp_mtls.Pqctls.{
  Attempt, Handle, Accepted, accept_loop, accepted, not_pqc, accept_failed, waiting,
}
use ngp_mtls.Pqctls.Context.{Call, create_server_ctx, create_client_ctx}

-- What `Accept` and `Dial` meet: the connection that is accepted or dialled, the errors of
-- `SyscallConn` and of `Control`, whether `SSL_new` and `SSL_set_fd` succeed, and the attempts of
-- the handshake.
pub record Meeting : Type 0 where
  pub arrival : Option Error
  pub raw : Option Error
  pub control : Option Error
  pub made : Bool
  pub fd_set : Bool
  pub attempts : List Attempt

pub data Refusal : Type 0 where
  no_conn no_raw no_fd : Error → Refusal
  no_ssl no_set_fd no_pqc : Refusal
  handshake : ℕ → Refusal

-- The result, with what has become of the SSL object and the connection; `pending` while the
-- handshake goes on.
pub data Met : Type 0 where
  secured : Handle → Met
  refused : Refusal → Handle → Met
  pending : Handle → Met

abbrev pub closed : Handle
closed = record { ssl_live = false; conn_open = false }

abbrev pub started : Handle
started = record { ssl_live = true; conn_open = true }

from_loop : Accepted → Met
from_loop (accepted h) = secured h
from_loop (not_pqc h) = refused no_pqc h
from_loop (accept_failed code h) = refused (handshake code) h
from_loop (waiting h) = pending h

-- From `SSL_new` on.
secure : Meeting → Met
secure m =
    if m.made
    then (if m.fd_set then from_loop (accept_loop m.attempts started) else refused no_set_fd closed)
    else refused no_ssl closed

-- `PQCListener.Accept`.
pub accept_conn : Meeting → Met
accept_conn m = elim m.arrival [
  | some e ↦ refused (no_conn e) closed
  | none ↦ elim m.raw [
    | some e ↦ refused (no_raw e) closed
    | none ↦ elim m.control [ some e ↦ refused (no_fd e) closed | none ↦ secure m ]
  ]
]

-- `PQCDialer.Dial`: the same code, around `net.Dial` and `SSL_connect`.
pub dial_conn : Meeting → Met
dial_conn m = elim m.arrival [
  | some e ↦ refused (no_conn e) closed
  | none ↦ elim m.raw [
    | some e ↦ refused (no_raw e) closed
    | none ↦ elim m.control [ some e ↦ refused (no_fd e) closed | none ↦ secure m ]
  ]
]

-- The errors of the constructors.
pub data SetUpError : Type 0 where
  no_certificate no_key no_ca : Bytes → SetUpError
  no_context : SetUpError

pub data SetUp : Type 0 where
  set_up : List Call → SetUp
  failed : SetUpError → SetUp

-- `""` stands for a file that is not given, and becomes NULL.
abbrev pub c_string : Bytes → Option Bytes
c_string [] = none
c_string (b ∷ bs) = some (b ∷ bs)

-- The context that a constructor keeps, with the calls that set it up.
keep : Bool × List Call → SetUp
keep (made, log) = if made then set_up log else failed no_context

-- `missing` is the test of `os.Stat` for a file that does not exist; a file may be left out.
abbrev pub is_missing : (Bytes → Bool) → Option Bytes → Bool
is_missing missing none = false
is_missing missing (some file) = missing file

module _ (missing : Bytes → Bool) (answers : Call → Bool) where
  -- `NewPQCListenerOpenSSL`.
  pub new_listener : Bytes → Bytes → Bytes → SetUp
  new_listener cert key ca =
      if missing cert
      then failed (no_certificate cert)
      else if missing key
      then failed (no_key key)
      else if is_missing missing (c_string ca)
      then failed (no_ca ca)
      else keep (create_server_ctx answers cert key (c_string ca))

  -- `NewPQCDialerOpenSSL`.
  pub new_dialer : Bytes → Bytes → Bytes → SetUp
  new_dialer cert key ca =
      if is_missing missing (c_string cert)
      then failed (no_certificate cert)
      else if is_missing missing (c_string key)
      then failed (no_key key)
      else if is_missing missing (c_string ca)
      then failed (no_ca ca)
      else keep (create_client_ctx answers (c_string cert) (c_string key) (c_string ca))

-- A listener or a dialer: whether its context is there, how often it was freed, and whether the
-- listener below it is open.
pub record Endpoint : Type 0 where
  pub ctx : Bool
  pub frees : ℕ
  pub listens : Bool

free_ctx : Endpoint → Endpoint
free_ctx e = if e.ctx then record e { ctx = false; frees = e.frees + 1 } else e

-- `PQCListener.Close`.
pub close_listener : Endpoint → Endpoint
close_listener e = record (free_ctx e) { listens = false }

-- `PQCDialer.Close`.
pub close_dialer : Endpoint → Endpoint
close_dialer = free_ctx
