-- ===== src/Pqctls.antt =====
-- internal/pqctls/pqc_tls_openssl.go: the check of the negotiated algorithms and the handshake loop
-- of `Accept`. What OpenSSL answers is the input: each attempt of `SSL_accept` with what the
-- functions that are called after it return.
pub mod Accepts
pub mod Context
pub mod Conn
pub mod Endpoint
pub mod Standard
use ngp_mtls.Prelude.{
  ℕ, zero, suc, Bool, true, false, ◌&&◌, ◌||◌, not, ◌==◌, if◌then◌else◌, Option, none, some, List,
  [], ◌∷◌, Bytes, codes, ℤ, positive,
}

-- `strncmp(s, p, strlen(p)) == 0`.
abbrev pub starts : Bytes → Bytes → Bool
starts [] s = true
starts (a ∷ p) [] = false
starts (a ∷ p) (b ∷ s) = a == b && starts p s

-- `strstr(s, p) != NULL`.
abbrev pub contains : Bytes → Bytes → Bool
contains p [] = starts p []
contains p (b ∷ s) = starts p (b ∷ s) || contains p s

-- `verify_pqc_algorithms`, for the negotiated group and its name.
pub verify_pqc_algorithms : ℤ → Option Bytes → Bool
verify_pqc_algorithms group none = false
verify_pqc_algorithms group (some name) =
    positive group
    && not (
        not (contains (codes "MLKEM") name)
        && not (contains (codes "ML-KEM") name)
        && not (contains (codes "KYBER") name)
        && not (contains (codes "mlkem") name)
        && not (contains (codes "ml-kem") name))

-- An attempt of `SSL_accept`: it succeeds, wants to read or write more, or fails with another code.
pub data Attempt : Type 0 where
  shaken : ℤ → Option Bytes → Attempt
  wants_more : Attempt
  broken : ℕ → Attempt

-- The SSL object and the connection below it.
pub record Handle : Type 0 where
  pub ssl_live : Bool
  pub conn_open : Bool

-- What `Accept` returns: a connection, one of its errors, or nothing yet.
pub data Accepted : Type 0 where
  accepted : Handle → Accepted
  not_pqc : Handle → Accepted
  accept_failed : ℕ → Handle → Accepted
  waiting : Handle → Accepted

-- `SSL_free(ssl)` and `conn.Close()`.
abbrev pub dropped : Handle → Handle
dropped h = record { ssl_live = false; conn_open = false }

-- The loop of `Accept`.
pub accept_loop : List Attempt → Handle → Accepted
accept_loop [] h = waiting h
accept_loop (shaken group name ∷ rest) h =
    if verify_pqc_algorithms group name then accepted h else not_pqc (dropped h)
accept_loop (wants_more ∷ rest) h = accept_loop rest h
accept_loop (broken code ∷ rest) h = accept_failed code (dropped h)
