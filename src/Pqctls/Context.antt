-- ===== src/Pqctls/Context.antt =====
-- internal/pqctls/pqc_tls_openssl.go: `create_server_ctx` and `create_client_ctx`. A context is
-- known by the calls of OpenSSL that were made for it, in their order; `answers` says which of them
-- succeed.
pub mod Strict
use ngp_mtls.Prelude.{
  ℕ, ◌+◌, Bool, true, false, Option, none, some, List, [], ◌∷◌, ◌++◌, Bytes, codes, if◌then◌else◌,
}

pub data Role : Type 0 where
  server_side client_side : Role

-- The calls, without their context argument.
pub data Call : Type 0 where
  ctx_new : Role → Call
  set_min_version set_max_version : ℕ → Call
  set_groups set_sigalgs use_certificate use_private_key load_ca : Bytes → Call
  check_private_key ctx_free : Call
  set_verify set_verify_depth : ℕ → Call

-- `TLS1_3_VERSION`, `SSL_VERIFY_PEER` and `SSL_VERIFY_FAIL_IF_NO_PEER_CERT`.
abbrev pub tls1_3 : ℕ
tls1_3 = 0x0304

abbrev pub verify_peer : ℕ
verify_peer = 0x01

abbrev pub fail_if_no_peer_cert : ℕ
fail_if_no_peer_cert = 0x02

abbrev pub groups : Bytes
groups = codes "MLKEM768:MLKEM512:MLKEM1024"

abbrev pub sigalgs : Bytes
sigalgs = codes "MLDSA65:MLDSA44:MLDSA87"

-- What is left of the function, after the calls made so far: whether a context is returned (and not
-- NULL), and all calls.
abbrev pub Rest : Type 0
Rest = List Call → Bool × List Call

abbrev pub returned : Rest
returned log = (true, log)

module _ (answers : Call → Bool) where
  -- A call whose result is not looked at.
  abbrev pub call : Call → Rest → Rest
  call c rest log = rest (log ++ c ∷ [])

  -- A call behind which a failure frees the context and returns NULL.
  abbrev pub must : Call → Rest → Rest
  must c rest log = if answers c then rest (log ++ c ∷ []) else (false, log ++ c ∷ ctx_free ∷ [])

  -- `if (file && call(file) <= 0)`.
  abbrev pub must_with : (Bytes → Call) → Option Bytes → Rest → Rest
  must_with f none rest = rest
  must_with f (some file) rest = must (f file) rest

  -- `if (cert_file && key_file && !SSL_CTX_check_private_key(ctx))`.
  abbrev pub must_match : Option Bytes → Option Bytes → Rest → Rest
  must_match (some cert) (some key) rest = must check_private_key rest
  must_match (some cert) none rest = rest
  must_match none key rest = rest

  -- `create_server_ctx`.
  pub create_server_ctx : Bytes → Bytes → Option Bytes → Bool × List Call
  create_server_ctx cert key ca =
      if answers (ctx_new server_side)
      then call (set_min_version tls1_3)
          (call (set_max_version tls1_3) (
            must (set_groups groups) (
              must (set_sigalgs sigalgs) (
                must (use_certificate cert) (
                  must (use_private_key key) (
                    must check_private_key (
                      must_with load_ca ca (
                        call (set_verify (verify_peer + fail_if_no_peer_cert))
                          (call (set_verify_depth 1) returned)))))))))
          (ctx_new server_side ∷ [])
      else (false, ctx_new server_side ∷ [])

  -- `create_client_ctx`.
  pub create_client_ctx : Option Bytes → Option Bytes → Option Bytes → Bool × List Call
  create_client_ctx cert key ca =
      if answers (ctx_new client_side)
      then call (set_min_version tls1_3)
          (call (set_max_version tls1_3) (
            must (set_groups groups) (
              must (set_sigalgs sigalgs) (
                must_with use_certificate cert (
                  must_with use_private_key key (
                    must_match cert key (
                      must_with load_ca ca
                        (call (set_verify verify_peer) (call (set_verify_depth 1) returned)))))))))
          (ctx_new client_side ∷ [])
      else (false, ctx_new client_side ∷ [])
