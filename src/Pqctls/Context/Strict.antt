-- ===== src/Pqctls/Context/Strict.antt =====
-- The contexts allow what the program means to allow, and failures leave no context behind.
use ngp_mtls.Prelude.{
  ℕ, ◌+◌, ◌≡◌, refl, sym, ◌∙◌, ◌⊎◌, inl, inr, Bool, Bool-cases, true, false, Option, none, some,
  List, [], ◌∷◌, ◌++◌, append_assoc, append-nil, Bytes, if◌then◌else◌,
}
use ngp_mtls.Pqctls.Context.{
  Role, server_side, client_side, Call, ctx_new, set_min_version, set_max_version, set_groups,
  set_sigalgs, use_certificate, use_private_key, load_ca, check_private_key, ctx_free, set_verify,
  set_verify_depth, tls1_3, verify_peer, fail_if_no_peer_cert, groups, sigalgs, Rest, returned,
  call, must, create_server_ctx, create_client_ctx,
}

-- A call that the program makes, with whether it looks at the result.
abbrev pub Planned : Type 0
Planned = Bool × Call

abbrev pub calls : List Planned → List Call
calls [] = []
calls ((checked, c) ∷ plan) = c ∷ calls plan

abbrev file_plan : (Bytes → Call) → Option Bytes → List Planned
file_plan f none = []
file_plan f (some file) = (true, f file) ∷ []

abbrev match_plan : Option Bytes → Option Bytes → List Planned
match_plan (some cert) (some key) = (true, check_private_key) ∷ []
match_plan (some cert) none = []
match_plan none key = []

-- TLS 1.3 and nothing else, the post-quantum groups and signatures and nothing else.
abbrev strict : List Planned
strict =
    (false, set_min_version tls1_3)
    ∷ (false, set_max_version tls1_3)
    ∷ (true, set_groups groups)
    ∷ (true, set_sigalgs sigalgs)
    ∷ []

abbrev verified : ℕ → List Planned
verified mode = (false, set_verify mode) ∷ (false, set_verify_depth 1) ∷ []

-- What is set up for the server: its certificate and key, the certificates it trusts, and clients
-- without a certificate are refused.
abbrev pub server_plan : Bytes → Bytes → Option Bytes → List Planned
server_plan cert key ca =
    strict
    ++ ((true, use_certificate cert)
        ∷ (true, use_private_key key)
        ∷ (true, check_private_key)
        ∷ (file_plan load_ca ca ++ verified (verify_peer + fail_if_no_peer_cert)))

-- The same for the client, whose files may be missing; the server's certificate is verified.
abbrev pub client_plan : Option Bytes → Option Bytes → Option Bytes → List Planned
client_plan cert key ca =
    strict
    ++ (file_plan use_certificate cert
        ++ (file_plan use_private_key key
            ++ (match_plan cert key ++ (file_plan load_ca ca ++ verified verify_peer))))

module _ (answers : Call → Bool) where
  -- A plan, carried out until a result that is looked at is bad.
  abbrev carry : List Planned → Rest
  carry [] = returned
  carry ((true, c) ∷ plan) = must answers c (carry plan)
  carry ((false, c) ∷ plan) = call answers c (carry plan)

  abbrev pub Succeeds : List Planned → Type 0
  Succeeds [] = Unit
  Succeeds ((true, c) ∷ plan) = (answers c ≡ true) × Succeeds plan
  Succeeds ((false, c) ∷ plan) = Succeeds plan

  -- How a constructor of a context ends.
  abbrev pub Ended : Role → List Planned → Bool × List Call → Type 0
  Ended role plan (made, log) =
      ((made ≡ true)
        × (log ≡ ctx_new role ∷ calls plan)
        × (answers (ctx_new role) ≡ true)
        × Succeeds plan)
      ⊎ ((made ≡ false)
          × (answers (ctx_new role) ≡ true → Succeeds plan → ⊥)
          × ((log ≡ ctx_new role ∷ []) ⊎ ((before : List Call) × (log ≡ before ++ ctx_free ∷ []))))

  carry_lem :
      (plan : List Planned) (log : List Call)
      → (((carry plan log).0 ≡ true) × ((carry plan log).1 ≡ log ++ calls plan) × Succeeds plan)
        ⊎ (((carry plan log).0 ≡ false)
            × (Succeeds plan → ⊥)
            × ((before : List Call) × ((carry plan log).1 ≡ before ++ ctx_free ∷ [])))
  carry_lem [] log = inl (refl, sym (append-nil log), tt)
  carry_lem ((false, c) ∷ plan) log = elim (carry_lem plan (log ++ c ∷ [])) [
    | inl (made, same, good) ↦ inl (made, same ∙ append_assoc log (c ∷ []) (calls plan), good)
    | inr failed ↦ inr failed
  ]
  carry_lem ((true, c) ∷ plan) log = elim (Bool-cases (answers c)) [
    | inl good ↦ rw good (elim (carry_lem plan (log ++ c ∷ [])) [
      | inl (made, same, all_good) ↦
          inl (made, same ∙ append_assoc log (c ∷ []) (calls plan), (refl, all_good))
      | inr (none_made, bad, freed) ↦ inr (none_made, (λ h. bad h.1), freed)
    ])
    | inr bad ↦
        rw bad
          (inr (refl, (λ h. cc), (log ++ c ∷ [], sym (append_assoc log (c ∷ []) (ctx_free ∷ [])))))
  ]

  start_lem :
      (role : Role) (plan : List Planned) (out : Bool × List Call)
      → out ≡ (
          if answers (ctx_new role)
          then carry plan (ctx_new role ∷ [])
          else (false, ctx_new role ∷ []))
      → Ended role plan out
  start_lem role plan out e = elim (Bool-cases (answers (ctx_new role))) [
    | inl good ↦
        let same : out ≡ carry plan (ctx_new role ∷ []) = e ∙ rw good refl in
        rw same (elim (carry_lem plan (ctx_new role ∷ [])) [
          | inl (made, whole, all_good) ↦ inl (made, whole, good, all_good)
          | inr (none_made, bad, freed) ↦ inr (none_made, (λ _. bad), inr freed)
        ])
    | inr bad ↦
        let same : out ≡ (false, ctx_new role ∷ []) = e ∙ rw bad refl in
        rw same (inr (refl, (λ h _. cc), inl refl))
  ]

  -- For the server.
  create_server_ctx_lem :
      (cert key : Bytes) (ca : Option Bytes)
      → Ended server_side (server_plan cert key ca) (create_server_ctx answers cert key ca)
  unfolding create_server_ctx
  create_server_ctx_lem cert key none = start_lem server_side (server_plan cert key none) _ refl
  create_server_ctx_lem cert key (some ca) =
      start_lem server_side (server_plan cert key (some ca)) _ refl

  -- For the client, whose files may be left out.
  create_client_ctx_lem :
      (cert key ca : Option Bytes)
      → Ended client_side (client_plan cert key ca) (create_client_ctx answers cert key ca)
  unfolding create_client_ctx
  create_client_ctx_lem none none none = start_lem client_side (client_plan none none none) _ refl
  create_client_ctx_lem none none (some a) =
      start_lem client_side (client_plan none none (some a)) _ refl
  create_client_ctx_lem none (some k) none =
      start_lem client_side (client_plan none (some k) none) _ refl
  create_client_ctx_lem none (some k) (some a) =
      start_lem client_side (client_plan none (some k) (some a)) _ refl
  create_client_ctx_lem (some c) none none =
      start_lem client_side (client_plan (some c) none none) _ refl
  create_client_ctx_lem (some c) none (some a) =
      start_lem client_side (client_plan (some c) none (some a)) _ refl
  create_client_ctx_lem (some c) (some k) none =
      start_lem client_side (client_plan (some c) (some k) none) _ refl
  create_client_ctx_lem (some c) (some k) (some a) =
      start_lem client_side (client_plan (some c) (some k) (some a)) _ refl

  -- Whatever OpenSSL answers, a context is returned exactly when it could be made and every call of
  -- the set-up whose result is looked at succeeded, and then exactly these calls were made for it,
  -- in this order: TLS 1.3 as the lowest and the highest version, the post-quantum groups and
  -- signatures, the certificate and the key and the check that they fit (for a client, those that
  -- are given), the certificates to trust if they are given, the verification of the peer (for a
  -- server, with the demand for a certificate) and its depth 1. Otherwise NULL is returned, and
  -- either no context could be made, or it was freed last.
  pub create_ctx_lem :
      (cert key : Bytes) (cert_file key_file ca : Option Bytes)
      → Ended server_side (server_plan cert key ca) (create_server_ctx answers cert key ca)
        × Ended client_side
            (client_plan cert_file key_file ca)
            (create_client_ctx answers cert_file key_file ca)
  create_ctx_lem cert key cert_file key_file ca =
      (create_server_ctx_lem cert key ca, create_client_ctx_lem cert_file key_file ca)
