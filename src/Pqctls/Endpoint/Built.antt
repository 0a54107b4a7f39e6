-- ===== src/Pqctls/Endpoint/Built.antt =====
-- The constructors of a listener and a dialer.
use ngp_mtls.Prelude.{
  ◌≡◌, refl, ◌⊎◌, inl, inr, Bool, Bool-cases, true, false, Option, none, some, List, [], ◌∷◌, Bytes,
  arith, if◌then◌else◌,
}
use ngp_mtls.Pqctls.Context.{
  Call, Role, server_side, client_side, ctx_new, create_server_ctx, create_client_ctx,
}
use ngp_mtls.Pqctls.Context.Strict
use ngp_mtls.Pqctls.Context.Strict.{
  Planned, calls, Succeeds, server_plan, client_plan, create_ctx_lem,
}
use ngp_mtls.Pqctls.Endpoint.{
  SetUpError, no_certificate, no_key, no_ca, no_context, SetUp, set_up, failed, c_string, keep,
  is_missing, new_listener, new_dialer,
}

-- A file that may be left out: the empty name stands for none.
abbrev pub optional : Bytes → Option Bytes
optional [] = none
optional (b ∷ bs) = some (b ∷ bs)

optional-c_string : (file : Bytes) → optional file ≡ c_string file
optional-c_string [] = refl
optional-c_string (b ∷ bs) = refl

module _ (missing : Bytes → Bool) (answers : Call → Bool) where
  -- An error is right about what went wrong: the file was given and does not exist, or the context
  -- could not be set up.
  abbrev pub Blames :
      Role → List Planned → (Option Bytes × Option Bytes × Option Bytes) → SetUpError → Type 0
  Blames role plan (cert, key, ca) (no_certificate file) =
      (cert ≡ some file) × (missing file ≡ true)
  Blames role plan (cert, key, ca) (no_key file) = (key ≡ some file) × (missing file ≡ true)
  Blames role plan (cert, key, ca) (no_ca file) = (ca ≡ some file) × (missing file ≡ true)
  Blames role plan files no_context = answers (ctx_new role) ≡ true → Succeeds answers plan → ⊥

  -- How a constructor of a listener or a dialer ends.
  abbrev pub Built :
      Role → List Planned → (Option Bytes × Option Bytes × Option Bytes) → SetUp → Type 0
  Built role plan (cert, key, ca) out =
      ((log : List Call) × (out ≡ set_up log)
        × (is_missing missing cert ≡ false)
        × (is_missing missing key ≡ false)
        × (is_missing missing ca ≡ false)
        × (log ≡ ctx_new role ∷ calls plan)
        × (answers (ctx_new role) ≡ true)
        × Succeeds answers plan)
      ⊎ ((e : SetUpError) × (out ≡ failed e) × Blames role plan (cert, key, ca) e)

  kept :
      (role : Role) (plan : List Planned) (files : Option Bytes × Option Bytes × Option Bytes)
      (out : Bool × List Call)
      → is_missing missing files.0 ≡ false
      → is_missing missing files.1 ≡ false
      → is_missing missing files.2 ≡ false
      → Strict.Ended answers role plan out
      → Built role plan files (keep out)
  unfolding keep
  kept role plan (cert, key, ca) (made, log) c k a (inl (got, same, new, good)) =
      inl (log, ground arith, c, k, a, same, new, good)
  kept role plan (cert, key, ca) (made, log) c k a (inr (none_made, bad, freed)) =
      inr (no_context, ground arith, bad)

  -- The tests for missing files, before the context is made.
  tested :
      (role : Role) (plan : List Planned) (cert key ca : Option Bytes) (c k a : Bytes)
      (out : Bool × List Call) (result : SetUp)
      → (is_missing missing cert ≡ true → (cert ≡ some c) × (missing c ≡ true))
      → (is_missing missing key ≡ true → (key ≡ some k) × (missing k ≡ true))
      → (is_missing missing ca ≡ true → (ca ≡ some a) × (missing a ≡ true))
      → Strict.Ended answers role plan out
      → result ≡ (
          if is_missing missing cert
          then failed (no_certificate c)
          else if is_missing missing key
          then failed (no_key k)
          else if is_missing missing ca
          then failed (no_ca a)
          else keep out)
      → Built role plan (cert, key, ca) result
  tested role plan cert key ca c k a out result mc mk ma h same =
      elim (Bool-cases (is_missing missing cert)) [
        | inl bad ↦ inr (no_certificate c, ground arith, mc bad)
        | inr has_cert ↦ elim (Bool-cases (is_missing missing key)) [
          | inl bad ↦ inr (no_key k, ground arith, mk bad)
          | inr has_key ↦ elim (Bool-cases (is_missing missing ca)) [
            | inl bad ↦ inr (no_ca a, ground arith, ma bad)
            | inr has_ca ↦
                let last : result ≡ keep out = ground arith in
                rw last (kept role plan (cert, key, ca) out has_cert has_key has_ca h)
          ]
        ]
      ]

  given :
      (file : Bytes)
      → is_missing missing (c_string file) ≡ true
      → (c_string file ≡ some file) × (missing file ≡ true)
  given [] h = absurd cc
  given (b ∷ bs) h = (refl, h)

  -- Whatever files exist and whatever OpenSSL answers, both constructors, of a listener and of a
  -- dialer, either make one, and then all files that are given exist, every call of its context's
  -- set-up whose result is looked at succeeded, and exactly these calls were made for the context; or
  -- they return an error, which names a file that was given (a dialer's may each be left out, of a
  -- listener's the CA file) and does not exist, or says that the context could not be set up,
  -- and then one of these calls fails.
  pub new_endpoint_lem :
      (cert key ca : Bytes)
      → Built server_side
          (server_plan cert key (optional ca))
          (some cert, some key, optional ca)
          (new_listener missing answers cert key ca)
        × Built client_side
            (client_plan (optional cert) (optional key) (optional ca))
            (optional cert, optional key, optional ca)
            (new_dialer missing answers cert key ca)
  unfolding new_listener new_dialer
  new_endpoint_lem cert key ca =
      rw (optional-c_string cert, optional-c_string key, optional-c_string ca)
        (
          tested server_side (server_plan cert key (c_string ca)) (some cert) (some key)
              (c_string ca) cert key ca (create_server_ctx answers cert key (c_string ca)) _
              (λ h. (refl, h)) (λ h. (refl, h)) (given ca)
              (create_ctx_lem answers cert key none none (c_string ca)).0 refl,
          tested client_side (client_plan (c_string cert) (c_string key) (c_string ca))
              (c_string cert) (c_string key) (c_string ca) cert key ca
              (create_client_ctx answers (c_string cert) (c_string key) (c_string ca)) _
              (given cert) (given key) (given ca)
              (create_ctx_lem answers cert key (c_string cert) (c_string key) (c_string ca)).1 refl,
        )
