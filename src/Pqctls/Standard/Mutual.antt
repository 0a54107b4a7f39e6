-- ===== src/Pqctls/Standard/Mutual.antt =====
-- Both configurations are for mutual TLS 1.3.
use ngp_mtls.Prelude.{
  ◌≡◌, refl, ◌⊎◌, inl, inr, true, Option, Option-cases, some, Bytes, Result, Result-cases, ok,
  arith,
}
use ngp_mtls.Pqctls.Standard.{
  TlsFiles, TlsConfig, ConfigError, Configured, configured, refused, certificate_failed, ca_failed,
  ca_unreadable, version_tls13, load, new_server_tls_config, new_client_tls_config,
}

module _ {Cert Pool : Type 0} (load_pair : Bytes → Bytes → Result Cert)
    (read : Bytes → Result Bytes) (append : Bytes → Option Pool) where
  -- The certificate is that of the files, and `pool` holds what the CA file has.
  abbrev pub Loads : TlsFiles → Cert → Pool → Type 0
  Loads f cert pool =
      (load_pair f.cert_file f.key_file ≡ ok cert)
      × ((text : Bytes) × (read f.ca_file ≡ ok text) × (append text ≡ some pool))

  -- A configuration for TLS 1.3 only.
  abbrev pub Modern : TlsConfig Cert Pool → Type 0
  Modern c = (c.min_version ≡ version_tls13) × (c.max_version ≡ version_tls13)

  -- How a constructor of a configuration ends: with the one that `make` builds of what the files
  -- have, or with an error when a file cannot be loaded.
  abbrev pub Ended :
      TlsFiles
      → (TlsConfig Cert Pool → Cert → Pool → Type 0)
      → Configured (TlsConfig Cert Pool)
      → Type 0
  Ended f Good out =
      ((c : TlsConfig Cert Pool) × (cert : Cert) × (pool : Pool) × (out ≡ configured c)
        × Loads f cert pool
        × Modern c
        × Good c cert pool)
      ⊎ ((e : ConfigError) × (out ≡ refused e)
          × ((cert : Cert) (pool : Pool) → Loads f cert pool → ⊥))

  load_lem :
      (f : TlsFiles) (make : Cert → Pool → TlsConfig Cert Pool)
      → ((cert : Cert) × (pool : Pool) × (load load_pair read append f make
            ≡ configured (make cert pool))
          × Loads f cert pool)
        ⊎ ((e : ConfigError) × (load load_pair read append f make ≡ refused e)
            × ((cert : Cert) (pool : Pool) → Loads f cert pool → ⊥))
  unfolding load
  load_lem f make = elim (Result-cases (load_pair f.cert_file f.key_file)) [
    | inl (e, bad) ↦ inr (certificate_failed e, ground arith, λ cert pool (a, _). cc)
    | inr (cert, paired) ↦ elim (Result-cases (read f.ca_file)) [
      | inl (e, bad) ↦ inr (ca_failed e, ground arith, λ cert pool (_, (text, a, b)). cc)
      | inr (text, got) ↦ elim (Option-cases (append text)) [
        | inl bad ↦ inr (ca_unreadable, ground arith, λ cert pool (_, (t, a, b)). ground arith)
        | inr (pool, added) ↦ inl (cert, pool, ground arith, (paired, (text, got, added)))
      ]
    ]
  ]

  ended_lem :
      (f : TlsFiles) (make : Cert → Pool → TlsConfig Cert Pool)
      (Good : TlsConfig Cert Pool → Cert → Pool → Type 0)
      → ((cert : Cert) (pool : Pool) → Modern (make cert pool))
      → ((cert : Cert) (pool : Pool) → Good (make cert pool) cert pool)
      → Ended f Good (load load_pair read append f make)
  ended_lem f make Good modern good = elim (load_lem f make) [
    | inl (cert, pool, out, loaded) ↦
        inl (make cert pool, cert, pool, out, loaded, modern cert pool, good cert pool)
    | inr failed ↦ inr failed
  ]

  abbrev pub ServerGood : TlsConfig Cert Pool → Cert → Pool → Type 0
  ServerGood c cert pool =
      (c.certificate ≡ cert) × (c.demands_client_cert ≡ true) × (c.client_cas ≡ some pool)

  abbrev pub ClientGood : Bytes → TlsConfig Cert Pool → Cert → Pool → Type 0
  ClientGood name c cert pool = (c.certificate ≡ cert) × (c.name ≡ name) × (c.root_cas ≡ some pool)

  -- Both constructors return a configuration exactly when the certificate with its key and the CA
  -- file can be loaded. It has this certificate and allows TLS 1.3 only; a server's demands
  -- certificates of its clients and trusts the CA file for them, a client's expects the server's
  -- name that is given and trusts the CA file for it.
  pub tls_config_lem :
      (f : TlsFiles)
      → Ended f ServerGood (new_server_tls_config load_pair read append f)
        × Ended f (ClientGood f.server_name) (new_client_tls_config load_pair read append f)
  unfolding new_server_tls_config new_client_tls_config
  tls_config_lem f = (
    ended_lem f _ ServerGood (λ cert pool. (refl, refl)) (λ cert pool. (refl, refl, refl)),
    ended_lem f _ (ClientGood f.server_name) (λ cert pool. (refl, refl))
        (λ cert pool. (refl, refl, refl)),
  )
