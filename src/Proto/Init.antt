-- ===== src/Proto/Init.antt =====
-- internal/proto/proto.go: the configuration in an INIT frame, `remotePort:localAddr`.
use ngp_mtls.Prelude.{
  ℕ, ◌≡◌, ◌≢◌, ◌↔◌, inl, inr, refl, ap, sym, ◌∙◌, Option-cases, none, some, List, [], ◌∷◌, ◌++◌,
  Bytes, ◌==◌, if◌then◌else◌, invalid_format, invalid_port, Result, ok, err, ℤ, IsInt64, arith,
  Bool-cases,
}
use ngp_mtls.Decimal.{format, atoi}
use ngp_mtls.Decimal.RoundTrip.{Lacks, atoi-format, format-Lacks}
use ngp_mtls.Decimal.Atoi.{Denotes, atoi_iff}

pub record InitConfig : Type 0 where
  pub remote_port : ℤ
  pub local_addr : Bytes

-- `EncodeInitConfig`: `"%d:%s"`.
unfoldable pub encode_init_config : InitConfig → Bytes
encode_init_config c = format c.remote_port ++ (b':' ∷ c.local_addr)

before : ℕ → List Bytes → List Bytes
before c [] = (c ∷ []) ∷ []
before c (p ∷ ps) = (c ∷ p) ∷ ps

-- `strings.SplitN(s, ":", 2)`: cut at the first colon, if there is one.
split_n : Bytes → List Bytes
unfolding before
split_n [] = [] ∷ []
split_n (c ∷ s) = if c == b':' then [] ∷ s ∷ [] else before c (split_n s)

parse_port : Bytes → Bytes → Result InitConfig
parse_port port addr = elim (atoi port) [
  | none ↦ err invalid_port
  | some n ↦ ok (record { remote_port = n; local_addr = addr })
]

-- The two parts, or the wrong number of them.
parse_parts : List Bytes → Result InitConfig
unfolding parse_port
parse_parts (port ∷ addr ∷ []) = parse_port port addr
parse_parts _ = err invalid_format

-- `DecodeInitConfig`.
unfoldable pub decode_init_config : Bytes → Result InitConfig
unfolding split_n parse_parts
decode_init_config bytes = parse_parts (split_n bytes)

split_n-colon : (p a : Bytes) → Lacks b':' p → split_n (p ++ (b':' ∷ a)) ≡ p ∷ a ∷ []
unfolding split_n
split_n-colon [] a h = refl
split_n-colon (c ∷ p) a h = ground (arith, split_n-colon p a h.1)

split_n_none : (s : Bytes) → Lacks b':' s → split_n s ≡ s ∷ []
unfolding split_n
split_n_none [] h = refl
split_n_none (c ∷ s) h = ground (arith, split_n_none s h.1)

-- Where a text has its first colon.
pub data Colon (s : Bytes) : Type 0 where
  at : (p a : Bytes) → s ≡ p ++ (b':' ∷ a) → Lacks b':' p → Colon s
  nowhere : Lacks b':' s → Colon s

Colon-cons : (c : ℕ) (s : Bytes) → c ≢ b':' → Colon s → Colon (c ∷ s)
Colon-cons c s ne (at p a e h) = at (c ∷ p) a (ap (◌∷◌ c) e) (ne, h)
Colon-cons c s ne (nowhere h) = nowhere (ne, h)

colon : (s : Bytes) → Colon s
colon [] = nowhere tt
colon (c ∷ s) =
    let rest = colon s in
    elim (Bool-cases (c == b':')) [
      | inl e ↦ at [] s (ground arith) tt
      | inr e ↦ Colon-cons c s (ground arith) rest
    ]

decode_init_config-colon :
    (p a : Bytes) → Lacks b':' p → decode_init_config (p ++ (b':' ∷ a)) ≡ parse_port p a
unfolding decode_init_config parse_port
decode_init_config-colon p a h = rw (split_n-colon p a h)

-- The configuration that a client sends is the one that the server reads, for every port in the
-- range of an `int` and every address, colons in it included.
pub decode_init_config-encode_init_config :
    (c : InitConfig) → IsInt64 c.remote_port → decode_init_config (encode_init_config c) ≡ ok c
unfolding encode_init_config parse_port
decode_init_config-encode_init_config c h =
    rw (decode_init_config-colon (format c.remote_port) c.local_addr (format-Lacks c.remote_port))
      (rw (atoi-format c.remote_port h, parse_port))

-- What the server reads from a text, by its first colon.
outcome : (s : Bytes) → Colon s → Result InitConfig
outcome s (at p a e h) = parse_port p a
outcome s (nowhere h) = err invalid_format

decode_init_config-outcome : (s : Bytes) (w : Colon s) → decode_init_config s ≡ outcome s w
unfolding outcome decode_init_config
decode_init_config-outcome s (at p a e h) = rw e (decode_init_config-colon p a h)
decode_init_config-outcome s (nowhere h) = rw (split_n_none s h)

parse_port-ok :
    (p a : Bytes) (c : InitConfig)
    → parse_port p a ≡ ok c
    → (atoi p ≡ some c.remote_port) × (a ≡ c.local_addr)
unfolding parse_port
parse_port-ok p a c h = elim (Option-cases (atoi p)) [
  | inl e ↦ cc (rw (e, parse_port) at h)
  | inr (n, e) ↦ ground arith
]

outcome-ok :
    (s : Bytes) (w : Colon s) (c : InitConfig)
    → outcome s w ≡ ok c
    → (p : Bytes) × (s ≡ p ++ (b':' ∷ c.local_addr))
      × Lacks b':' p
      × Denotes p c.remote_port
      × IsInt64 c.remote_port
unfolding outcome
outcome-ok s (at p a e h) c k =
    let (read, same) = parse_port-ok p a c k in
    let (denotes, fits) = (atoi_iff p c.remote_port).0 read in (p, rw (← same) e, h, denotes, fits)
outcome-ok s (nowhere h) c k = cc

-- The payloads that the server accepts: a number in the range of an `int`, a colon, and the address,
-- which is all that follows the first colon.
pub decode_init_config_iff :
    (s : Bytes) (c : InitConfig)
    → (decode_init_config s ≡ ok c) ↔ (
        (p : Bytes) × (s ≡ p ++ (b':' ∷ c.local_addr))
        × Lacks b':' p
        × Denotes p c.remote_port
        × IsInt64 c.remote_port)
unfolding parse_port
decode_init_config_iff s c = (
  λ h. outcome-ok s (colon s) c (sym (decode_init_config-outcome s (colon s)) ∙ h),
  λ (p, e, h, denotes, fits).
      ap decode_init_config e
      ∙ decode_init_config-colon p c.local_addr h
      ∙ rw ((atoi_iff p c.remote_port).1 (denotes, fits), parse_port),
)
