-- ===== src/Tunnel/Server/Clients/Register.antt =====
-- `registerClient` gives out new names.
use ngp_mtls.Prelude.{
  ℕ, suc, ◌+◌, ◌%◌, ◌^◌, ◌≤◌, ◌<◌, ◌≡◌, ◌≢◌, refl, ap, sym, ◌∙◌, none, some, Bytes, update, lookup,
  insert, lookup-insert, nat_eq, bytes_eq, bytes_beq, bytes_iff, Bool-cases, Option-cases, inl, inr,
  beq_refl, arith, drop,
}
use ngp_mtls.Decimal.RoundTrip.{magnitude-format_ℕ}
use ngp_mtls.Decimal.{magnitude}
use ngp_mtls.Tunnel.Server.{Server, free, done, lock, unlock, Returns}
use ngp_mtls.Tunnel.Server.Clients.{register_client, next_id, alloc, client_name, new_info}

-- Different numbers give different names.
pub client_name_inj : (m n : ℕ) → client_name m ≡ client_name n → m ≡ n
client_name_inj m n h =
    let e : some m ≡ some n =
      sym (magnitude-format_ℕ m) ∙ ap (λ b. magnitude (drop 7 b)) h ∙ magnitude-format_ℕ n in
    cc e

-- The server numbers its clients from 1 on and its pointers from 0 on: every registered name is
-- that of a number given out, and every pointer in use was allocated, to one name only.
pub record IsNumbered (s : Server) : Type 0 where
  pub names :
      (id : Bytes) (p : ℕ)
      → lookup id s.clients ≡ some p
      → (p < s.fresh)
        × ((s.infos p).id ≡ id)
        × ((n : ℕ) × (n ≤ s.next_client_id) × (id ≡ client_name n))

-- The state after a registration that does not wrap round.
abbrev pub next_name : Server → Bytes
next_name s = client_name (s.next_client_id + 1)

abbrev pub registered : ℕ → Server → Server
registered conn s = record s {
  next_client_id = s.next_client_id + 1;
  infos = update s.infos s.fresh (new_info (next_name s) conn);
  fresh = suc s.fresh;
  clients = insert (next_name s) s.fresh s.clients;
  clients_mu = free;
}

pub register_client-registered :
    (conn : ℕ) (s : Server)
    → s.clients_mu ≡ free
    → s.next_client_id + 1 < 2 ^ 32
    → register_client conn s ≡ done (next_name s, registered conn s)
unfolding register_client next_id alloc lock unlock
register_client-registered conn s h below =
    let e : (s.next_client_id + 1) % 2 ^ 32 ≡ s.next_client_id + 1 = omega arith in
    rw e (ground arith)

pub next_name_new : (s : Server) → IsNumbered s → lookup (next_name s) s.clients ≡ none
next_name_new s v = elim (Option-cases (lookup (next_name s) s.clients)) [
  | inl new ↦ new
  | inr (p, old) ↦
      let (_, _, (n, le, same)) = v.names (next_name s) p old in
      absurd (omega (arith, client_name_inj (s.next_client_id + 1) n same))
]

pub registered-keeps :
    (conn : ℕ) (s : Server) (j : Bytes) (q : ℕ)
    → IsNumbered s
    → lookup j s.clients ≡ some q
    → (lookup j (registered conn s).clients ≡ some q)
      × ((registered conn s).infos q ≡ s.infos q)
      × (q ≢ s.fresh)
registered-keeps conn s j q v old =
    let (below, _, _) = v.names j q old in
    ground (
      arith,
      lookup-insert (next_name s) j s.fresh s.clients,
      bytes_iff (next_name s) j,
      next_name_new s v,
      below,
    )

pub registered-IsNumbered : (conn : ℕ) (s : Server) → IsNumbered s → IsNumbered (registered conn s)
registered-IsNumbered conn s v = record {
  names = λ id p found. elim (Bool-cases (bytes_beq (next_name s) id)) [
    | inl new ↦
        let e : id ≡ next_name s = ground (arith, bytes_iff (next_name s) id) in
        let at : p ≡ s.fresh = ground (arith, lookup-insert (next_name s) id s.fresh s.clients) in
        (omega (arith, at), ground (arith, e, at), (s.next_client_id + 1, omega arith, e))
    | inr old ↦
        let before : lookup id s.clients ≡ some p =
          ground (arith, lookup-insert (next_name s) id s.fresh s.clients) in
        let (below, named, (n, le, same)) = v.names id p before in
        (omega arith, ground (arith, below, named), (n, omega (arith, le), same))
  ];
}

-- While nobody holds the mutex, the numbering is sound and the counter of 32 bits does not wrap
-- round, a new client gets a name that no registered client has and a record that no other
-- client's pointer shares; all registered clients keep their entries and records; the new record
-- is empty and refers to the new connection; and the numbering stays sound.
pub register_client_lem :
    (conn : ℕ) (s : Server)
    → s.clients_mu ≡ free
    → s.next_client_id + 1 < 2 ^ 32
    → IsNumbered s
    → Returns (register_client conn s) λ id s'.
      (lookup id s.clients ≡ none)
      × (lookup id s'.clients ≡ some s.fresh)
      × (s'.infos s.fresh ≡ new_info id conn)
      × ((j : Bytes) (q : ℕ)
          → lookup j s.clients ≡ some q
          → (lookup j s'.clients ≡ some q) × (s'.infos q ≡ s.infos q) × (q ≢ s.fresh))
      × IsNumbered s'
      × (s'.clients_mu ≡ free)
register_client_lem conn s h below v = rw (register_client-registered conn s h below) (
  next_name_new s v,
  rw (lookup-insert, beq_refl (next_name s)),
  ground arith,
  λ j q. registered-keeps conn s j q v,
  registered-IsNumbered conn s v,
  refl,
)
