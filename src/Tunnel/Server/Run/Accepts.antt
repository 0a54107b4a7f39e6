-- ===== src/Tunnel/Server/Run/Accepts.antt =====
-- The goroutine that accepts clients.
use ngp_mtls.Prelude.{
  ℕ, ◌+◌, ◌^◌, ◌<◌, ◌≡◌, refl, ap, ◌∙◌, true, false, some, List, [], ◌∷◌, Bytes, length, map, arith,
  ok, err, Result, Error, All, lookup, lookup-insert, beq_refl, bytes_eq,
}
use ngp_mtls.Tunnel.Net.{opened}
use ngp_mtls.Tunnel.Server.{Server, free, Returns, Returns_mono, client_frames}
use ngp_mtls.Tunnel.Server.Clients.Register.{
  IsNumbered, next_name, registered, register_client-registered, registered-IsNumbered,
  registered-keeps,
}
use ngp_mtls.Tunnel.Server.Public.{accept}
use ngp_mtls.Tunnel.Server.Run.{accept_clients, Round}

-- A round in the life of the context: a client arrives, or `Accept` returns an error.
abbrev pub arrives : Result ℕ → Round
arrives r = record { stop = false; arrival = r; stop_after = false }

-- Between rounds: the mutex is free, the listener open, and the numbering sound.
pub record IsAccepting (l : ℕ) (s : Server) : Type 0 where
  pub unlocked : s.clients_mu ≡ free
  pub listens : s.net.is_open l ≡ true
  pub numbered : IsNumbered s

abbrev arrived : ℕ → Server → Server
arrived c s = record s { net = opened c s.net }

abbrev taken : ℕ → Server → Server
taken c s = record (registered c (arrived c s)) { tasks = client_frames (next_name s) c ∷ s.tasks }

-- The connection has a client of its own.
abbrev pub IsServed : Server → ℕ → Type 0
IsServed s c = (id : Bytes) × (p : ℕ) × (lookup id s.clients ≡ some p) × ((s.infos p).conn ≡ c)

abbrev pub Keeps : Server → Server → Type 0
Keeps s s' =
    (j : Bytes) (q : ℕ)
    → lookup j s.clients ≡ some q
    → (lookup j s'.clients ≡ some q) × (s'.infos q ≡ s.infos q)

module _ (l : ℕ) where
  accept_round :
      (c : ℕ) (rest : List Round) (s : Server)
      → IsAccepting l s
      → s.next_client_id + 1 < 2 ^ 32
      → accept_clients l (arrives (ok c) ∷ rest) s ≡ accept_clients l rest (taken c s)
  unfolding accept_clients accept
  accept_round c rest s v below =
      ground (arith, v.listens, register_client-registered c (arrived c s) v.unlocked below)

  accept_failed :
      (e : Error) (rest : List Round) (s : Server)
      → IsAccepting l s
      → accept_clients l (arrives (err e) ∷ rest) s ≡ accept_clients l rest s
  unfolding accept_clients accept
  accept_failed e rest s v = ground (arith, v.listens)

  arrived-IsNumbered : (c : ℕ) (s : Server) → IsNumbered s → IsNumbered (arrived c s)
  arrived-IsNumbered c s v = record { names = v.names }

  taken-IsAccepting : (c : ℕ) (s : Server) → IsAccepting l s → IsAccepting l (taken c s)
  taken-IsAccepting c s v = record {
    unlocked = refl;
    listens = ground (arith, v.listens);
    numbered = record {
      names = (registered-IsNumbered c (arrived c s) (arrived-IsNumbered c s v.numbered)).names;
    };
  }

  taken-Keeps : (c : ℕ) (s : Server) → IsAccepting l s → Keeps s (taken c s)
  taken-Keeps c s v j q old =
      let (found, same, _) =
        registered-keeps c (arrived c s) j q (arrived-IsNumbered c s v.numbered) old in
      (found, same)

  taken-IsServed : (c : ℕ) (s : Server) → IsServed (taken c s) c
  taken-IsServed c s =
      (next_name s, s.fresh, rw (lookup-insert, beq_refl (next_name s)) refl, ground arith)

  -- While the context lives and until the counter of client names wraps round, whatever `Accept`
  -- returns in each round, a connection or an error, and if nobody else does anything: the loop
  -- goes on, every connection that arrived has a client of its own in the table, all clients that
  -- were there keep their entries and records, and the state is of the same kind.
  pub accept_clients_lem :
      (rs : List (Result ℕ)) (s : Server)
      → IsAccepting l s
      → s.next_client_id + length rs < 2 ^ 32
      → Returns (accept_clients l (map arrives rs) s) λ again s'.
        (again ≡ true)
        × All (λ r. (c : ℕ) → r ≡ ok c → IsServed s' c) rs
        × Keeps s s'
        × IsAccepting l s'
  unfolding accept_clients
  accept_clients_lem [] s v below = (refl, tt, λ j q old. (old, refl), v)
  accept_clients_lem (err e ∷ rs) s v below = rw (accept_failed e (map arrives rs) s v) (
      Returns_mono (accept_clients l (map arrives rs) s) _ _
        (accept_clients_lem rs s v (omega arith))
        λ again s' (goes_on, served, kept, still). (goes_on, (λ c h. cc, served), kept, still))
  accept_clients_lem (ok c ∷ rs) s v below =
      rw (accept_round c (map arrives rs) s v (omega arith)) (
        Returns_mono (accept_clients l (map arrives rs) (taken c s)) _ _
          (accept_clients_lem rs (taken c s) (taken-IsAccepting c s v) (omega arith))
          λ again s' (goes_on, served, kept, still).
            let (id, p, found, at) = taken-IsServed c s in
            let (found', same) = kept id p found in
            let here : IsServed s' c = (id, p, found', ap (λ i. i.conn) same ∙ at) in
            (
              goes_on,
              (λ d h. let e : c ≡ d = cc h in rw (← e) here, served),
              λ j q old.
                  let (found, same) = taken-Keeps c s v j q old in
                  let (found', same') = kept j q found in (found', same' ∙ same),
              still,
            ))
