-- ===== src/Tunnel/Server/Run/Finish.antt =====
-- The end of `Run`, when no client is registered, closes the listeners and empties the table.
use ngp_mtls.Prelude.{
  true, ◌∙◌, ℕ, ◌≡◌, ◌≢◌, refl, inl, inr, Option, none, some, [], List-cases, Error, cancelled,
  arith,
}
use ngp_mtls.Tunnel.Net.{Net, close}
use ngp_mtls.Tunnel.Server.{Server, done, blocked, free, chain}
use ngp_mtls.Tunnel.Server.Clients.Cleanup.{
  cleanup-blocked, cleanup_emptied, close_listener-shut, shut,
}
use ngp_mtls.Tunnel.Server.Run.{finish}
use ngp_mtls.Tunnel.Server.Moves.{Moves, nobody, Moves-quiet}
use ngp_mtls.Tunnel.Server.Keeping.{Keeps}
use ngp_mtls.Tunnel.Server.Sound.{IsSound}
use ngp_mtls.Tunnel.Server.Sound.Actions.{IsSound-close, IsSound-empty}

abbrev pub finished : ℕ → Option ℕ → Server → Server
finished l m s = record s {
  clients = [];
  public_listener = none;
  clients_mu = free;
  net = close l (shut m (shut s.public_listener s.net));
}

pub finish_empty :
    (l : ℕ) (m : Option ℕ) (s : Server)
    → s.clients_mu ≡ free
    → s.clients ≡ []
    → finish l m s ≡ done (cancelled, finished l m s)
unfolding finish
finish_empty l m s h none_left =
    rw (cleanup_emptied s h none_left, chain, close_listener-shut, chain) refl

pub finish_waits :
    (l : ℕ) (m : Option ℕ) (s : Server)
    → s.clients_mu ≡ free
    → s.clients ≢ []
    → finish l m s ≡ blocked
unfolding finish
finish_waits l m s h ne = rw (cleanup-blocked s h ne, chain) refl

-- While nobody holds the mutex, `Run` comes to its end only if no client is registered.
pub finish-finished :
    (l : ℕ) (m : Option ℕ) (s : Server) {e : Error} {s' : Server}
    → s.clients_mu ≡ free
    → finish l m s ≡ done (e, s')
    → finished l m s ≡ s'
finish-finished l m s h ends = elim (List-cases s.clients) [
  | inl none_left ↦ cc (finish_empty l m s h none_left, ends)
  | inr ne ↦ absurd (cc (finish_waits l m s h ne, ends))
]

shut-IsSound :
    {j n : ℕ} (m : Option ℕ) (s : Server)
    → IsSound j n s
    → IsSound j n (record s { net = shut m s.net })
shut-IsSound none s v = v
shut-IsSound (some l) s v = IsSound-close s v l

pub finished-IsSound :
    {j n : ℕ} (l : ℕ) (m : Option ℕ) (s : Server) → IsSound j n s → IsSound j n (finished l m s)
finished-IsSound l m s v =
    let t = record s { net = shut s.public_listener s.net } in
    let u = record t { net = shut m t.net } in
    let w = record u { net = close l u.net } in
    IsSound-empty w (IsSound-close u (shut-IsSound m t (shut-IsSound s.public_listener s v)) l)

-- It says nothing to the clients.
shut-quiet :
    (m : Option ℕ) (w : Net) (c : ℕ)
    → ((shut m w).sent c ≡ w.sent c) × ((shut m w).limit c ≡ w.limit c)
shut-quiet none w c = (refl, refl)
shut-quiet (some l) w c = (refl, refl)

pub finished-Moves : (l : ℕ) (m : Option ℕ) (s : Server) → Moves nobody s (finished l m s)
finished-Moves l m s =
    let w = shut s.public_listener s.net in
    Moves-quiet s (finished l m s) refl (λ p below. refl)
      (λ p below.
        (shut-quiet m w (s.infos p).conn).0
        ∙ (shut-quiet s.public_listener s.net (s.infos p).conn).0)
      (λ p below.
        (shut-quiet m w (s.infos p).conn).1
        ∙ (shut-quiet s.public_listener s.net (s.infos p).conn).1)

-- It opens nothing, and takes nothing out of a map.
shut_closes : (m : Option ℕ) (w : Net) (c : ℕ) → (shut m w).is_open c ≡ true → w.is_open c ≡ true
shut_closes none w c h = h
shut_closes (some l) w c h = ground arith

pub finished-Keeps : {n : ℕ} (l : ℕ) (m : Option ℕ) (s : Server) → Keeps n s (finished l m s)
finished-Keeps l m s = (
  record {
    fresh = refl;
    closed = λ c h o.
        shut_closes s.public_listener s.net c
          (shut_closes m (shut s.public_listener s.net) c (ground arith));
    entries = λ p k c h. h;
    ids = λ p. omega arith;
    readers = λ p id k c h. h;
    started = λ p id k c h. h;
  },
  λ p k c h m o. m,
)
