-- ===== src/Tunnel/Server/Run/Starts.antt =====
-- What `Run` of the server leaves before it waits for the end of the context.
use ngp_mtls.Prelude.{
  Option, some, refl, Result-cases, inl, inr, ◌⊎◌, none, ℕ, ◌≡◌, ◌≢◌, true, false, none, some, List,
  [], ◌∷◌, arith, Error, Result, ok, err,
}
use ngp_mtls.Tunnel.Net.{dial}
use ngp_mtls.Tunnel.Server.{Task, Server, Returns, global_listener, control_listener}
use ngp_mtls.Tunnel.Server.Run.{start, open_control, open_public, publish, listen}

abbrev pub published : Option ℕ → List Task → List Task
published none ts = ts
published (some m) ts = global_listener m ∷ ts

-- `Run` of a server with an address for outside connections, whose control listener opens. If the
-- second listener opens too, the goroutines for clients and for outside connections are started,
-- and that listener is remembered; if it does not, `Run` returns its error, the control listener is
-- closed again, and no goroutine has been started.
pub start_lem :
    (s : Server) (l : ℕ) (r : Result ℕ) (rest : List (Result ℕ))
    → s.net.dials ≡ ok l ∷ r ∷ rest
    → s.public_listen_addr ≢ []
    → ((m : ℕ) × (r ≡ ok m)
        × Returns (start none s) λ out s'.
          (out ≡ ok (l, some m))
          × (s'.public_listener ≡ some m)
          × (s'.tasks ≡ control_listener l ∷ global_listener m ∷ s.tasks)
          × (s'.net.is_open l ≡ true)
          × (s'.net.is_open m ≡ true))
      ⊎ ((e : Error) × (r ≡ err e)
          × Returns
              (start none s)
              λ out s'. (out ≡ err e) × (s'.net.is_open l ≡ false) × (s'.tasks ≡ s.tasks))
unfolding start open_control open_public publish listen dial
start_lem s l r rest d some_addr = elim (Result-cases r) [
  | inl (e, h) ↦ inr (e, h, ground arith)
  | inr (m, h) ↦ inl (m, h, ground arith)
]

-- What `start` may end with: the listeners and their goroutines; or an error, with no goroutine
-- started, no listener published, and the connection or listener `c` as before, or closed.
abbrev pub Ended : Server → ℕ → Result (ℕ × Option ℕ) → Server → Type 0
Ended s c out s' =
    ((l : ℕ) × (m : Option ℕ) × (out ≡ ok (l, m))
      × (s'.tasks ≡ control_listener l ∷ published m s.tasks)
      × (s'.net.is_open l ≡ true))
    ⊎ ((e : Error) × (out ≡ err e)
        × (s'.tasks ≡ s.tasks)
        × (s'.public_listener ≡ s.public_listener)
        × ((s'.net.is_open c ≡ false) ⊎ (s'.net.is_open c ≡ s.net.is_open c)))

-- However the listens and the constructor of the PQC listener turn out, `Run` of the server gets to
-- its wait with the goroutine for clients started behind that of the global listener, if there is
-- one; or it returns an error, and then no goroutine has been started, no listener is published,
-- and nothing is open that was not open before.
pub start_ends :
    (s : Server) (pqc : Option Error) (c : ℕ) → Returns (start pqc s) (λ out s'. Ended s c out s')
unfolding start open_control open_public publish listen dial
start_ends s pqc c = go s.net.dials refl
  where
    go :
        (ds : List (Result ℕ))
        → s.net.dials ≡ ds
        → Returns (start pqc s) (λ out s'. Ended s c out s')
    go [] d = ground arith
    go (err e ∷ rest) d = ground arith
    go (ok l ∷ []) d = ground arith
    go (ok l ∷ (err e ∷ rest)) d = ground arith
    go (ok l ∷ (ok m ∷ rest)) d = ground arith
