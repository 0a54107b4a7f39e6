-- ===== src/Prelude/Go.antt =====
-- What the Go code gets from the language and its standard library: error values, results and
-- reference cells.
use Prim.Native.Nat.{ℕ}
use mathlib.Core.Path.{◌≡◌, refl}
use mathlib.Core.Logic.{◌⊎◌, inl, inr}
use ngp_mtls.Prelude.Tests.{◌==◌, if◌then◌else◌}

-- The error values that the code tells apart. `closed_conn` is "use of closed network connection",
-- `other n` any other error of the network layer, and the last ones are made by the program.
pub data Error : Type 0 where
  eof unexpected_eof closed_conn cancelled : Error
  other : ℕ → Error
  invalid_format invalid_port no_control_conn : Error

-- `(value, err)`.
pub data Result {ℓ} (A : Type ℓ) : Type ℓ where
  ok : A → Result A
  err : Error → Result A

-- A store of mutable cells: `update f p v` is `f` with `v` at `p`.
abbrev pub update {ℓ} : {A : Type ℓ} → (ℕ → A) → ℕ → A → ℕ → A
update f p v q = if p == q then v else f q

pub Result-cases {ℓ} :
    {A : Type ℓ} (r : Result A) → ((e : Error) × (r ≡ err e)) ⊎ ((a : A) × (r ≡ ok a))
Result-cases (err e) = inl (e, refl)
Result-cases (ok a) = inr (a, refl)
