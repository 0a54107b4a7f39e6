-- ===== src/Pqctls/Conn/Results.antt =====
-- What callers of `Read` and `Write` can rely on.
use ngp_mtls.Prelude.{
  ℕ, ◌≤◌, ◌<◌, ◌≡◌, ◌≢◌, refl, ◌⊎◌, Bool, true, false, Option, none, ℤ, pos, negsuc, positive,
  arith,
}
use ngp_mtls.Pqctls.Conn.{
  want_read, want_write, ConnError, Answer, magnitude, after_call, read_conn, write_conn,
}

-- What OpenSSL documents: at most as many bytes as were asked for.
abbrev pub InBounds : ℕ → Answer → Type 0
InBounds size a = magnitude a.n ≤ size

-- The documented end of a call.
abbrev pub Returned : ℕ → Answer → ℕ × Option ConnError → Type 0
Returned size a (n, e) =
    (n ≤ size)
    × (((0 < n) × (e ≡ none))
        ⊎ ((n ≡ 0) × ((e ≢ none) ⊎ ((size ≡ 0) ⊎ ((a.code ≡ want_read) ⊎ (a.code ≡ want_write))))))

-- `Read` and `Write` return at most the size of the buffer, and never a number of bytes together with
-- an error. They return no bytes and no error only for an empty buffer, or when OpenSSL wants to be
-- called again.
pub read_conn_bounds :
    (ssl : Bool) (size : ℕ) (a : Answer)
    → InBounds size a
    → Returned size a (read_conn ssl size a) × Returned size a (write_conn ssl size a)
unfolding read_conn write_conn after_call
read_conn_bounds ssl size a h = go a.n refl
  where
    go :
        (z : ℤ)
        → a.n ≡ z
        → Returned size a (read_conn ssl size a) × Returned size a (write_conn ssl size a)
    go (pos k) e = ground arith
    go (negsuc k) e = ground arith

-- A `Write` of a frame may report success although nothing was written: for each size there is an
-- answer of OpenSSL that makes it return 0 and no error.
pub write_conn_loses :
    (size : ℕ) (z : ℤ)
    → positive z ≡ false
    → (write_conn true size (record { n = z; code = want_write }) ≡ (0, none))
      × (write_conn true size (record { n = z; code = want_read }) ≡ (0, none))
unfolding write_conn after_call
write_conn_loses size z h = ground arith
