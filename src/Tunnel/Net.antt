-- ===== src/Tunnel/Net.antt =====
-- Package `net` as the tunnel uses it: connections and listeners are numbered, and the state says
-- which of them this process has not closed, what it has written to each, and what the other side
-- and the system will do.
use ngp_mtls.Prelude.{
  ℕ, ◌-◌, ◌≡◌, ◌≢◌, All, Bool-cases, inl, inr, refl, Bool, true, false, ◌&&◌, Option, none, some,
  List, [], ◌∷◌, ◌++◌, Bytes, length, take, take_all, leb, if◌then◌else◌, update, Error,
  closed_conn, other, Result, ok, err, arith,
}

pub record Net : Type 0 where
  -- Not closed by this process.
  pub is_open : ℕ → Bool
  -- The bytes written so far.
  pub sent : ℕ → Bytes
  -- The number of bytes that the other side will still take before writes fail; `none`: no limit.
  pub limit : ℕ → Option ℕ
  -- What the next calls of `Dial` and `Listen` return.
  pub dials : List (Result ℕ)

abbrev pub within : Option ℕ → ℕ → Bool
within none n = true
within (some k) n = leb n k

abbrev pub spend : Option ℕ → ℕ → Option ℕ
spend none n = none
spend (some k) n = some (k - n)

abbrev pub part : Option ℕ → Bytes → Bytes
part none b = b
part (some k) b = take k b

-- What is within the limit is written whole.
pub part-within : (l : Option ℕ) (b : Bytes) → within l (length b) ≡ true → part l b ≡ b
part-within none b h = refl
part-within (some k) b h = take_all k b (ground arith)

-- A write of `b` to `c` goes through.
abbrev pub takes : Net → ℕ → Bytes → Bool
takes w c b = w.is_open c && within (w.limit c) (length b)

-- The state after a write that goes through, or that breaks off at the limit.
abbrev pub wrote : Net → ℕ → Bytes → Net
wrote w c b = record w {
  sent = update w.sent c (w.sent c ++ part (w.limit c) b);
  limit = update w.limit c (spend (w.limit c) (length b));
}

-- `Conn.Write`, with its error. A closed connection takes nothing; at the limit a part is written.
unfoldable pub write : ℕ → Bytes → Net → Option Error × Net
write c b w =
    if w.is_open c
    then (if within (w.limit c) (length b) then none else some (other 0), wrote w c b)
    else (some closed_conn, w)

-- A write that goes through appends all of its bytes and reports no error.
pub write-takes :
    (w : Net) (c : ℕ) (b : Bytes)
    → takes w c b ≡ true
    → ((write c b w).0 ≡ none) × ((write c b w).1.sent c ≡ w.sent c ++ b)
unfolding write
write-takes w c b h = (ground arith, ground (arith, part-within (w.limit c) b))

pub write_fails :
    (w : Net) (c : ℕ) (b : Bytes) → takes w c b ≡ false → (e : Error) × ((write c b w).0 ≡ some e)
unfolding write
write_fails w c b h = elim (Bool-cases (w.is_open c)) [
  | inl open_still ↦ (other 0, ground arith)
  | inr closed ↦ (closed_conn, ground arith)
]

-- `Close`, whose error is not looked at.
abbrev pub close : ℕ → Net → Net
close c w = record w { is_open = update w.is_open c false }

-- A new connection or listener `c`.
abbrev pub opened : ℕ → Net → Net
opened c w = record w { is_open = update w.is_open c true; sent = update w.sent c [] }

next_dial : List (Result ℕ) → Net → Result ℕ × Net
next_dial [] w = (err (other 0), w)
next_dial (ok c ∷ rest) w = (ok c, opened c (record w { dials = rest }))
next_dial (err e ∷ rest) w = (err e, record w { dials = rest })

-- `net.DialTimeout` and `net.Listen`.
unfoldable pub dial : Net → Result ℕ × Net
unfolding next_dial
dial w = next_dial w.dials w

-- What the next dials return was to come before.
pub dial_rest : (P : Result ℕ → Type 0) (w : Net) → All P w.dials → All P (dial w).1.dials
unfolding dial
dial_rest P w h = go w.dials h
  where
    go : (rs : List (Result ℕ)) → All P rs → All P (next_dial rs w).1.dials
    go [] none_left = h
    go (ok d ∷ rest) v = v.1
    go (err e ∷ rest) v = v.1

-- A dial leaves alone what it does not return.
pub dial_other :
    (w : Net) (c : ℕ)
    → All (λ r. r ≢ ok c) w.dials
    → ((dial w).1.sent c ≡ w.sent c) × ((dial w).1.is_open c ≡ w.is_open c)
unfolding dial
dial_other w c h = go w.dials h
  where
    go :
        (rs : List (Result ℕ))
        → All (λ r. r ≢ ok c) rs
        → ((next_dial rs w).1.sent c ≡ w.sent c) × ((next_dial rs w).1.is_open c ≡ w.is_open c)
    go [] h = (refl, refl)
    go (ok d ∷ rest) h = ground arith
    go (err e ∷ rest) h = (refl, refl)
