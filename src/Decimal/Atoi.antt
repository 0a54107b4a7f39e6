-- ===== src/Decimal/Atoi.antt =====
-- The texts that `Atoi` accepts, and the numbers that it returns.
use ngp_mtls.Prelude.{
  ℕ, zero, suc, ◌+◌, ◌-◌, ◌*◌, ◌^◌, ◌<◌, ◌≡◌, ◌≢◌, ◌↔◌, refl, ◌∙◌, Option, none, some, [], ◌∷◌,
  Bytes, All, ◌==◌, if◌then◌else◌, ℤ, pos, neg, IsInt64, arith, Bool-cases, inl, inr,
}
use ngp_mtls.Decimal.{scan, magnitude, in_range, atoi}
use ngp_mtls.Decimal.RoundTrip.{IsDigit, atoi-magnitude}

-- The number that digits spell behind `n`, with no bound.
abbrev pub value : ℕ → Bytes → ℕ
value n [] = n
value n (c ∷ s) = value (n * 10 + (c - b'0')) s

-- The integer that a text denotes: an optional sign and one or more digits.
pub data Denotes (t : Bytes) (z : ℤ) : Type 0 where
  plain : t ≢ [] → All IsDigit t → z ≡ pos (value 0 t) → Denotes t z
  plus : (s : Bytes) → t ≡ b'+' ∷ s → s ≢ [] → All IsDigit s → z ≡ pos (value 0 s) → Denotes t z
  minus : (s : Bytes) → t ≡ b'-' ∷ s → s ≢ [] → All IsDigit s → z ≡ neg (value 0 s) → Denotes t z

scan_sound : (s : Bytes) (n r : ℕ) → scan s n ≡ some r → All IsDigit s × (r ≡ value n s)
unfolding scan
scan_sound [] n r h = ground arith
scan_sound (c ∷ s) n r h = ground (arith, scan_sound s (n * 10 + (c - b'0')) r)

scan_complete : (s : Bytes) (n : ℕ) → All IsDigit s → scan s n ≡ some (value n s)
unfolding scan
scan_complete [] n h = refl
scan_complete (c ∷ s) n h = ground (arith, scan_complete s (n * 10 + (c - b'0')) h.1)

magnitude_sound :
    (s : Bytes) (r : ℕ) → magnitude s ≡ some r → (s ≢ []) × All IsDigit s × (r ≡ value 0 s)
unfolding magnitude
magnitude_sound [] r h = cc
magnitude_sound (c ∷ s) r h = let (ds, v) = scan_sound (c ∷ s) 0 r h in ((λ e. cc), ds, v)

magnitude_complete : (s : Bytes) → s ≢ [] → All IsDigit s → magnitude s ≡ some (value 0 s)
unfolding magnitude
magnitude_complete [] h ds = absurd (h refl)
magnitude_complete (c ∷ s) h ds = scan_complete (c ∷ s) 0 ds

in_range-some :
    (bound : ℕ) (sign : ℕ → ℤ) (o : Option ℕ) {z : ℤ}
    → in_range bound sign o ≡ some z
    → (n : ℕ) × (o ≡ some n) × (z ≡ sign n) × (n < bound)
unfolding in_range
in_range-some bound sign none h = cc
in_range-some bound sign (some n) h = (n, refl, ground arith, ground arith)

neg-IsInt64 : (n : ℕ) → n < 2 ^ 63 + 1 → IsInt64 (neg n)
neg-IsInt64 zero h = omega arith
neg-IsInt64 (suc n) h = omega arith

atoi_sound : (t : Bytes) (z : ℤ) → atoi t ≡ some z → Denotes t z × IsInt64 z
unfolding atoi
atoi_sound [] z h = cc
atoi_sound (c ∷ s) z h = elim (Bool-cases (c == b'-')) [
  | inl m ↦
      let (n, found, e, lt) =
        in_range-some (2 ^ 63 + 1) neg (magnitude s) (rw (m, if◌then◌else◌) at h) in
      let (ne, ds, v) = magnitude_sound s n found in
      (minus s (ground arith) ne ds (rw (← v) e), rw e (neg-IsInt64 n lt))
  | inr m ↦ elim (Bool-cases (c == b'+')) [
    | inl p ↦
        let (n, found, e, lt) =
          in_range-some (2 ^ 63) pos (magnitude s) (rw (m, p, if◌then◌else◌) at h) in
        let (ne, ds, v) = magnitude_sound s n found in
        (plus s (ground arith) ne ds (rw (← v) e), rw e lt)
    | inr p ↦
        let (n, found, e, lt) =
          in_range-some (2 ^ 63) pos (magnitude (c ∷ s)) (rw (m, p, if◌then◌else◌) at h) in
        let (ne, ds, v) = magnitude_sound (c ∷ s) n found in (plain ne ds (rw (← v) e), rw e lt)
  ]
]

lt_of_neg : (n : ℕ) → IsInt64 (neg n) → n < 2 ^ 63 + 1
lt_of_neg zero h = omega arith
lt_of_neg (suc n) h = omega arith

in_range_fits :
    (bound n : ℕ) (sign : ℕ → ℤ) → n < bound → in_range bound sign (some n) ≡ some (sign n)
unfolding in_range
in_range_fits bound n sign h = ground arith

atoi_plain :
    (t : Bytes) → t ≢ [] → All IsDigit t → value 0 t < 2 ^ 63 → atoi t ≡ some (pos (value 0 t))
atoi_plain [] ne ds h = absurd (ne refl)
atoi_plain (c ∷ s) ne ds h =
    atoi-magnitude c s (c ∷ s) refl ds.0
    ∙ rw (magnitude_complete (c ∷ s) ne ds) (in_range_fits (2 ^ 63) (value 0 (c ∷ s)) pos h)

atoi_complete : (t : Bytes) (z : ℤ) → Denotes t z → IsInt64 z → atoi t ≡ some z
unfolding atoi
atoi_complete t z (plain ne ds e) h = rw e (atoi_plain t ne ds (rw e at h))
atoi_complete t z (plus s spelt ne ds e) h =
    rw (spelt, e)
      (rw (magnitude_complete s ne ds) (in_range_fits (2 ^ 63) (value 0 s) pos (rw e at h)))
atoi_complete t z (minus s spelt ne ds e) h =
    rw (spelt, e)
      (rw (magnitude_complete s ne ds)
        (in_range_fits (2 ^ 63 + 1) (value 0 s) neg (lt_of_neg (value 0 s) (rw e at h))))

-- `Atoi` accepts exactly the texts that denote a number in the range of an `int`, and returns it.
pub atoi_iff : (t : Bytes) (z : ℤ) → (atoi t ≡ some z) ↔ (Denotes t z × IsInt64 z)
atoi_iff t z = (atoi_sound t z, λ h. atoi_complete t z h.0 h.1)
