-- ===== src/Decimal/Bounds.antt =====
-- How long a printed number is.
use ngp_mtls.Prelude.{
  ℕ, zero, suc, ◌+◌, ◌/◌, ◌%◌, ◌^◌, ◌≤◌, ◌<◌, inl, inr, [], ◌∷◌, Bytes, IsBytes, All, length, ◌==◌,
  ℤ, pos, negsuc, IsInt64, arith, Bool-cases,
}
use ngp_mtls.Decimal.{digits, format_ℕ, format}
use ngp_mtls.Decimal.RoundTrip.{IsDigit, format_ℕ-cons}

length-digits : (k m n : ℕ) (out : Bytes) → n < 10 ^ m → length (digits k n out) ≤ m + length out
unfolding digits
length-digits zero m n out h = omega arith
length-digits (suc k) zero n out h = ground arith
length-digits (suc k) (suc m) n out h = elim (Bool-cases (n == 0)) [
  | inl done ↦ rw done (omega arith)
  | inr more ↦
      let smaller : n / 10 < 10 ^ m = omega arith in
      rw more (omega (arith, length-digits k m (n / 10) ((b'0' + n % 10) ∷ out) smaller))
]

length-format_ℕ : (n : ℕ) → n < 10 ^ 19 → length (format_ℕ n) ≤ 19
unfolding format_ℕ
length-format_ℕ n h = elim (Bool-cases (n == 0)) [
  | inl done ↦ rw done (omega arith)
  | inr more ↦ rw more (omega (arith, length-digits n 19 n [] h))
]

pub length-format : (z : ℤ) → IsInt64 z → length (format z) ≤ 20
unfolding format
length-format (pos n) h = omega (arith, length-format_ℕ n (omega arith))
length-format (negsuc n) h = omega (arith, length-format_ℕ (suc n) (omega arith))

digits-IsBytes : (s : Bytes) → All IsDigit s → IsBytes s
digits-IsBytes [] h = tt
digits-IsBytes (c ∷ s) h = (omega arith, digits-IsBytes s h.1)

format_ℕ-IsBytes : (n : ℕ) → IsBytes (format_ℕ n)
format_ℕ-IsBytes n = let (d, s, e, v) = format_ℕ-cons n in rw e (digits-IsBytes (d ∷ s) v)

pub format-IsBytes : (z : ℤ) → IsBytes (format z)
unfolding format
format-IsBytes (pos n) = format_ℕ-IsBytes n
format-IsBytes (negsuc n) = (omega arith, format_ℕ-IsBytes (suc n))
