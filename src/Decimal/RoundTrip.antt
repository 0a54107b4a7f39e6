-- ===== src/Decimal/RoundTrip.antt =====
-- A printed number is read back; what `Atoi` accepts.
use ngp_mtls.Prelude.{
  ℕ, zero, suc, ◌+◌, ◌/◌, ◌%◌, ◌^◌, ◌≤◌, ◌≡◌, ◌≢◌, refl, ◌∙◌, some, [], ◌∷◌, Bytes, All, ◌==◌, ℤ,
  pos, negsuc, IsInt64, arith, Bool-cases, inl, inr,
}
use ngp_mtls.Decimal.{digits, format_ℕ, format, scan, magnitude, in_range, atoi}

abbrev pub Lacks : ℕ → Bytes → Type 0
Lacks b = All (λ c. c ≢ b)

abbrev pub IsDigit : ℕ → Type 0
IsDigit c = (b'0' ≤ c) × (c ≤ b'9')

-- Reading the digits of `n` and then `out` is reading `out` behind the number `n`.
scan-digits : (k n : ℕ) (out : Bytes) → n ≤ k → scan (digits k n out) 0 ≡ scan out n
unfolding scan digits
scan-digits zero n out h = let e : 0 ≡ n = omega arith in rw (← e)
scan-digits (suc k) n out h = ground (arith, scan-digits k (n / 10) ((b'0' + n % 10) ∷ out))

digits-IsDigit : (k n : ℕ) (out : Bytes) → All IsDigit out → All IsDigit (digits k n out)
unfolding digits
digits-IsDigit zero n out h = h
digits-IsDigit (suc k) n out h =
    ground (arith, digits-IsDigit k (n / 10) ((b'0' + n % 10) ∷ out) (omega arith, h))

digits-cons : (k n c : ℕ) (out : Bytes) → (d : ℕ) × (s : Bytes) × (digits k n (c ∷ out) ≡ d ∷ s)
unfolding digits
digits-cons zero n c out = (c, out, refl)
digits-cons (suc k) n c out = elim (Bool-cases (n == 0)) [
  | inl done ↦ (c, out, rw done)
  | inr more ↦ rw more (digits-cons k (n / 10) _ _)
]

-- A printed number is one digit or more.
pub format_ℕ-cons :
    (n : ℕ) → (d : ℕ) × (s : Bytes) × (format_ℕ n ≡ d ∷ s) × (IsDigit d × All IsDigit s)
unfolding format_ℕ digits
format_ℕ-cons zero = (b'0', [], refl, omega arith)
format_ℕ-cons (suc n) =
    let last = b'0' + suc n % 10 in
    let (d, s, e) = digits-cons n (suc n / 10) last [] in
    let all : All IsDigit (digits n (suc n / 10) (last ∷ [])) =
      digits-IsDigit n (suc n / 10) (last ∷ []) (omega arith) in
    (d, s, ground (arith, e), rw e at all)

magnitude-scan : (d : ℕ) (s t : Bytes) → t ≡ d ∷ s → magnitude t ≡ scan t 0
unfolding magnitude
magnitude-scan d s t e = rw e

scan-format_ℕ : (n : ℕ) → scan (format_ℕ n) 0 ≡ some n
unfolding format_ℕ scan
scan-format_ℕ n = ground (arith, scan-digits n n [])

pub magnitude-format_ℕ : (n : ℕ) → magnitude (format_ℕ n) ≡ some n
magnitude-format_ℕ n =
    let (d, s, e, _) = format_ℕ-cons n in magnitude-scan d s (format_ℕ n) e ∙ scan-format_ℕ n

-- Without a sign the whole text is the magnitude.
pub atoi-magnitude :
    (d : ℕ) (s t : Bytes) → t ≡ d ∷ s → IsDigit d → atoi t ≡ in_range (2 ^ 63) pos (magnitude t)
unfolding atoi
atoi-magnitude d s t e v = rw e (ground arith)

-- Every `int` is read back from its decimal print.
pub atoi-format : (z : ℤ) → IsInt64 z → atoi (format z) ≡ some z
unfolding format in_range
atoi-format (pos n) h =
    let (d, s, e, v) = format_ℕ-cons n in
    atoi-magnitude d s (format_ℕ n) e v.0 ∙ rw (magnitude-format_ℕ n) (ground arith)
atoi-format (negsuc n) h = unfold atoi in rw (magnitude-format_ℕ (suc n)) (ground arith)

digits-Lacks : (s : Bytes) → All IsDigit s → Lacks b':' s
digits-Lacks [] h = tt
digits-Lacks (c ∷ s) h = (omega arith, digits-Lacks s h.1)

format_ℕ-Lacks : (n : ℕ) → Lacks b':' (format_ℕ n)
format_ℕ-Lacks n = let (d, s, e, v) = format_ℕ-cons n in rw e (digits-Lacks (d ∷ s) v)

-- A print holds digits and a sign only, so no colon.
pub format-Lacks : (z : ℤ) → Lacks b':' (format z)
unfolding format
format-Lacks (pos n) = format_ℕ-Lacks n
format-Lacks (negsuc n) = (omega arith, format_ℕ-Lacks (suc n))
