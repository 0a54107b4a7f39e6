-- ===== src/Decimal.antt =====
-- What the code uses of `fmt.Sprintf("%d", …)` and `strconv.Atoi`.
pub mod RoundTrip
pub mod Atoi
pub mod Bounds
use ngp_mtls.Prelude.{
  ℕ, zero, suc, ◌+◌, ◌-◌, ◌*◌, ◌/◌, ◌%◌, ◌^◌, ◌≡◌, refl, Bool, ◌&&◌, Option, none, some, [], ◌∷◌,
  Bytes, codes, ltb, leb, ◌==◌, if◌then◌else◌, ℤ, pos, negsuc, neg,
}

-- The digits of `n`, last first, in front of `out`; `n` rounds are enough.
digits : ℕ → ℕ → Bytes → Bytes
digits zero n out = out
digits (suc k) n out =
    let rest = digits k (n / 10) ((b'0' + n % 10) ∷ out) in if n == 0 then out else rest

-- `%d` at a number that is not negative.
unfoldable pub format_ℕ : ℕ → Bytes
unfolding digits
format_ℕ n = if n == 0 then b'0' ∷ [] else digits n n []

-- `%d`.
unfoldable pub format : ℤ → Bytes
unfolding format_ℕ
format (pos n) = format_ℕ n
format (negsuc n) = b'-' ∷ format_ℕ (suc n)

abbrev pub is_digit : ℕ → Bool
is_digit c = leb b'0' c && leb c b'9'

scan : Bytes → ℕ → Option ℕ
scan [] n = some n
scan (c ∷ s) n = if is_digit c then scan s (n * 10 + (c - b'0')) else none

-- One digit at least.
pub magnitude : Bytes → Option ℕ
magnitude [] = none
magnitude (c ∷ s) = scan (c ∷ s) 0

pub in_range : ℕ → (ℕ → ℤ) → Option ℕ → Option ℤ
in_range bound sign none = none
in_range bound sign (some n) = if ltb n bound then some (sign n) else none

-- `strconv.Atoi`: a sign if there is one, then digits, in the range of an `int`. `none` stands for
-- both of its errors.
unfoldable pub atoi : Bytes → Option ℤ
unfolding scan magnitude in_range
atoi [] = none
atoi (c ∷ s) =
    if c == b'-'
    then in_range (2 ^ 63 + 1) neg (magnitude s)
    else if c == b'+'
    then in_range (2 ^ 63) pos (magnitude s)
    else in_range (2 ^ 63) pos (magnitude (c ∷ s))

format-negsuc : format (negsuc 8079) ≡ codes "-8080"
unfolding format
format-negsuc = refl

atoi_least : atoi (codes "-9223372036854775808") ≡ some (negsuc (2 ^ 63 - 1))
unfolding atoi
atoi_least = refl
