-- ===== src/Common/Clock.antt =====
-- `struct tm`, and what printf writes for its fields.
use alexproject.Common.{
  ℕ, ◌+◌, ◌-◌, ◌/◌, ◌%◌, ◌<◌, ◌≤◌, ◌≡◌, refl, [], ◌∷◌, ◌++◌, true, false, ltb, length, replicate,
  if◌then◌else◌, Bool-cases, inl, inr, arith,
}
use alexproject.Common.Decimal.{Text, decimal}

-- The fields that `localtime` fills, as numbers; it gives no negative ones for the times of a clock.
pub record Tm : Type 0 where
  pub tm_year : ℕ
  pub tm_mon : ℕ
  pub tm_mday : ℕ
  pub tm_hour : ℕ
  pub tm_min : ℕ
  pub tm_sec : ℕ

-- The ranges that the C library documents, up to the year 9999.
pub record IsValid (t : Tm) : Type 0 where
  pub year : t.tm_year < 8100
  pub mon : t.tm_mon < 12
  pub mday : t.tm_mday < 32
  pub hour : t.tm_hour < 24
  pub min : t.tm_min < 60
  pub sec : t.tm_sec < 61

-- `%02d` and `%4d`.
unfoldable pub zero_padded : ℕ → Text
unfolding decimal
zero_padded n = if ltb n 10 then 48 ∷ decimal n else decimal n

unfoldable pub space_padded : ℕ → Text
unfolding decimal
space_padded n = replicate (4 - length (decimal n)) 32 ++ decimal n

pub zero_padded_lem : (n : ℕ) → n < 100 → zero_padded n ≡ (48 + n / 10) ∷ (48 + n % 10) ∷ []
unfolding zero_padded
zero_padded_lem n h = elim (Bool-cases (ltb n 10)) [
  | inl small ↦ rw small (ground arith)
  | inr large ↦ let last : ltb (n / 10) 10 ≡ true = ground arith in rw (large, last) refl
]

pub decimal_four :
    (n : ℕ)
    → 1000 ≤ n
    → n < 10000
    → decimal n ≡ (48 + n / 1000) ∷ (48 + n / 100 % 10) ∷ (48 + n / 10 % 10) ∷ (48 + n % 10) ∷ []
unfolding decimal
decimal_four n low high =
    let one : ltb n 10 ≡ false = ground arith in
    let two : ltb (n / 10) 10 ≡ false = ground arith in
    let three : ltb (n / 10 / 10) 10 ≡ false = ground arith in
    let last : ltb (n / 10 / 10 / 10) 10 ≡ true = ground arith in
    rw (one, two, three, last) (ground arith)

pub space_padded_lem : (n : ℕ) → 1000 ≤ n → n < 10000 → space_padded n ≡ decimal n
unfolding space_padded
space_padded_lem n low high = rw (decimal_four n low high) refl
