-- ===== src/Common/Decimal.antt =====
-- Strings as lists of character codes, and what printf's %d writes for a number of type `int`.
use alexproject.Common.{
  ℕ, zero, suc, ◌+◌, ◌-◌, ◌*◌, ◌/◌, ◌%◌, ◌^◌, ◌<◌, ◌≤◌, ◌≡◌, refl, ap, sym, ◌∙◌, List, [], ◌∷◌,
  ◌++◌, arith, ltb, if◌then◌else◌, Bool-cases, inl, inr, length, length-append, take,
}

abbrev pub Text : Type 0
Text = List ℕ

-- The last `k` digits at most, without leading zeros.
abbrev pub digits : ℕ → ℕ → Text
digits zero n = []
digits (suc k) n =
    let rest = digits k (n / 10) in if ltb n 10 then (48 + n) ∷ [] else rest ++ (48 + n % 10) ∷ []

-- An `int` has at most ten digits.
unfoldable pub decimal : ℕ → Text
decimal n = digits 10 n

abbrev value : ℕ → Text → ℕ
value acc [] = acc
value acc (c ∷ cs) = value (acc * 10 + (c - 48)) cs

value-append : (acc : ℕ) (xs ys : Text) → value acc (xs ++ ys) ≡ value (value acc xs) ys
value-append acc [] ys = refl
value-append acc (x ∷ xs) ys = value-append (acc * 10 + (x - 48)) xs ys

value-digits : (k n : ℕ) → n < 10 ^ k → value 0 (digits k n) ≡ n
value-digits zero n h = omega arith
value-digits (suc k) n h = elim (Bool-cases (ltb n 10)) [
  | inl small ↦ rw small (omega arith)
  | inr large ↦
      rw
        (
          large,
          value-append 0 (digits k (n / 10)) ((48 + n % 10) ∷ []),
          value-digits k (n / 10) (omega arith),
        )
        (omega arith)
]

-- Two numbers with the same digits are the same.
pub decimal-injective : (m n : ℕ) → m < 2 ^ 31 → n < 2 ^ 31 → decimal m ≡ decimal n → m ≡ n
unfolding decimal
decimal-injective m n hm hn e =
    sym (value-digits 10 m (omega arith)) ∙ ap (value 0) e ∙ value-digits 10 n (omega arith)

length-digits : (k n : ℕ) → length (digits k n) ≤ k
length-digits zero n = omega arith
length-digits (suc k) n = elim (Bool-cases (ltb n 10)) [
  | inl small ↦ rw small (omega arith)
  | inr large ↦ rw large (
      omega
        (arith, length-append (digits k (n / 10)) ((48 + n % 10) ∷ []), length-digits k (n / 10)))
]

pub length-decimal : (n : ℕ) → length (decimal n) ≤ 10
unfolding decimal
length-decimal n = length-digits 10 n

-- `snprintf` into an array of `size` bytes, one of which is the final zero.
abbrev pub truncated : ℕ → Text → Text
truncated size text = take (size - 1) text
