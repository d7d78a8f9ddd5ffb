-- ===== src/Chat/Redis/Channels.antt =====
-- The numbers of channels survive printing and reading.
use alexproject.Common.{
  ◌||◌, ◌&&◌, leb, ℕ, zero, suc, ◌+◌, ◌-◌, ◌*◌, ◌/◌, ◌%◌, ◌^◌, ◌<◌, ◌≡◌, refl, ap, ◌∙◌, true, false,
  [], ◌∷◌, ◌++◌, arith, ltb, ◌==◌, Bool-cases, inl, inr,
}
use alexproject.Common.Int.{ℤ, pos, negsuc}
use alexproject.Common.Decimal.{Text, digits, decimal}
use alexproject.Chat.Database.{int_text}
use alexproject.Chat.Redis.{is_digit, digits_value, negative, atoi}

abbrev pub AllDigits : Text → Type 0
AllDigits [] = Unit
AllDigits (c ∷ cs) = (is_digit c ≡ true) × AllDigits cs

AllDigits-append : (xs : Text) (c : ℕ) → AllDigits xs → is_digit c ≡ true → AllDigits (xs ++ c ∷ [])
AllDigits-append [] c a d = (d, tt)
AllDigits-append (x ∷ xs) c a d = (a.0, AllDigits-append xs c a.1 d)

digit_code : (d : ℕ) → d < 10 → is_digit (48 + d) ≡ true
digit_code d h = ground arith

pub digits-AllDigits : (k n : ℕ) → AllDigits (digits k n)
digits-AllDigits zero n = tt
digits-AllDigits (suc k) n = elim (Bool-cases (ltb n 10)) [
  | inl small ↦ rw small (digit_code n (ground arith), tt)
  | inr large ↦ rw large (
      AllDigits-append (digits k (n / 10)) (48 + n % 10) (digits-AllDigits k (n / 10))
        (digit_code (n % 10) (omega arith)))
]

digits_value-append :
    (acc : ℕ) (xs ys : Text)
    → AllDigits xs
    → digits_value acc (xs ++ ys) ≡ digits_value (digits_value acc xs) ys
digits_value-append acc [] ys a = refl
digits_value-append acc (x ∷ xs) ys a = rw a.0 (digits_value-append (acc * 10 + (x - 48)) xs ys a.1)

one_digit : (acc d : ℕ) → d < 10 → digits_value acc ((48 + d) ∷ []) ≡ acc * 10 + d
one_digit acc d h = rw (digit_code d h) (omega arith)

digits_value-digits : (k n : ℕ) → n < 10 ^ k → digits_value 0 (digits k n) ≡ n
digits_value-digits zero n h = omega arith
digits_value-digits (suc k) n h = elim (Bool-cases (ltb n 10)) [
  | inl small ↦ rw small (one_digit 0 n (ground arith) ∙ omega arith)
  | inr large ↦
      rw
        (
          large,
          digits_value-append 0 (digits k (n / 10)) ((48 + n % 10) ∷ [])
              (digits-AllDigits k (n / 10)),
          digits_value-digits k (n / 10) (omega arith),
        )
        (one_digit (n / 10) (n % 10) (omega arith) ∙ omega arith)
]

-- The numbers of type `int` that a user can have.
abbrev pub Small : ℤ → Type 0
Small (pos n) = n < 2 ^ 31
Small (negsuc n) = n < 2 ^ 31

atoi-digits : (t : Text) (n : ℕ) → AllDigits t → digits_value 0 t ≡ n → atoi t ≡ pos n
unfolding atoi
atoi-digits [] n a e = ap pos e
atoi-digits (c ∷ cs) n a e =
    let first : (c == 32 || (leb 9 c && leb c 13)) ≡ false = ground (arith, a.0) in
    let plain : (c == 45) ≡ false = ground (arith, a.0) in
    let plus : (c == 43) ≡ false = ground (arith, a.0) in rw first (rw (plain, plus) (ap pos e))

atoi-minus : (t : Text) (n : ℕ) → digits_value 0 t ≡ suc n → atoi (45 ∷ t) ≡ negsuc n
unfolding atoi
atoi-minus t n e = ap negative e

-- What %d prints for an `int`, `atoi` reads back.
pub atoi-int_text : (i : ℤ) → Small i → atoi (int_text i) ≡ i
unfolding int_text decimal
atoi-int_text (pos n) h =
    atoi-digits (digits 10 n) n (digits-AllDigits 10 n) (digits_value-digits 10 n (omega arith))
atoi-int_text (negsuc n) h =
    atoi-minus (digits 10 (n + 1)) n (digits_value-digits 10 (n + 1) (omega arith) ∙ omega arith)
