-- ===== src/Common/Text.antt =====
-- Equality of strings, and a map from strings as the list of its entries.
use alexproject.Common.{
  ◌≡◌, ◌≢◌, refl, Bool, true, false, ◌&&◌, List, [], ◌∷◌, arith, ◌==◌, if◌then◌else◌, Bool-cases,
  inl, inr,
}
use alexproject.Common.Decimal.{Text}

abbrev pub text_eq : Text → Text → Bool
text_eq [] [] = true
text_eq [] (y ∷ ys) = false
text_eq (x ∷ xs) [] = false
text_eq (x ∷ xs) (y ∷ ys) = x == y && text_eq xs ys

pub text_eq_refl : (xs : Text) → text_eq xs xs ≡ true
text_eq_refl [] = refl
text_eq_refl (x ∷ xs) = ground (arith, text_eq_refl xs)

pub text_eq_sound : (xs ys : Text) → text_eq xs ys ≡ true → xs ≡ ys
text_eq_sound [] [] h = refl
text_eq_sound [] (y ∷ ys) h = absurd (ground arith)
text_eq_sound (x ∷ xs) [] h = absurd (ground arith)
text_eq_sound (x ∷ xs) (y ∷ ys) h =
    let tails : text_eq xs ys ≡ true = ground arith in
    let heads : x ≡ y = ground arith in let rest = text_eq_sound xs ys tails in cc

pub text_eq_ne : (xs ys : Text) → xs ≢ ys → text_eq xs ys ≡ false
text_eq_ne xs ys ne = elim (Bool-cases (text_eq xs ys)) [
  | inl e ↦ absurd (ne (text_eq_sound xs ys e))
  | inr n ↦ n
]

-- `map[key] = value`: the entry's new value, or a new entry.
abbrev pub put {ℓ} : {A : Type ℓ} → Text → A → List (Text × A) → List (Text × A)
put key value [] = (key, value) ∷ []
put key value ((k, v) ∷ entries) =
    let rest = put key value entries in
    if text_eq k key then (k, value) ∷ entries else (k, v) ∷ rest

-- `map.erase(key)`
abbrev pub erase {ℓ} : {A : Type ℓ} → Text → List (Text × A) → List (Text × A)
erase key [] = []
erase key ((k, v) ∷ entries) =
    let rest = erase key entries in if text_eq k key then entries else (k, v) ∷ rest

-- The bytes before the first zero, as a C string.
abbrev pub c_string : Text → Text
c_string [] = []
c_string (b ∷ bs) = let rest = c_string bs in if b == 0 then [] else b ∷ rest
