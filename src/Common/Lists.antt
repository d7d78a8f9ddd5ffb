-- ===== src/Common/Lists.antt =====
-- Lists measured and indexed by native numbers; the copies that `std::vector` code makes.
use Prim.Native.Nat.{ℕ, zero, suc, ◌+◌, ◌-◌, ◌≤◌, ◌<◌, min}
use mathlib.Core.Path.{◌≡◌, refl, ap}
use mathlib.Core.List.{List, [], ◌∷◌, ◌++◌}
use mathlib.Core.Option.{Option, none, some}
use mathlib.Core.Logic.{◌⊎◌, inl, inr}
use native.Mathlib.Omega.{arith}

module _ {ℓ} {A : Type ℓ} where
  abbrev pub length : List A → ℕ
  length [] = 0
  length (x ∷ xs) = suc (length xs)

  abbrev pub get_elem? : List A → ℕ → Option A
  get_elem? [] i = none
  get_elem? (x ∷ xs) zero = some x
  get_elem? (x ∷ xs) (suc i) = get_elem? xs i

  abbrev pub take : ℕ → List A → List A
  take zero xs = []
  take (suc n) [] = []
  take (suc n) (x ∷ xs) = x ∷ take n xs

  abbrev pub drop : ℕ → List A → List A
  drop zero xs = xs
  drop (suc n) [] = []
  drop (suc n) (x ∷ xs) = drop n xs

  abbrev pub replicate : ℕ → A → List A
  replicate zero a = []
  replicate (suc n) a = a ∷ replicate n a

  -- The items `ys` written over `xs` from index `i` on; what does not fit is dropped.
  abbrev pub blit : List A → ℕ → List A → List A
  blit [] i ys = []
  blit (x ∷ xs) (suc i) ys = x ∷ blit xs i ys
  blit (x ∷ xs) zero [] = x ∷ xs
  blit (x ∷ xs) zero (y ∷ ys) = y ∷ blit xs zero ys

  -- `std::vector::resize`, with `a` for the new items.
  abbrev pub resize : List A → ℕ → A → List A
  resize xs n a = take n xs ++ replicate (n - length xs) a

module _ {ℓ} {A : Type ℓ} where
  pub length-append : (xs ys : List A) → length (xs ++ ys) ≡ length xs + length ys
  length-append [] ys = omega arith
  length-append (x ∷ xs) ys = omega (arith, length-append xs ys)

  pub length-take : (n : ℕ) (xs : List A) → length (take n xs) ≡ min n (length xs)
  length-take zero xs = omega arith
  length-take (suc n) [] = omega arith
  length-take (suc n) (x ∷ xs) = omega (arith, length-take n xs)

  pub length-drop : (n : ℕ) (xs : List A) → length (drop n xs) ≡ length xs - n
  length-drop zero xs = omega arith
  length-drop (suc n) [] = omega arith
  length-drop (suc n) (x ∷ xs) = omega (arith, length-drop n xs)

  pub length-replicate : (n : ℕ) (a : A) → length (replicate n a) ≡ n
  length-replicate zero a = refl
  length-replicate (suc n) a = ap suc (length-replicate n a)

  pub length-blit : (xs : List A) (i : ℕ) (ys : List A) → length (blit xs i ys) ≡ length xs
  length-blit [] i ys = refl
  length-blit (x ∷ xs) (suc i) ys = ap suc (length-blit xs i ys)
  length-blit (x ∷ xs) zero [] = refl
  length-blit (x ∷ xs) zero (y ∷ ys) = ap suc (length-blit xs zero ys)

  pub take_all : (n : ℕ) (xs : List A) → length xs ≤ n → take n xs ≡ xs
  take_all zero [] h = refl
  take_all zero (x ∷ xs) h = absurd (omega arith)
  take_all (suc n) [] h = refl
  take_all (suc n) (x ∷ xs) h = ap (λ l. x ∷ l) (take_all n xs (omega arith))

  pub drop_all : (n : ℕ) (xs : List A) → length xs ≤ n → drop n xs ≡ []
  drop_all zero [] h = refl
  drop_all zero (x ∷ xs) h = absurd (omega arith)
  drop_all (suc n) [] h = refl
  drop_all (suc n) (x ∷ xs) h = drop_all n xs (omega arith)

  pub take-append-drop : (n : ℕ) (xs : List A) → take n xs ++ drop n xs ≡ xs
  take-append-drop zero xs = refl
  take-append-drop (suc n) [] = refl
  take-append-drop (suc n) (x ∷ xs) = ap (λ l. x ∷ l) (take-append-drop n xs)

module _ {ℓ} {A : Type ℓ} where
  -- What is written just past a slice extends it.
  pub slice-blit :
      (xs : List A) (i n j m : ℕ) (ys : List A)
      → j ≡ i + n
      → m ≡ n + length ys
      → i + m ≤ length xs
      → take m (drop i (blit xs j ys)) ≡ take n (drop i xs) ++ ys
  slice-blit [] (suc i) n j m ys ej em h = absurd (omega arith)
  slice-blit [] zero n j (suc m) ys ej em h = absurd (omega arith)
  slice-blit [] zero (suc n) j zero ys ej em h = absurd (omega arith)
  slice-blit [] zero zero j zero [] ej em h = refl
  slice-blit [] zero zero j zero (y ∷ ys) ej em h = absurd (omega arith)
  slice-blit (x ∷ xs) (suc i) n zero m ys ej em h = absurd (omega arith)
  slice-blit (x ∷ xs) (suc i) n (suc j) m ys ej em h =
      slice-blit xs i n j m ys (omega arith) em (omega arith)
  slice-blit (x ∷ xs) zero (suc n) zero m ys ej em h = absurd (omega arith)
  slice-blit (x ∷ xs) zero (suc n) (suc j) zero ys ej em h = absurd (omega arith)
  slice-blit (x ∷ xs) zero (suc n) (suc j) (suc m) ys ej em h =
      ap (λ l. x ∷ l) (slice-blit xs zero n j m ys (omega arith) (omega arith) (omega arith))
  slice-blit (x ∷ xs) zero zero (suc j) m ys ej em h = absurd (omega arith)
  slice-blit (x ∷ xs) zero zero zero zero [] ej em h = refl
  slice-blit (x ∷ xs) zero zero zero (suc m) [] ej em h = absurd (omega arith)
  slice-blit (x ∷ xs) zero zero zero zero (y ∷ ys) ej em h = absurd (omega arith)
  slice-blit (x ∷ xs) zero zero zero (suc m) (y ∷ ys) ej em h =
      ap (λ l. y ∷ l) (slice-blit xs zero zero zero m ys (omega arith) (omega arith) (omega arith))

  -- A slice of the front part does not see what follows.
  pub slice-append :
      (xs ys : List A) (i n : ℕ)
      → i + n ≤ length xs
      → take n (drop i (xs ++ ys)) ≡ take n (drop i xs)
  slice-append [] ys zero zero h = refl
  slice-append [] ys zero (suc n) h = absurd (omega arith)
  slice-append [] ys (suc i) n h = absurd (omega arith)
  slice-append (x ∷ xs) ys zero zero h = refl
  slice-append (x ∷ xs) ys zero (suc n) h =
      ap (λ l. x ∷ l) (slice-append xs ys zero n (omega arith))
  slice-append (x ∷ xs) ys (suc i) n h = slice-append xs ys i n (omega arith)

  pub drop-drop : (xs : List A) (i j k : ℕ) → k ≡ i + j → drop j (drop i xs) ≡ drop k xs
  drop-drop xs zero j k e = let e' : j ≡ k = omega arith in ap (λ m. drop m xs) e'
  drop-drop [] (suc i) zero zero e = refl
  drop-drop [] (suc i) zero (suc k) e = refl
  drop-drop [] (suc i) (suc j) zero e = refl
  drop-drop [] (suc i) (suc j) (suc k) e = refl
  drop-drop (x ∷ xs) (suc i) j zero e = absurd (omega arith)
  drop-drop (x ∷ xs) (suc i) j (suc k) e = drop-drop xs i j k (omega arith)

  pub drop-take : (xs : List A) (n k m : ℕ) → n ≡ k + m → drop k (take n xs) ≡ take m (drop k xs)
  drop-take xs n zero m e = let e' : n ≡ m = omega arith in ap (λ j. take j xs) e'
  drop-take [] zero (suc k) m e = absurd (omega arith)
  drop-take [] (suc n) (suc k) zero e = refl
  drop-take [] (suc n) (suc k) (suc m) e = refl
  drop-take (x ∷ xs) zero (suc k) m e = absurd (omega arith)
  drop-take (x ∷ xs) (suc n) (suc k) m e = drop-take xs n k m (omega arith)

  pub take-take : (xs : List A) (n m : ℕ) → n ≤ m → take n (take m xs) ≡ take n xs
  take-take xs zero m h = refl
  take-take [] (suc n) zero h = absurd (omega arith)
  take-take (x ∷ xs) (suc n) zero h = absurd (omega arith)
  take-take [] (suc n) (suc m) h = refl
  take-take (x ∷ xs) (suc n) (suc m) h = ap (λ l. x ∷ l) (take-take xs n m (omega arith))

pub get-append :
    {A : Type 0} (xs : List A) (y : A) (i : ℕ) {o : A}
    → get_elem? (xs ++ y ∷ []) i ≡ some o
    → (get_elem? xs i ≡ some o) ⊎ ((i ≡ length xs) × (o ≡ y))
get-append [] y zero e = inr (refl, ground arith)
get-append [] y (suc i) e = absurd (ground arith)
get-append (x ∷ xs) y zero e = inl e
get-append (x ∷ xs) y (suc i) e = elim (get-append xs y i e) [
  | inl f ↦ inl f
  | inr (f, g) ↦ inr (ap suc f, g)
]

pub get-inside :
    {A : Type 0} (xs : List A) (i : ℕ) → i < length xs → (x : A) × (get_elem? xs i ≡ some x)
get-inside [] i h = absurd (omega arith)
get-inside (x ∷ xs) zero h = (x, refl)
get-inside (x ∷ xs) (suc i) h = get-inside xs i (omega arith)

pub empty_of_length : {A : Type 0} (xs : List A) → length xs ≡ 0 → xs ≡ []
empty_of_length [] h = refl
empty_of_length (x ∷ xs) h = absurd (omega arith)
