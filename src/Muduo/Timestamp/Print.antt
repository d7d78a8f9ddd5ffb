-- ===== src/Muduo/Timestamp/Print.antt =====
-- The text of a time stamp, and its order.
use alexproject.Common.{
  ℕ, zero, suc, ◌⊎◌, ◌+◌, ◌*◌, ◌/◌, ◌%◌, ◌<◌, ◌≡◌, ◌↔◌, refl, ap, sym, ◌∙◌, true, [], ◌∷◌, arith,
}
use alexproject.Common.Int.{ℤ, pos}
use alexproject.Common.Decimal.{Text, truncated}
use alexproject.Common.Clock.{Tm, IsValid, zero_padded_lem, space_padded_lem, decimal_four}
use alexproject.Muduo.Timestamp.{Timestamp, printed, to_string, seconds_since_epoch, now, earlier}

-- Two digits of a number below 100, and then `rest`.
abbrev two_digits : ℕ → Text → Text
two_digits n rest = (48 + n / 10) ∷ (48 + n % 10) ∷ rest

abbrev four_digits : ℕ → Text → Text
four_digits n rest =
    (48 + n / 1000) ∷ (48 + n / 100 % 10) ∷ (48 + n / 10 % 10) ∷ (48 + n % 10) ∷ rest

-- The nineteen characters of a time.
abbrev nineteen : Tm → Text
nineteen t = four_digits (t.tm_year + 1900) (
    47
    ∷ two_digits (t.tm_mon + 1) (
        47
        ∷ two_digits t.tm_mday
            (32 ∷ two_digits t.tm_hour (58 ∷ two_digits t.tm_min (58 ∷ two_digits t.tm_sec [])))))

printed_lem : (t : Tm) → IsValid t → printed t ≡ nineteen t
unfolding printed
printed_lem t v = rw (space_padded_lem (t.tm_year + 1900) (omega arith) (omega arith)) (
    rw
      (
        decimal_four (t.tm_year + 1900) (omega arith) (omega arith),
        zero_padded_lem (t.tm_mon + 1) (omega arith),
        zero_padded_lem t.tm_mday (omega arith),
        zero_padded_lem t.tm_hour (omega arith),
        zero_padded_lem t.tm_min (omega arith),
        zero_padded_lem t.tm_sec (omega arith),
      )
      refl)

-- A character of a text.
abbrev char_at : ℕ → Text → ℕ
char_at i [] = 0
char_at zero (c ∷ cs) = c
char_at (suc i) (c ∷ cs) = char_at i cs

nineteen-injective : (t u : Tm) → IsValid t → IsValid u → nineteen t ≡ nineteen u → t ≡ u
nineteen-injective t u v w e =
    let at = λ (i : ℕ). ap (char_at i) e in
    let year : t.tm_year ≡ u.tm_year = omega (arith, at 0, at 1, at 2, at 3) in
    let mon : t.tm_mon ≡ u.tm_mon = omega (arith, at 5, at 6) in
    let mday : t.tm_mday ≡ u.tm_mday = omega (arith, at 8, at 9) in
    let hour : t.tm_hour ≡ u.tm_hour = omega (arith, at 11, at 12) in
    let min : t.tm_min ≡ u.tm_min = omega (arith, at 14, at 15) in
    let sec : t.tm_sec ≡ u.tm_sec = omega (arith, at 17, at 18) in cc

module _ (localtime : ℤ → Tm) (in_range : (s : ℤ) → IsValid (localtime s)) where
  to_string_lem :
      (t : Timestamp) → to_string localtime t ≡ nineteen (localtime (seconds_since_epoch t))
  unfolding to_string
  to_string_lem t =
      ap (truncated 128)
        (printed_lem (localtime (seconds_since_epoch t)) (in_range (seconds_since_epoch t)))
      ∙ refl

  -- With a `localtime` that keeps to the ranges of its fields, up to the year 9999: time stamps with the same text have the same
  -- local time, to the second; no text is cut off by the 128 bytes.
  pub to_string-injective :
      (t u : Timestamp)
      → to_string localtime t ≡ to_string localtime u
      → localtime (seconds_since_epoch t) ≡ localtime (seconds_since_epoch u)
  to_string-injective t u e =
      nineteen-injective (localtime (seconds_since_epoch t)) (localtime (seconds_since_epoch u))
        (in_range (seconds_since_epoch t)) (in_range (seconds_since_epoch u))
        (sym (to_string_lem t) ∙ e ∙ to_string_lem u)

micro_seconds-now :
    (sec usec : ℕ)
    → now (pos sec) usec ≡ record { micro_seconds_since_epoch = pos (sec * 1000000 + usec) }
unfolding now
micro_seconds-now sec usec = ground arith

-- The seconds of a time stamp are those of the clock that it was read from, and of two of them the one that was read earlier is
-- smaller.
pub now_lem :
    (sec usec sec' usec' : ℕ)
    → usec < 1000000
    → usec' < 1000000
    → (seconds_since_epoch (now (pos sec) usec) ≡ pos sec)
      × ((earlier (now (pos sec) usec) (now (pos sec') usec') ≡ true)
          ↔ ((sec < sec') ⊎ ((sec ≡ sec') × (usec < usec'))))
unfolding seconds_since_epoch earlier
now_lem sec usec sec' usec' h h' =
    rw (micro_seconds-now sec usec, micro_seconds-now sec' usec')
      (ground arith, ((λ e. ground arith), λ o. ground arith))
