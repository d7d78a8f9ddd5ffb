-- ===== src/Chat/Client/Commands.antt =====
-- A chat command that is typed says what the user means.
use alexproject.Common.{
  ℕ, suc, ◌≡◌, ◌≢◌, refl, ap, Bool-cases, inl, inr, true, false, ◌||◌, ◌&&◌, ltb, leb, ◌/◌, ◌%◌, [],
  ◌∷◌, ◌++◌, some, ◌==◌, length, arith, ◌+◌,
}
use alexproject.Common.Int.{ℤ, pos, negsuc}
use alexproject.Common.Decimal.{Text, digits, decimal}
use alexproject.Common.Literal.{codes}
use alexproject.Chat.Database.{int_text}
use alexproject.Chat.Json.{
  Json, int_field, text_field, key_name, key_to, key_groupid, key_msg, key_time,
}
use alexproject.Chat.Models.{User}
use alexproject.Chat.Redis.{skip_blanks}
use alexproject.Chat.Redis.Channels.{AllDigits, digits-AllDigits, Small, atoi-int_text}
use alexproject.Common.Clock.{Tm, IsValid, zero_padded_lem, decimal_four}
use alexproject.Chat.Client.{
  current_time, date_text, find_colon, left_of, right_of, main_menu, chat, groupchat, sends,
  starts_with_digit, has_number, in_range, stoi, message_of,
}

abbrev NoColon : Text → Type 0
NoColon [] = Unit
NoColon (c ∷ cs) = ((c == 58) ≡ false) × NoColon cs

digits-NoColon : (t : Text) → AllDigits t → NoColon t
digits-NoColon [] a = tt
digits-NoColon (c ∷ cs) a = (ground (arith, a.0), digits-NoColon cs a.1)

int_text-NoColon : (i : ℤ) → NoColon (int_text i)
unfolding int_text decimal
int_text-NoColon (pos n) = digits-NoColon (digits 10 n) (digits-AllDigits 10 n)
int_text-NoColon (negsuc n) =
    (refl, digits-NoColon (digits 10 (n + 1)) (digits-AllDigits 10 (n + 1)))

find_colon-append : (xs ys : Text) → NoColon xs → find_colon (xs ++ 58 ∷ ys) ≡ some (length xs)
find_colon-append [] ys h = refl
find_colon-append (x ∷ xs) ys h = rw (h.0, find_colon-append xs ys h.1) refl

left-append : (xs ys : Text) → left_of (length xs) (xs ++ 58 ∷ ys) ≡ xs
left-append [] ys = refl
left-append (x ∷ xs) ys = ap (λ l. x ∷ l) (left-append xs ys)

right-append : (xs ys : Text) → right_of (length xs) (xs ++ 58 ∷ ys) ≡ ys
right-append [] ys = refl
right-append (x ∷ xs) ys = right-append xs ys

starts-digits : (t : Text) → AllDigits t → t ≢ [] → starts_with_digit t ≡ true
starts-digits [] a ne = absurd (ne refl)
starts-digits (c ∷ cs) a ne = a.0

number-digits : (t : Text) → AllDigits t → t ≢ [] → has_number (skip_blanks t) ≡ true
number-digits [] a ne = absurd (ne refl)
number-digits (c ∷ cs) a ne =
    let first : (c == 32 || (leb 9 c && leb c 13)) ≡ false = ground (arith, a.0) in
    rw (first, a.0) refl

snoc-ne-nil : (t : Text) (c : ℕ) → t ++ c ∷ [] ≢ []
snoc-ne-nil [] c e = cc
snoc-ne-nil (x ∷ xs) c e = cc

digits-ne-nil : (k n : ℕ) → digits (suc k) n ≢ []
digits-ne-nil k n = elim (Bool-cases (ltb n 10)) [
  | inl small ↦ rw small (λ e. cc)
  | inr large ↦ rw large (snoc-ne-nil (digits k (n / 10)) (48 + n % 10))
]

int_text-number : (i : ℤ) → has_number (skip_blanks (int_text i)) ≡ true
unfolding int_text decimal
int_text-number (pos n) = number-digits (digits 10 n) (digits-AllDigits 10 n) (digits-ne-nil 9 n)
int_text-number (negsuc n) =
    starts-digits (digits 10 (n + 1)) (digits-AllDigits 10 (n + 1)) (digits-ne-nil 9 (n + 1))

Small-in_range : (i : ℤ) → Small i → in_range i ≡ true
Small-in_range (pos n) h = ground arith
Small-in_range (negsuc n) h = ground arith

-- What %d prints for an `int`, `stoi` reads back.
stoi-int_text : (i : ℤ) → Small i → stoi (int_text i) ≡ some i
unfolding stoi
stoi-int_text i h = rw (int_text-number i, atoi-int_text i h, Small-in_range i h) refl

length-date_text : (t : Tm) → IsValid t → length (date_text t) ≡ 19
unfolding date_text
length-date_text t v = rw (decimal_four (t.tm_year + 1900) (omega arith) (omega arith)) (
    rw
      (
        zero_padded_lem (t.tm_mon + 1) (omega arith),
        zero_padded_lem t.tm_mday (omega arith),
        zero_padded_lem t.tm_hour (omega arith),
        zero_padded_lem t.tm_min (omega arith),
        zero_padded_lem t.tm_sec (omega arith),
      )
      refl)

-- With the ranges that the C library documents, the time of a message fits its array.
current_time-fits : (t : Tm) → IsValid t → current_time t ≡ some (date_text t)
unfolding current_time
current_time-fits t v =
    let fits : ltb (length (date_text t)) 60 ≡ true = rw (length-date_text t v) refl in rw fits refl

module _ (J : Json) where
  chat-parts :
      (user : User) (time : Text) (i : ℤ) (message : Text)
      → Small i
      → chat J user time (int_text i ++ 58 ∷ message)
        ≡ some (
            sends (
              J.put
                (J.put
                  (J.put
                    (J.put (message_of J 6 user) key_name (text_field user.name))
                    key_to
                    (int_field i))
                  key_msg
                  (text_field message))
                key_time
                (text_field time)))
  unfolding chat
  chat-parts user time i message small =
      rw (chat, find_colon-append (int_text i) message (int_text-NoColon i))
        (rw
          (
            left-append (int_text i) message,
            right-append (int_text i) message,
            atoi-int_text i small,
          )
          refl)

  -- The line `chat:<friendid>:<message>`, with a friend's id of type `int` and any message, even one with colons,
  -- sends one message: from the current user, to that friend, with just that text.
  pub main_menu-chat :
      (user : User) (time : Text) (i : ℤ) (message : Text)
      → Small i
      → main_menu J user time (codes "chat:" ++ (int_text i ++ 58 ∷ message))
        ≡ some (
            sends (
              J.put
                (J.put
                  (J.put
                    (J.put (message_of J 6 user) key_name (text_field user.name))
                    key_to
                    (int_field i))
                  key_msg
                  (text_field message))
                key_time
                (text_field time)))
  unfolding main_menu
  main_menu-chat user time i message small = chat-parts user time i message small

  groupchat-parts :
      (user : User) (time : Text) (i : ℤ) (message : Text)
      → Small i
      → groupchat J user time (int_text i ++ 58 ∷ message)
        ≡ some (
            sends (
              J.put
                (J.put
                  (J.put
                    (J.put (message_of J 10 user) key_name (text_field user.name))
                    key_groupid
                    (int_field i))
                  key_msg
                  (text_field message))
                key_time
                (text_field time)))
  unfolding groupchat
  groupchat-parts user time i message small =
      rw (groupchat, find_colon-append (int_text i) message (int_text-NoColon i))
        (rw (left-append (int_text i) message, right-append (int_text i) message)
          (rw (stoi-int_text i small) refl))

  -- The line `groupchat:<groupid>:<message>` sends one message: from the current user, to that group, with just that text.
  pub main_menu-groupchat :
      (user : User) (time : Text) (i : ℤ) (message : Text)
      → Small i
      → main_menu J user time (codes "groupchat:" ++ (int_text i ++ 58 ∷ message))
        ≡ some (
            sends (
              J.put
                (J.put
                  (J.put
                    (J.put (message_of J 10 user) key_name (text_field user.name))
                    key_groupid
                    (int_field i))
                  key_msg
                  (text_field message))
                key_time
                (text_field time)))
  unfolding main_menu
  main_menu-groupchat user time i message small = groupchat-parts user time i message small
