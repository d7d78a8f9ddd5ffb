-- ===== src/Chat/Client/Menu/Invariant.antt =====
-- What the two threads of the client keep true.
use alexproject.Common.{
  ℕ, ◌+◌, ◌<◌, ◌≡◌, refl, ◌∙◌, Bool, true, false, List, [], ◌∷◌, ◌++◌, Option, none, some, arith,
}
use alexproject.Common.Int.{ℤ}
use alexproject.Common.Decimal.{Text}
use alexproject.Common.Text.{c_string}
use alexproject.Chat.Json.{Json}
use alexproject.Chat.Client.Menu.{
  Main, at_menu, waiting_login, waiting_reg, in_main_menu, gone, Request, login, reg, is_number,
  is_ack, World,
}
use alexproject.Chat.Client.Menu.Reading.{LoginAccepted}

abbrev pub count_of : Request → Request → ℕ
count_of login login = 1
count_of reg reg = 1
count_of _ _ = 0

abbrev pub requests_of : Request → List Request → ℕ
requests_of k [] = 0
requests_of k (r ∷ rs) = count_of k r + requests_of k rs

pub requests_of-append :
    (k r : Request) (rs : List Request)
    → requests_of k (rs ++ r ∷ []) ≡ requests_of k rs + count_of k r
requests_of-append k r [] = omega arith
requests_of-append k r (q ∷ qs) = omega (arith, requests_of-append k r qs)

abbrev pub one_if : Bool → ℕ
one_if true = 1
one_if false = 0

-- What is still to come for the main thread: answers to a login, answers to a registration, and posts.
abbrev pub Due : Main → ℕ → ℕ → ℕ → Type 0
Due at_menu logins regs posts = (logins ≡ 0) × (regs ≡ 0) × (posts ≡ 0)
Due in_main_menu logins regs posts = (logins ≡ 0) × (regs ≡ 0) × (posts ≡ 0)
Due waiting_login logins regs posts = (logins + posts ≡ 1) × (regs ≡ 0)
Due waiting_reg logins regs posts = (logins ≡ 0) × (regs + posts ≡ 1)
Due gone logins regs posts = Unit

module _ (J : Json) where
  abbrev pub acks : ℕ → List Text → ℕ
  acks n [] = 0
  acks n (t ∷ ts) = one_if (is_ack J n t) + acks n ts

  pub acks-append :
      (n : ℕ) (t : Text) (ts : List Text)
      → acks n (ts ++ t ∷ []) ≡ acks n ts + one_if (is_ack J n t)
  acks-append n t [] = omega arith
  acks-append n t (u ∷ us) = omega (arith, acks-append n t us)

  pub one_number : (i : Option ℤ) → is_number J i 2 ≡ true → is_number J i 5 ≡ false
  one_number none h = refl
  one_number (some i) h = ground arith

  pub other_number : (i : Option ℤ) → is_number J i 5 ≡ true → is_number J i 2 ≡ false
  other_number none h = refl
  other_number (some i) h = ground arith

  abbrev pub logins_due : World J → ℕ
  logins_due w = requests_of login w.requests + acks 2 w.arriving

  abbrev pub regs_due : World J → ℕ
  regs_due w = requests_of reg w.requests + acks 5 w.arriving

  -- The answer to the login was read, and if it is a success then the client holds its user.
  pub record Answered (w : World J) : Type 0 where
    pub text : Text
    pub js : J.Value
    pub last : w.last_ack ≡ some text
    pub parsed : J.parse (c_string text) ≡ some js
    pub accepted : w.client.is_login_success ≡ true → LoginAccepted J js w.client

  pub record Inv (w : World J) : Type 0 where
    pub due : Due w.main (logins_due w) (regs_due w) w.rwsem
    pub answered : w.main ≡ waiting_login → 0 < w.rwsem → Answered w
    pub entered : w.main ≡ in_main_menu → (w.client.is_login_success ≡ true) × Answered w

  -- `Answered` looks at the client and at the last answer alone.
  pub carry :
      (w u : World J) → u.client ≡ w.client → u.last_ack ≡ w.last_ack → Answered w → Answered u
  carry w u same_client same_ack a = record {
    text = a.text;
    js = a.js;
    last = same_ack ∙ a.last;
    parsed = a.parsed;
    accepted = λ y. rw same_client (a.accepted (rw (← same_client) y));
  }
