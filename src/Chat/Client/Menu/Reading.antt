-- ===== src/Chat/Client/Menu/Reading.antt =====
-- What one round of the reading thread does to the client and to the semaphore.
use alexproject.Common.{◌≡◌, Bool, true, false, ◌||◌, List, some, arith, Option-cases, inl, inr}
use alexproject.Common.Int.{pos}
use alexproject.Common.Decimal.{Text}
use alexproject.Common.Text.{c_string}
use alexproject.Chat.Json.{Json, key_msgid, key_errno, key_id, key_name}
use alexproject.Chat.Client.Responses.{
  Client, Output, bytes, handled, enter, do_login_response, read_message, read_task, int_at,
  string_at,
}
use alexproject.Chat.Client.Menu.{is_number}

module _ (J : Json) where
  enter_lem :
      (js : J.Value) (c c' : Client) (shown : List Output)
      → enter J js c ≡ some (c', shown)
      → (int_at J js key_id ≡ some c'.current_user.id)
        × (string_at J js key_name ≡ some c'.current_user.name)
  unfolding enter
  enter_lem js c c' shown h = ground arith

  response_lem :
      (js : J.Value) (c c' : Client) (shown : List Output)
      → do_login_response J js c ≡ some (c', shown)
      → c'.is_login_success ≡ true
      → (int_at J js key_errno ≡ some (pos 0))
        × (int_at J js key_id ≡ some c'.current_user.id)
        × (string_at J js key_name ≡ some c'.current_user.name)
  unfolding do_login_response
  response_lem js c c' shown h y = ground (arith, enter_lem js c c' shown)

  -- The client holds the user of the answer `js` to a login, which succeeded.
  pub record LoginAccepted (js : J.Value) (c : Client) : Type 0 where
    pub errno : int_at J js key_errno ≡ some (pos 0)
    pub id : int_at J js key_id ≡ some c.current_user.id
    pub name : string_at J js key_name ≡ some c.current_user.name

  -- What a round on the message `js` does.
  pub record Effect (js : J.Value) (c c' : Client) (posts : Bool) : Type 0 where
    pub posts_lem :
        posts ≡ (is_number J (int_at J js key_msgid) 2 || is_number J (int_at J js key_msgid) 5)
    pub kept : is_number J (int_at J js key_msgid) 2 ≡ false → c' ≡ c
    pub accepted :
        is_number J (int_at J js key_msgid) 2 ≡ true
        → c'.is_login_success ≡ true
        → LoginAccepted js c'

  read_message-Effect :
      (js : J.Value) (c c' : Client) (shown : List Output) (posts : Bool)
      → read_message J js c ≡ some (handled c' shown posts)
      → Effect js c c' posts
  unfolding read_message
  read_message-Effect js c c' shown posts h = record {
    posts_lem = ground arith;
    kept = λ n. ground arith;
    accepted = λ y success. ground (arith, response_lem js c c' shown);
  }

  pub read_task-Effect :
      (t : Text) (c c' : Client) (shown : List Output) (posts : Bool)
      → read_task J (bytes t) c ≡ some (handled c' shown posts)
      → (js : J.Value) × (J.parse (c_string t) ≡ some js) × Effect js c c' posts
  unfolding read_task
  read_task-Effect t c c' shown posts h = elim (Option-cases (J.parse (c_string t))) [
    | inl e ↦ absurd (ground (arith, e))
    | inr (js, e) ↦ (js, e, read_message-Effect js c c' shown posts (ground (arith, e)))
  ]
