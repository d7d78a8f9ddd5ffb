-- ===== src/Chat/Client/Menu.antt =====
-- project/CHAT/src/client/main.cpp: the start menu, and the two threads of the client: the main thread sends, and waits on
-- the semaphore for the reading thread to have seen the answer.
pub mod Reading
pub mod Invariant
pub mod Handshake
mod Tests
use alexproject.Common.{
  ℕ, ◌+◌, ◌-◌, ◌<◌, ◌≡◌, Bool, true, false, List, [], ◌∷◌, ◌++◌, Option, none, some, if◌then◌else◌,
  ◌>>=◌,
}
use alexproject.Common.Int.{ℤ, pos, int_eq}
use alexproject.Common.Decimal.{Text}
use alexproject.Common.Text.{c_string}
use alexproject.Chat.Json.{Json, int_field, text_field, key_msgid, key_id, key_name, key_password}
use alexproject.Chat.Client.{Reaction, sends, complains, shows_help, leaves, main_menu}
use alexproject.Chat.Client.Responses.{
  Client, new_client, Output, bytes, handled, read_task, int_at,
}

-- Where the main thread is: at the start menu, waiting for the answer to a login or to a registration, in `mainMenu`, or
-- gone with the process.
pub data Main : Type 0 where
  at_menu waiting_login waiting_reg in_main_menu gone : Main

-- A request that the server has not answered.
pub data Request : Type 0 where
  login reg : Request

module _ (J : Json) where
  abbrev pub login_request : ℤ → Text → J.Value
  login_request id pwd =
      J.put (J.put (J.put J.null key_msgid (int_field (pos 1))) key_id (int_field id)) key_password
        (text_field pwd)

  abbrev pub reg_request : Text → Text → J.Value
  reg_request name pwd =
      J.put (J.put (J.put J.null key_msgid (int_field (pos 4))) key_name (text_field name))
        key_password (text_field pwd)

  -- The bytes of `send(clientfd, request.c_str(), strlen(request.c_str()) + 1, 0)`.
  abbrev pub sent : J.Value → Text
  sent js = c_string (J.dump js) ++ 0 ∷ []

  -- Whether a text is a message with this number.
  abbrev pub is_number : Option ℤ → ℕ → Bool
  is_number none n = false
  is_number (some i) n = int_eq i (pos n)

  abbrev pub number_of : Text → Option ℤ
  number_of t = J.parse (c_string t) >>= λ js. int_at J js key_msgid

  abbrev pub is_ack : ℕ → Text → Bool
  is_ack n t = is_number (number_of t) n

  -- The two threads, the semaphore, the requests that wait for the server, the texts on their way to
  -- the client, and the last answer to a login that was read since the login was sent.
  pub record World : Type 0 where
    pub main : Main
    pub rwsem : ℕ
    pub client : Client
    pub requests : List Request
    pub arriving : List Text
    pub last_ack : Option Text

  unfoldable pub new_world : World
  unfolding new_client
  new_world = record {
    main = at_menu;
    rwsem = 0;
    client = new_client;
    requests = [];
    arriving = [];
    last_ack = none;
  }

  unfoldable pub send_login : World → World
  send_login w = record w {
    main = waiting_login;
    client = record (w.client) { is_login_success = false };
    requests = w.requests ++ login ∷ [];
    last_ack = none;
  }

  unfoldable pub send_reg : World → World
  send_reg w = record w { main = waiting_reg; requests = w.requests ++ reg ∷ [] }

  -- `sem_wait` returns after a login, and the test of `g_isLoginSuccess`.
  unfoldable pub pass_login : World → World
  pass_login w = record w {
    main = if w.client.is_login_success then in_main_menu else at_menu;
    rwsem = w.rwsem - 1;
  }

  unfoldable pub pass_reg : World → World
  pass_reg w = record w { main = at_menu; rwsem = w.rwsem - 1 }

  -- The `while (isMainMenuRunning)` goes on, unless the user logged out.
  abbrev pub after_command : Reaction J → Main
  after_command (leaves v) = at_menu
  after_command _ = in_main_menu

  -- A round of the reading thread on the text `t`: what it leaves of the client, and whether it posted.
  unfoldable pub after_read : Text → List Text → Client → Bool → World → World
  after_read t rest c posts w = record w {
    arriving = rest;
    client = c;
    rwsem = if posts then w.rwsem + 1 else w.rwsem;
    last_ack = if is_ack 2 t then some t else w.last_ack;
  }

  -- What the user, the server and the reading thread do, in any order, where sending succeeds and each message arrives alone.
  -- The server answers the requests of a connection in their order, and sends other messages when it likes.
  pub data Step (w : World) : World → Type 0 where
    chooses_login : w.main ≡ at_menu → Step w (send_login w)
    chooses_reg : w.main ≡ at_menu → Step w (send_reg w)
    wakes_login : w.main ≡ waiting_login → 0 < w.rwsem → Step w (pass_login w)
    wakes_reg : w.main ≡ waiting_reg → 0 < w.rwsem → Step w (pass_reg w)
    types :
        (time line : Text) (r : Reaction J)
        → w.main ≡ in_main_menu
        → main_menu J w.client.current_user time line ≡ some r
        → Step w (record w { main = after_command r })
    answers_login :
        (t : Text) (rest : List Request)
        → w.requests ≡ login ∷ rest
        → is_ack 2 t ≡ true
        → Step w (record w { requests = rest; arriving = w.arriving ++ t ∷ [] })
    answers_reg :
        (t : Text) (rest : List Request)
        → w.requests ≡ reg ∷ rest
        → is_ack 5 t ≡ true
        → Step w (record w { requests = rest; arriving = w.arriving ++ t ∷ [] })
    tells :
        (t : Text)
        → is_ack 2 t ≡ false
        → is_ack 5 t ≡ false
        → Step w (record w { arriving = w.arriving ++ t ∷ [] })
    reads :
        (t : Text) (rest : List Text) (c : Client) (shown : List Output) (posts : Bool)
        → w.arriving ≡ t ∷ rest
        → read_task J (bytes t) w.client ≡ some (handled c shown posts)
        → Step w (after_read t rest c posts w)
    ends : Step w (record w { main = gone })
