-- ===== src/Chat/Service/RoundTrip.antt =====
-- A message that waits for its user.
use mathlib.Core.List.{List, Perm}
use alexproject.Common.Decimal.{Text}
use alexproject.Common.{ℕ, ◌≤◌, ◌≡◌, refl, ap, ◌∙◌, true, false, [], ◌∷◌, ◌++◌, none, some, length}
use alexproject.Common.Int.{int_eq, int_eq_iff}
use alexproject.Common.Text.{text_eq}
use alexproject.Chat.Database.{Mysql, UserRow, plain}
use alexproject.Chat.Json.{Json, key_to, key_id, key_password}
use alexproject.Chat.Tables.{ascii, Tables}
use alexproject.Chat.Models.{online}
use alexproject.Chat.Service.{Service, send, subscribe, find, get_int, get_string}
use alexproject.Chat.Service.Login.{login}
use alexproject.Chat.Service.Handlers.{one_chat}
use alexproject.Chat.Service.Delivery.{deliver-by, is_online}
use alexproject.Chat.Service.Session.{welcome, login-Entered}

module _ (K : Mysql) (J : Json) (T : Tables K) where
  -- With tables that can be reached: a chat message of at most 500 ASCII characters without quotes, backslashes and zeros, to a user who is off line and has no
  -- connection, is answered with nothing, and the user's next login, with the right password, is answered with the messages that had been stored before and this one,
  -- each once, in the order in which the database gives them; afterwards none is stored for the user.
  pub one_chat-login :
      (s : Service K J) (sender conn : ℕ) (js request : J.Value) (r : UserRow)
      → get_int K J js key_to ≡ some r.id
      → find s.user_conn_map r.id ≡ none
      → T.user s.db r.id ≡ some r
      → text_eq r.state online ≡ false
      → length (J.dump js) ≤ 500
      → plain (J.dump js) ≡ true
      → ascii (J.dump js) ≡ true
      → get_int K J request key_id ≡ some r.id
      → get_string K J request key_password ≡ some r.password
      → (t u : Service K J) × (waiting : List Text) × (one_chat K J sender js s ≡ some (t, []))
        × Perm waiting (T.messages s.db r.id ++ J.dump js ∷ [])
        × (login K J conn request t
            ≡ some (u, subscribe r.id ∷ send conn (welcome K J T r r.id waiting u.db) ∷ []))
        × (T.messages u.db r.id ≡ [])
  unfolding one_chat
  one_chat-login s sender conn js request r to gone row away short ok low hid hpwd =
      let (t, e, d) =
        deliver-by K J T s r.id (J.dump js) none false gone (ap is_online row ∙ away) short ok
          low in
      let self : int_eq r.id r.id ≡ true = (int_eq_iff r.id r.id).1 refl in
      let (u, f, g, h) =
        login-Entered K J T t conn request r hid hpwd (d.same_users r.id ∙ row) away in
      (t, u, T.messages t.db r.id, rw (one_chat, to) e, rw self at (d.added r.id), f, h.taken)
