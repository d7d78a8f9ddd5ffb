-- ===== src/Chat/RoundTrip/Login.antt =====
-- A login from the client's request through the server to what the client shows, and a chat message that waited
-- for it: project/CHAT/src/client/main.cpp and project/CHAT/src/server/chatserver.cpp.
use alexproject.Common.{
  ℕ, ◌≡◌, ◌≤◌, refl, ap, sym, ◌∙◌, true, false, List, [], ◌∷◌, ◌++◌, none, some, length,
}
use alexproject.Common.Int.{pos}
use alexproject.Common.Text.{text_eq}
use alexproject.Chat.Database.{Mysql, UserRow}
use alexproject.Chat.Json.{Json, Survives, int_field, text_field, key_msgid, key_id, key_password}
use alexproject.Chat.Tables.{Tables}
use alexproject.Chat.Models.{User, Group, online, query_friends, query_groups}
use alexproject.Chat.Service.{Service, Result, send, subscribe, insert}
use alexproject.Chat.Service.Login.{login_response, friend_value}
use alexproject.Chat.Service.Handlers.{on_message}
use alexproject.Chat.Service.Session.{Entered, welcome, login-Entered}
use alexproject.Chat.Client.Responses.{
  Client, Output, recv, handled, read_task, show_messages, show_current_user_data,
}
use alexproject.Chat.Client.Responses.Lists.{All, GroupSurvives}
use alexproject.Chat.Client.Responses.Login.{logged_in, read_task-login}
use alexproject.Chat.Client.Menu.{sent, login_request}

module _ (K : Mysql) (J : Json) (T : Tables K) where
  -- The service after a handler, or before it where it fails.
  abbrev pub service_after : Result K J → Service K J → Service K J
  service_after none s = s
  service_after (some (t, effects)) s = t

  -- What the server makes of a login of `r`, and the friends and the groups that it finds then.
  abbrev pub login_result : Service K J → ℕ → UserRow → Result K J
  login_result s conn r = on_message K J conn (sent J (login_request J r.id r.password)) s

  abbrev pub friends_found : Service K J → ℕ → UserRow → List User
  friends_found s conn r = query_friends K r.id (service_after (login_result s conn r) s).db

  abbrev pub groups_found : Service K J → ℕ → UserRow → List Group
  groups_found s conn r = query_groups K r.id (service_after (login_result s conn r) s).db

  abbrev pub login_answer : Service K J → ℕ → UserRow → J.Value
  login_answer s conn r =
      login_response K J r (T.messages s.db r.id) (friends_found s conn r) (groups_found s conn r)

  -- The texts of the answer and of its parts are read back, and the answer has at most 1024 bytes.
  pub record Readable (s : Service K J) (conn : ℕ) (r : UserRow) : Type 0 where
    pub answer : Survives J (login_answer s conn r)
    pub friend_texts : All (λ u. Survives J (friend_value K J u)) (friends_found s conn r)
    pub group_texts : All (GroupSurvives K J) (groups_found s conn r)
    pub short : length (J.dump (login_answer s conn r)) ≤ 1024

  -- The server's side of a login.
  pub login_result-Entered :
      (s : Service K J) (conn : ℕ) (r : UserRow)
      → T.user s.db r.id ≡ some r
      → text_eq r.state online ≡ false
      → Survives J (login_request J r.id r.password)
      → (t : Service K J) × (login_result s conn r
          ≡ some (
            t,
            subscribe r.id ∷ send conn (welcome K J T r r.id (T.messages s.db r.id) t.db) ∷ [],
          ))
        × (t.user_conn_map ≡ insert s.user_conn_map r.id conn)
        × Entered K J T s.db r.id r t.db
  unfolding on_message
  login_result-Entered s conn r row away request =
      let v = login_request J r.id r.password in
      let type : J.get v key_msgid ≡ some (int_field (pos 1)) = simp (J.get-put) in
      let id : J.get v key_id ≡ some (int_field r.id) = simp (J.get-put) in
      let password : J.get v key_password ≡ some (text_field r.password) = simp (J.get-put) in
      let (t, e, connected, entered) =
        login-Entered K J T s conn request.back r (rw (request.get-back key_id, id) refl)
          (rw (request.get-back key_password, password) refl) row away in
      (
        t,
        rw (request.c_string-dump, request.parse-dump_zero)
            (rw (request.get-back key_msgid, type) e),
        connected,
        entered,
      )

  -- With tables that can be reached, and JSON text that is read back and arrives alone: when a user who is not on line sends
  -- a login with the right password, the server puts the user on line, gives it the connection unless an older one is in the map, subscribes to its channel and answers; and
  -- when the answer has at most 1024 bytes and each message that was stored for the user can be shown, the client takes from it the user, and the friends and the groups where the answer has some, while it keeps
  -- its lists of a user before where it has none, shows them and then the lines of the stored messages in the order in which the database gives these, and posts the semaphore.
  pub login_shown :
      (s : Service K J) (conn : ℕ) (r : UserRow) (c : Client) (shown : List Output)
      → T.user s.db r.id ≡ some r
      → text_eq r.state online ≡ false
      → Survives J (login_request J r.id r.password)
      → Readable s conn r
      → show_messages J (T.messages s.db r.id) ≡ some shown
      → let answer = J.dump (login_answer s conn r) in
        let c' = logged_in r (friends_found s conn r) (groups_found s conn r) c in
        (t : Service K J) × (login_result s conn r
          ≡ some (t, subscribe r.id ∷ send conn answer ∷ []))
        × (t.user_conn_map ≡ insert s.user_conn_map r.id conn)
        × Entered K J T s.db r.id r t.db
        × (read_task J (recv J answer) c
            ≡ some (handled c' (show_current_user_data c' ++ shown) true))
  login_shown s conn r c shown row away request readable ms =
      let (t, result, connected, entered) = login_result-Entered s conn r row away request in
      let messages = T.messages s.db r.id in
      let same : t.db ≡ (service_after (login_result s conn r) s).db =
        sym (ap (λ o. (service_after o s).db) result) in
      (
        t,
        result
            ∙ ap (λ k. some (t, subscribe r.id ∷ send conn (welcome K J T r r.id messages k) ∷ []))
                same,
        connected,
        entered,
        read_task-login K J r messages (friends_found s conn r) (groups_found s conn r) c shown
            readable.answer readable.friend_texts readable.group_texts readable.short ms,
      )
