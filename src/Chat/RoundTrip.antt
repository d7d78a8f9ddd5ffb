-- ===== src/Chat/RoundTrip.antt =====
-- A chat message from one client through the server to another: project/CHAT/src/client/main.cpp and
-- project/CHAT/src/server/chatserver.cpp.
pub mod Login
pub mod Waiting
pub mod Registration
pub mod Group
mod Tests
mod GroupTests
use alexproject.Common.{
  ℕ, ◌≡◌, ◌≤◌, refl, ap, ◌∙◌, false, [], ◌∷◌, ◌++◌, some, length, ◌==◌, if◌then◌else◌,
}
use alexproject.Common.Int.{ℤ, pos}
use alexproject.Common.Decimal.{Text}
use alexproject.Common.Literal.{codes}
use alexproject.Chat.Database.{Mysql, int_text}
use alexproject.Chat.Json.{
  Json, Survives, int_field, text_field, key_msgid, key_id, key_name, key_to, key_msg, key_time,
}
use alexproject.Chat.Models.{User}
use alexproject.Chat.Redis.Channels.{Small}
use alexproject.Chat.Service.{Service, send, find}
use alexproject.Chat.Service.Handlers.{deliver, on_message}
use alexproject.Chat.Client.{main_menu, sends, message_of}
use alexproject.Chat.Client.Commands.{main_menu-chat}
use alexproject.Chat.Client.Responses.{Client, chat_line, recv, handled, read_task, read_message}
use alexproject.Chat.Client.Responses.Login.{recv-read}
use alexproject.Chat.Client.Menu.{sent}

module _ (J : Json) where
  -- The message that `chat` makes.
  abbrev pub chat_value : User → Text → ℤ → Text → J.Value
  chat_value user time i message =
      J.put
        (J.put
          (J.put (J.put (message_of J 6 user) key_name (text_field user.name)) key_to (int_field i))
          key_msg (text_field message))
        key_time (text_field time)

  -- With JSON text of at most 1024 bytes that is read back and arrives alone: when a user types `chat:<id>:<message>`, the
  -- client sends one message; the server hands it to the connection of that user, where there is one, changes nothing
  -- and sends nothing else; and the client there shows one line with the time, the sender's id and
  -- name, and the message as it was typed, and is otherwise as it was.
  pub chat_shown :
      (K : Mysql) (user : User) (time : Text) (i : ℤ) (message : Text) (s : Service K J)
      (from_conn to_conn : ℕ) (c : Client)
      → Small i
      → Survives J (chat_value user time i message)
      → length (J.dump (chat_value user time i message)) ≤ 1024
      → find s.user_conn_map i ≡ some to_conn
      → let v = chat_value user time i message in
        (main_menu J user time (codes "chat:" ++ (int_text i ++ 58 ∷ message)) ≡ some (sends v))
        × (on_message K J from_conn (sent J v) s ≡ some (s, send to_conn (J.dump v) ∷ []))
        × (read_task J (recv J (J.dump v)) c
            ≡ some (
                handled c
                  (chat_line time (some (int_field user.id)) user.name (codes " said:") message
                    ∷ [])
                  false))
  unfolding on_message deliver read_message
  chat_shown K user time i message s from_conn to_conn c small survives short connected =
      let v = chat_value user time i message in
      let type : J.get v key_msgid ≡ some (int_field (pos 6)) = simp (J.get-put) in
      let receiver : J.get v key_to ≡ some (int_field i) = simp (J.get-put) in
      let sender : J.get v key_id ≡ some (int_field user.id) = simp (J.get-put) in
      let name : J.get v key_name ≡ some (text_field user.name) = simp (J.get-put) in
      let text : J.get v key_msg ≡ some (text_field message) = simp (J.get-put) in
      let when : J.get v key_time ≡ some (text_field time) = simp (J.get-put) in
      (
        main_menu-chat J user time i message small,
        rw (survives.c_string-dump, survives.parse-dump_zero)
            (rw (survives.get-back key_msgid, type)
              (rw (survives.get-back key_to, receiver)
                (rw (connected, deliver) (rw (survives.dump-back) refl)))),
        recv-read K J v survives c short
            ∙ rw (survives.get-back key_msgid, type)
                (rw
                  (
                    survives.get-back key_time,
                    when,
                    survives.get-back key_name,
                    name,
                    survives.get-back key_msg,
                    text,
                    survives.get-back key_id,
                    sender,
                  )
                  refl),
      )
