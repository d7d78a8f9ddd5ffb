-- ===== src/Chat/RoundTrip/Group.antt =====
-- A message to a group from one client through the server to the members' clients: project/CHAT/src/client/main.cpp and
-- project/CHAT/src/server/chatservice.cpp.
use alexproject.Common.{ℕ, ◌≡◌, ◌≤◌, refl, arith, ◌∙◌, true, false, [], ◌∷◌, ◌++◌, some, length}
use alexproject.Common.Int.{ℤ, pos}
use alexproject.Common.Decimal.{Text}
use alexproject.Common.Literal.{codes}
use alexproject.Chat.Database.{Mysql, int_text, plain}
use alexproject.Chat.Json.{
  Json, Survives, int_field, text_field, key_msgid, key_id, key_name, key_groupid, key_msg,
  key_time,
}
use alexproject.Chat.Tables.{ascii, Tables}
use alexproject.Chat.Models.{User, query_group_users}
use alexproject.Chat.Redis.Channels.{Small}
use alexproject.Chat.Service.{Service}
use alexproject.Chat.Service.Handlers.{group_chat, on_message}
use alexproject.Chat.Service.GroupChat.{all_effects, DeliversAll, deliver_all-DeliversAll}
use alexproject.Chat.Client.{main_menu, sends, message_of}
use alexproject.Chat.Client.Commands.{main_menu-groupchat}
use alexproject.Chat.Client.Responses.{
  Client, group_chat_line, recv, handled, read_task, read_message, show_message,
}
use alexproject.Chat.Client.Responses.Login.{recv-read}
use alexproject.Chat.Client.Menu.{sent}

module _ (J : Json) where
  -- The message that `groupchat` makes.
  abbrev pub group_value : User → Text → ℤ → Text → J.Value
  group_value user time i message =
      J.put
        (J.put
          (J.put (J.put (message_of J 10 user) key_name (text_field user.name)) key_groupid
            (int_field i))
          key_msg (text_field message))
        key_time (text_field time)

  -- What the members of `group_value` are.
  pub record GroupMessage (user : User) (time : Text) (i : ℤ) (message : Text) (v : J.Value)
      : Type 0 where
    type : J.get v key_msgid ≡ some (int_field (pos 10))
    group : J.get v key_groupid ≡ some (int_field i)
    sender : J.get v key_id ≡ some (int_field user.id)
    name : J.get v key_name ≡ some (text_field user.name)
    text : J.get v key_msg ≡ some (text_field message)
    when : J.get v key_time ≡ some (text_field time)

  group_value-GroupMessage :
      (user : User) (time : Text) (i : ℤ) (message : Text)
      → GroupMessage user time i message (group_value user time i message)
  group_value-GroupMessage user time i message = record {
    type = simp (J.get-put);
    group = simp (J.get-put);
    sender = simp (J.get-put);
    name = simp (J.get-put);
    text = simp (J.get-put);
    when = simp (J.get-put);
  }

  back-GroupMessage :
      (user : User) (time : Text) (i : ℤ) (message : Text) (v : J.Value) (s : Survives J v)
      → GroupMessage user time i message v
      → GroupMessage user time i message s.back
  back-GroupMessage user time i message v s m = record {
    type = s.get-back key_msgid ∙ m.type;
    group = s.get-back key_groupid ∙ m.group;
    sender = s.get-back key_id ∙ m.sender;
    name = s.get-back key_name ∙ m.name;
    text = s.get-back key_msg ∙ m.text;
    when = s.get-back key_time ∙ m.when;
  }

  read_message-group :
      (user : User) (time : Text) (i : ℤ) (message : Text) (v : J.Value) (c : Client)
      → GroupMessage user time i message v
      → read_message J v c
        ≡ some (
            handled c
              (group_chat_line
                  (some (int_field i))
                  time
                  (some (int_field user.id))
                  user.name
                  (codes " said:")
                  message
                ∷ [])
              false)
  unfolding read_message
  read_message-group user time i message v c m =
      rw m.type (rw (m.when, m.name, m.text, m.group, m.sender) refl)

  show_message-group :
      (user : User) (time : Text) (i : ℤ) (message : Text)
      → Survives J (group_value user time i message)
      → show_message J (J.dump (group_value user time i message))
        ≡ some (
            group_chat_line
              (some (int_field i))
              time
              (some (int_field user.id))
              user.name
              (codes "said:")
              message
            ∷ [])
  unfolding show_message
  show_message-group user time i message s =
      let v = group_value user time i message in
      let m =
        back-GroupMessage user time i message v s (group_value-GroupMessage user time i message) in
      rw (s.parse-dump) (rw m.type (rw (m.when, m.name, m.text, m.group, m.sender) refl))

module _ (K : Mysql) (J : Json) (T : Tables K) where
  -- With tables that can be reached, and JSON text of at most 500 ASCII characters without single quotes, backslashes and zeros that is read back and arrives alone: when a user types `groupchat:<id>:<message>`,
  -- the client sends one message; the server hands it to each other member that the database lists, in the order of the list, over the member's connection, through Redis or into the stored messages, and
  -- neither the map nor a user nor any other stored message changes; a client that gets it shows one line with the group, the time, the sender and the message as it was typed; and
  -- a client that takes it, as a stored message, out of the answer to a login shows the same.
  pub group_chat_shown :
      (user : User) (time : Text) (i : ℤ) (message : Text) (s : Service K J) (conn : ℕ)
      → let v = group_value J user time i message in
        let members = query_group_users K user.id i s.db in
        let line = λ (said : Text).
          group_chat_line
            (some (int_field i))
            time
            (some (int_field user.id))
            user.name
            said
            message in
        Small i
        → Survives J v
        → length (J.dump v) ≤ 500
        → plain (J.dump v) ≡ true
        → ascii (J.dump v) ≡ true
        → (main_menu J user time (codes "groupchat:" ++ (int_text i ++ 58 ∷ message))
            ≡ some (sends v))
          × ((t : Service K J) × (on_message K J conn (sent J v) s
                ≡ some (t, all_effects K J T s members (J.dump v)))
              × DeliversAll K J T s members (J.dump v) t)
          × ((c : Client)
              → read_task J (recv J (J.dump v)) c
                ≡ some (handled c (line (codes " said:") ∷ []) false))
          × (show_message J (J.dump v) ≡ some (line (codes "said:") ∷ []))
  unfolding on_message group_chat
  group_chat_shown user time i message s conn small survives short ok low =
      let v = group_value J user time i message in
      let m =
        back-GroupMessage J user time i message v survives
          (group_value-GroupMessage J user time i message) in
      let (t, e, d) =
        deliver_all-DeliversAll K J T s (query_group_users K user.id i s.db) (J.dump v) short ok
          low in
      (
        main_menu-groupchat J user time i message small,
        (
          t,
          rw (survives.c_string-dump, survives.parse-dump_zero)
              (rw m.type (rw (m.sender, m.group) (rw (survives.dump-back) e))),
          d,
        ),
        λ c.
            recv-read K J v survives c (omega arith)
            ∙ read_message-group J user time i message survives.back c m,
        show_message-group J user time i message survives,
      )
