-- ===== src/Chat/Client/Responses/Login.antt =====
-- The client takes over what the server's response to a login says.
use alexproject.Common.{
  ◌≡◌, ◌≤◌, refl, ◌∙◌, true, List, map, some, length, ◌==◌, if◌then◌else◌, take_all, ◌++◌,
}
use alexproject.Common.Decimal.{Text}
use alexproject.Chat.Database.{Mysql}
use alexproject.Chat.Json.{
  Json, Survives, key_msgid, key_errno, key_id, key_name, key_offlinemsg, key_friends, key_groups,
}
use alexproject.Chat.Models.{User, Group}
use alexproject.Chat.Service.Response.{login_response_lem}
use alexproject.Chat.Service.Login.{friend_value, login_response}
use alexproject.Chat.Client.Responses.{
  Client, Output, recv, handled, read_task, show_messages, show_current_user_data, read_message,
}
use alexproject.Chat.Client.Responses.Lists.{
  All, without_password, GroupSurvives, friends_read, groups_read, offline_read,
}

-- The client after a login of this user with these lists.
abbrev pub logged_in : User → List User → List Group → Client → Client
logged_in user friends groups c = record {
  current_user = record (c.current_user) { id = user.id; name = user.name };
  current_user_friend_list =
      if length friends == 0 then c.current_user_friend_list else map without_password friends;
  current_user_group_list = if length groups == 0 then c.current_user_group_list else groups;
  is_login_success = true;
}

module _ (K : Mysql) (J : Json) where
  -- The client, when it receives a text of the library's that fits its array, reads the value.
  pub recv-read :
      (v : J.Value) (s : Survives J v) (c : Client)
      → length (J.dump v) ≤ 1024
      → read_task J (recv J (J.dump v)) c ≡ read_message J s.back c
  unfolding read_task
  recv-read v s c short = rw (take_all 1024 (J.dump v) short, s.c_string-dump, s.parse-dump) refl

  -- With a response of at most 1024 bytes that arrives alone, whose JSON texts and those of its parts are read
  -- back, and with stored messages that can be shown: the client of a user who logs in gets the user's id and name, the
  -- friends and the groups that the server sent, shows them and then the messages, and posts the
  -- semaphore. Where the server sent no friends, or no groups, the client keeps the old list.
  pub read_task-login :
      (user : User) (messages : List Text) (friends : List User) (groups : List Group) (c : Client)
      (shown : List Output)
      → Survives J (login_response K J user messages friends groups)
      → All (λ u. Survives J (friend_value K J u)) friends
      → All (GroupSurvives K J) groups
      → length (J.dump (login_response K J user messages friends groups)) ≤ 1024
      → show_messages J messages ≡ some shown
      → let c' = logged_in user friends groups c in
        read_task J (recv J (J.dump (login_response K J user messages friends groups))) c
        ≡ some (handled c' (show_current_user_data c' ++ shown) true)
  unfolding read_message
  read_task-login user messages friends groups c shown s fs gs short ms =
      let v = login_response K J user messages friends groups in
      let (type, errno, id, name, offline, friend_texts, group_texts) =
        login_response_lem K J user messages friends groups in
      recv-read v s c short
      ∙ rw (read_message, s.get-back key_msgid, type)
          (rw (s.get-back key_errno, errno)
            (rw (s.get-back key_id, id)
              (rw (s.get-back key_name, name)
                (rw
                  (
                    s.get-back key_friends,
                    friend_texts,
                    friends_read K J friends c.current_user_friend_list fs,
                  )
                  (rw
                    (
                      s.get-back key_groups,
                      group_texts,
                      groups_read K J groups c.current_user_group_list gs,
                    )
                    (rw (s.get-back key_offlinemsg, offline, offline_read K J messages shown ms)
                      refl))))))
