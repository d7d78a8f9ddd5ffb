-- ===== src/Chat/Service/Login.antt =====
-- Registering, logging in and logging out.
use alexproject.Common.{ℕ, true, ◌&&◌, List, [], ◌∷◌, map, some, ◌==◌, if◌then◌else◌, ◌>>=◌, length}
use alexproject.Common.Int.{ℤ, pos, int_eq}
use alexproject.Common.Decimal.{Text}
use alexproject.Common.Text.{text_eq}
use alexproject.Common.Literal.{codes}
use alexproject.Chat.Database.{Mysql, MemberRow}
use alexproject.Chat.Json.{
  Json, Key, int_field, text_field, texts_field, key_msgid, key_errno, key_errmsg, key_id, key_name,
  key_password, key_state, key_role, key_offlinemsg, key_friends, key_groups, key_groupname,
  key_groupdesc, key_users,
}
use alexproject.Chat.Models.{
  User, Group, no_user, online, offline, add_user, query_user, update_state, remove_messages,
  query_messages, query_friends, query_groups,
}
use alexproject.Chat.Service.{
  send, subscribe, unsubscribe, insert, erase_user, Service, Result, get_int, get_string,
}

-- The numbers of `EnMsgType`.
pub data MsgType : Type 0 where
  login_msg login_msg_ack loginout_msg reg_msg reg_msg_ack one_chat_msg add_friend_msg : MsgType
  create_group_msg add_group_msg group_chat_msg : MsgType

abbrev pub msg_number : MsgType → ℕ
msg_number login_msg = 1
msg_number login_msg_ack = 2
msg_number loginout_msg = 3
msg_number reg_msg = 4
msg_number reg_msg_ack = 5
msg_number one_chat_msg = 6
msg_number add_friend_msg = 7
msg_number create_group_msg = 8
msg_number add_group_msg = 9
msg_number group_chat_msg = 10

module _ (K : Mysql) (J : Json) where
  -- `response["msgid"] = type; response["errno"] = errno`
  abbrev pub ack : MsgType → ℕ → J.Value
  ack type errno =
      J.put (J.put J.null key_msgid (int_field (pos (msg_number type)))) key_errno
        (int_field (pos errno))

  abbrev pub refusal : ℕ → Text → J.Value
  refusal errno errmsg = J.put (ack login_msg_ack errno) key_errmsg (text_field errmsg)

  abbrev pub friend_value : User → J.Value
  friend_value u =
      J.put (J.put (J.put J.null key_id (int_field u.id)) key_name (text_field u.name)) key_state
        (text_field u.state)

  unfoldable pub friend_json : User → Text
  friend_json u = J.dump (friend_value u)

  abbrev pub member_value : MemberRow → J.Value
  member_value u =
      J.put
        (J.put (J.put (J.put J.null key_id (int_field u.id)) key_name (text_field u.name)) key_state
          (text_field u.state))
        key_role (text_field u.role)

  abbrev pub member_json : MemberRow → Text
  member_json u = J.dump (member_value u)

  abbrev pub group_value : Group → J.Value
  group_value g =
      J.put
        (J.put (J.put (J.put J.null key_id (int_field g.id)) key_groupname (text_field g.name))
          key_groupdesc (text_field g.desc))
        key_users (texts_field (map member_json g.users))

  unfoldable pub group_json : Group → Text
  group_json g = J.dump (group_value g)

  -- `response[key] = texts`, where there are any.
  abbrev pub put_texts : J.Value → Key → List Text → J.Value
  put_texts v key texts = if length texts == 0 then v else J.put v key (texts_field texts)

  -- The response to a login that succeeds.
  unfoldable pub login_response : User → List Text → List User → List Group → J.Value
  unfolding friend_json group_json
  login_response user messages friends groups =
      let named =
        J.put (J.put (ack login_msg_ack 0) key_id (int_field user.id)) key_name
          (text_field user.name) in
      put_texts
        (put_texts (put_texts named key_offlinemsg messages) key_friends (map friend_json friends))
        key_groups (map group_json groups)

  -- The branch of `login` for a user that is not logged in; the results of the two updates are not looked at.
  unfoldable pub log_in : ℕ → ℤ → User → Service K J → Result K J
  unfolding update_state query_messages remove_messages query_friends query_groups login_response
  log_in conn id user s = do
    (_, k) ← update_state K (record user { state = online }) s.db
    let messages = query_messages K id k
    (_, k') ← if length messages == 0 then some (true, k) else remove_messages K id k
    some (
      record { user_conn_map = insert s.user_conn_map id conn; db = k' },
      subscribe id
          ∷ send conn
              (J.dump (login_response user messages (query_friends K id k') (query_groups K id k')))
          ∷ [],
    )

  -- `login` once the user is queried.
  unfoldable pub check_login : ℕ → ℤ → Text → User → Service K J → Result K J
  unfolding log_in
  check_login conn id pwd user s =
      let entered = log_in conn id user s in
      if int_eq user.id id && text_eq user.password pwd
      then (if text_eq user.state online
          then some (
            s,
            send conn (J.dump (refusal 2 (codes "This account is using,please input another one!")))
                ∷ [],
          )
          else entered)
      else some (s, send conn (J.dump (refusal 1 (codes "Id or password is wrong! "))) ∷ [])

  unfoldable pub login : ℕ → J.Value → Service K J → Result K J
  unfolding check_login query_user
  login conn js s = do
    id ← get_int K J js key_id
    pwd ← get_string K J js key_password
    check_login conn id pwd (query_user K id s.db) s

  unfoldable pub reg : ℕ → J.Value → Service K J → Result K J
  unfolding add_user
  reg conn js s = do
    name ← get_string K J js key_name
    pwd ← get_string K J js key_password
    (state, user, k) ← add_user K (record no_user { name = name; password = pwd }) s.db
    let response =
        if state then J.put (ack reg_msg_ack 0) key_id (int_field user.id) else ack reg_msg_ack 1
    some (record s { db = k }, send conn (J.dump response) ∷ [])

  unfoldable pub loginout : ℕ → J.Value → Service K J → Result K J
  unfolding update_state
  loginout conn js s = do
    userid ← get_int K J js key_id
    (_, k) ← update_state K (record no_user { id = userid; state = offline }) s.db
    some (
      record { user_conn_map = erase_user s.user_conn_map userid; db = k },
      unsubscribe userid ∷ [],
    )
