-- ===== src/Chat/Service/Handlers.antt =====
-- The other handlers of ChatService, and the dispatch on the number of a message.
use alexproject.Common.{ℕ, Bool, true, false, List, [], ◌∷◌, ◌++◌, none, some, if◌then◌else◌, ◌>>=◌}
use alexproject.Common.Int.{ℤ, pos, negsuc, int_eq}
use alexproject.Common.Decimal.{Text}
use alexproject.Common.Text.{text_eq}
use alexproject.Common.Literal.{codes}
use alexproject.Chat.Database.{Mysql}
use alexproject.Chat.Json.{
  Json, key_msgid, key_id, key_groupname, key_groupdesc, key_to, key_friendid, key_groupid,
}
use alexproject.Chat.Models.{
  no_user, online, offline, query_user, update_state, reset_state, add_message, add_friend,
  create_group, join_group, query_group_users,
}
use alexproject.Chat.Service.{
  send, unsubscribe, publish, log_error, shutdown_conn, find, take_conn, Service, Result, get_int,
  get_string,
}
use alexproject.Chat.Service.Login.{login, reg, loginout}

module _ (K : Mysql) (J : Json) where
  -- What `oneChat` and `groupChat` do with a message for one user: it goes to the user's connection, to the
  -- other server through Redis, or to the offline messages.
  unfoldable pub deliver : ℤ → Text → Service K J → Result K J
  unfolding query_user add_message
  deliver id text s =
      let user = query_user K id s.db in
      elim (find s.user_conn_map id) [
        | some conn ↦ some (s, send conn text ∷ [])
        | none ↦
            if text_eq user.state online
            then some (s, publish id text ∷ [])
            else (do (_, k) ← add_message K id text s.db; some (record s { db = k }, []))
      ]

  unfoldable pub one_chat : ℕ → J.Value → Service K J → Result K J
  unfolding deliver
  one_chat conn js s = do toid ← get_int K J js key_to; deliver toid (J.dump js) s

  unfoldable pub add_friend_handler : ℕ → J.Value → Service K J → Result K J
  unfolding add_friend
  add_friend_handler conn js s = do
    userid ← get_int K J js key_id
    friendid ← get_int K J js key_friendid
    (_, k) ← add_friend K userid friendid s.db
    some (record s { db = k }, [])

  unfoldable pub create_group_handler : ℕ → J.Value → Service K J → Result K J
  unfolding create_group join_group
  create_group_handler conn js s = do
    userid ← get_int K J js key_id
    name ← get_string K J js key_groupname
    desc ← get_string K J js key_groupdesc
    (created, group, k) ←
        create_group K (record { id = negsuc 0; name = name; desc = desc; users = [] }) s.db
    (_, k') ← if created then join_group K userid group.id (codes "creator") k else some (false, k)
    some (record s { db = k' }, [])

  unfoldable pub add_group_handler : ℕ → J.Value → Service K J → Result K J
  unfolding join_group
  add_group_handler conn js s = do
    userid ← get_int K J js key_id
    groupid ← get_int K J js key_groupid
    (_, k) ← join_group K userid groupid (codes "normal") s.db
    some (record s { db = k }, [])

  -- The loop of `groupChat`.
  unfoldable pub deliver_all : List ℤ → Text → Service K J → Result K J
  unfolding deliver
  deliver_all [] text s = some (s, [])
  deliver_all (id ∷ ids) text s = do
    (s', es) ← deliver id text s
    (s'', fs) ← deliver_all ids text s'
    some (s'', es ++ fs)

  unfoldable pub group_chat : ℕ → J.Value → Service K J → Result K J
  unfolding deliver_all query_group_users
  group_chat conn js s = do
    userid ← get_int K J js key_id
    groupid ← get_int K J js key_groupid
    deliver_all (query_group_users K userid groupid s.db) (J.dump js) s

  unfoldable pub client_close_exception : ℕ → Service K J → Result K J
  unfolding update_state
  client_close_exception conn s = do
    let (id, entries) = take_conn s.user_conn_map conn
    (_, k) ←
        if int_eq id (negsuc 0)
        then some (true, s.db)
        else update_state K (record no_user { id = id; state = offline }) s.db
    some (record { user_conn_map = entries; db = k }, unsubscribe id ∷ [])

  unfoldable pub reset : Service K J → Result K J
  unfolding reset_state
  reset s = do (_, k) ← reset_state K s.db; some (record s { db = k }, [])

  -- `handlerRedisSubscribeMessage`
  unfoldable pub redis_message : ℤ → Text → Service K J → Result K J
  unfolding add_message
  redis_message userid msg s = elim (find s.user_conn_map userid) [
    | some conn ↦ some (s, send conn msg ∷ [])
    | none ↦ (do (_, k) ← add_message K userid msg s.db; some (record s { db = k }, []))
  ]

  -- `getHandler` and the call of what it gives; a number without a handler is logged.
  unfoldable pub dispatch : ℤ → ℕ → J.Value → Service K J → Result K J
  unfolding login reg loginout one_chat add_friend_handler create_group_handler add_group_handler
      group_chat
  dispatch id conn js s =
      if int_eq id (pos 1)
      then login K J conn js s
      else if int_eq id (pos 4)
      then reg K J conn js s
      else if int_eq id (pos 6)
      then one_chat conn js s
      else if int_eq id (pos 7)
      then add_friend_handler conn js s
      else if int_eq id (pos 8)
      then create_group_handler conn js s
      else if int_eq id (pos 9)
      then add_group_handler conn js s
      else if int_eq id (pos 10)
      then group_chat conn js s
      else if int_eq id (pos 3)
      then loginout K J conn js s
      else some (s, log_error id ∷ [])

  -- `ChatServer::onMessage` on all the bytes that the buffer holds.
  unfoldable pub on_message : ℕ → Text → Service K J → Result K J
  unfolding dispatch
  on_message conn buf s = do js ← J.parse buf; id ← get_int K J js key_msgid; dispatch id conn js s

  -- `ChatServer::onConnection`, called when a connection is made and when it is gone.
  unfoldable pub on_connection : Bool → ℕ → Service K J → Result K J
  unfolding client_close_exception
  on_connection true conn s = some (s, [])
  on_connection false conn s = do
    (t, effects) ← client_close_exception conn s
    some (t, effects ++ shutdown_conn conn ∷ [])
