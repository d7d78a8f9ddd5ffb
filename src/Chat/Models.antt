-- ===== src/Chat/Models.antt =====
-- project/CHAT/src/server/model: users, friends, groups and offline messages.
use alexproject.Common.{
  Bool, true, false, List, [], ◌∷◌, map, Option, none, some, if◌then◌else◌, ◌>>=◌,
}
use alexproject.Common.Int.{ℤ, negsuc}
use alexproject.Common.Decimal.{Text}
use alexproject.Common.Literal.{codes}
use alexproject.Chat.Database.{
  Mysql, UserRow, GroupRow, MemberRow, Update, insert_user, set_state, reset_states, insert_message,
  delete_messages, insert_friend, insert_group, insert_group_user, well_formed,
}

abbrev pub online : Text
online = codes "online"

abbrev pub offline : Text
offline = codes "offline"

abbrev pub User : Type 0
User = UserRow

-- The default arguments of `User`.
abbrev pub no_user : User
no_user = record { id = negsuc 0; name = []; password = []; state = offline }

pub record Group : Type 0 where
  pub id : ℤ
  pub name : Text
  pub desc : Text
  pub users : List MemberRow

module _ (K : Mysql) where
  -- `mysql.connect()` and `mysql.update(sql)`: whether it worked, and the database. `none` where `sprintf` writes past
  -- `sql`, or where a quote makes the text another statement.
  unfoldable pub run_update : Update → K.State → Option (Bool × K.State)
  unfolding well_formed
  run_update u k =
      let done : Bool × K.State = elim (K.execute u k) [
        | none ↦ (false, k)
        | some k' ↦ (true, k')
      ] in
      if well_formed u then some (if K.connect k then done else (false, k)) else none

  -- The rows of a query, none where there is no connection or the query fails.
  unfoldable pub rows : {A : Type 0} → K.State → Option (List A) → List A
  rows k result = if K.connect k then elim result [ none ↦ [] | some rs ↦ rs ] else []

  -- `UserModel`
  unfoldable pub add_user : User → K.State → Option (Bool × User × K.State)
  unfolding run_update
  add_user user k = do
    (inserted, k') ← run_update (insert_user user.name user.password user.state) k
    some (inserted, if inserted then record user { id = K.insert_id k' } else user, k')

  first_user : List UserRow → User
  first_user [] = no_user
  first_user (row ∷ rs) = row

  unfoldable pub query_user : ℤ → K.State → User
  unfolding rows first_user
  query_user id k = first_user (rows k (K.select_user id k))

  unfoldable pub update_state : User → K.State → Option (Bool × K.State)
  unfolding run_update
  update_state user k = run_update (set_state user.state user.id) k

  unfoldable pub reset_state : K.State → Option (Bool × K.State)
  unfolding run_update
  reset_state k = run_update reset_states k

  -- `OfflineMsgModel`
  unfoldable pub add_message : ℤ → Text → K.State → Option (Bool × K.State)
  unfolding run_update
  add_message userid msg k = run_update (insert_message userid msg) k

  unfoldable pub remove_messages : ℤ → K.State → Option (Bool × K.State)
  unfolding run_update
  remove_messages userid k = run_update (delete_messages userid) k

  unfoldable pub query_messages : ℤ → K.State → List Text
  unfolding rows
  query_messages userid k = rows k (K.select_messages userid k)

  -- `FriendModel`
  unfoldable pub add_friend : ℤ → ℤ → K.State → Option (Bool × K.State)
  unfolding run_update
  add_friend userid friendid k = run_update (insert_friend userid friendid) k

  unfoldable pub query_friends : ℤ → K.State → List User
  unfolding rows
  query_friends userid k =
      map (λ (r : MemberRow). record { id = r.id; name = r.name; password = []; state = r.state })
        (rows k (K.select_friends userid k))

  -- `GroupModel`
  unfoldable pub create_group : Group → K.State → Option (Bool × Group × K.State)
  unfolding run_update
  create_group group k = do
    (inserted, k') ← run_update (insert_group group.name group.desc) k
    some (inserted, if inserted then record group { id = K.insert_id k' } else group, k')

  unfoldable pub join_group : ℤ → ℤ → Text → K.State → Option (Bool × K.State)
  unfolding run_update
  join_group userid groupid role k = run_update (insert_group_user groupid userid role) k

  unfoldable pub query_groups : ℤ → K.State → List Group
  unfolding rows
  query_groups userid k =
      map
        (λ (r : GroupRow). record {
          id = r.id;
          name = r.groupname;
          desc = r.groupdesc;
          users = rows k (K.select_members r.id k);
        })
        (rows k (K.select_groups userid k))

  unfoldable pub query_group_users : ℤ → ℤ → K.State → List ℤ
  unfolding rows
  query_group_users userid groupid k = rows k (K.select_member_ids groupid userid k)
