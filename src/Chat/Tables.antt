-- ===== src/Chat/Tables.antt =====
-- The tables behind the statements, as project/CHAT/src/server/chat.sql declares them: what MySQL documents
-- of a server that can be reached and has room.
pub mod Accounts
use mathlib.Core.List.{Perm}
use alexproject.Common.{
  ◌≤◌, ◌≡◌, true, List, [], ◌∷◌, ◌++◌, Option, none, some, if◌then◌else◌, length, ltb, ◌&&◌, Bool,
}
use alexproject.Common.Int.{ℤ, int_eq}
use alexproject.Common.Decimal.{Text}
use alexproject.Common.Text.{text_eq}
use alexproject.Chat.Database.{
  Mysql, UserRow, set_state, reset_states, insert_message, delete_messages,
}
use alexproject.Chat.Models.{User, no_user, online, offline}

abbrev pub row_list : Option UserRow → List UserRow
row_list none = []
row_list (some r) = r ∷ []

abbrev pub row_or_default : Option UserRow → User
row_or_default none = no_user
row_or_default (some r) = r

-- What an update of the column does to a row.
abbrev pub with_state : Text → Option UserRow → Option UserRow
with_state state none = none
with_state state (some r) = some (record r { state = state })

abbrev pub with_reset : Option UserRow → Option UserRow
with_reset none = none
with_reset (some r) = if text_eq r.state online then some (record r { state = offline }) else some r

-- The characters that the latin1 of the column `message` and the character set of the connection have alike.
abbrev pub ascii : Text → Bool
ascii [] = true
ascii (c ∷ cs) = ltb c 128 && ascii cs

-- `user` is the table under its primary key, `messages` what a select gives of `offlinemessage` for a user, of which a
-- column takes 500 characters. The select has no ORDER BY: where a row comes in, any order of the rows may be given; a statement
-- that adds no row leaves the others in the order that they have.
pub record Tables (K : Mysql) : Type 0 where
  pub user : K.State → ℤ → Option UserRow
  pub messages : K.State → ℤ → List Text
  pub reachable : (k : K.State) → K.connect k ≡ true
  pub user_id : (k : K.State) (id : ℤ) {r : UserRow} → user k id ≡ some r → r.id ≡ id
  pub select_user_lem : (id : ℤ) (k : K.State) → K.select_user id k ≡ some (row_list (user k id))
  pub select_messages_lem : (id : ℤ) (k : K.State) → K.select_messages id k ≡ some (messages k id)
  pub set_state_lem :
      (state : Text) (id : ℤ) (k : K.State)
      → (k' : K.State) × (K.execute (set_state state id) k ≡ some k')
        × ((j : ℤ) → user k' j ≡ (if int_eq id j then with_state state (user k j) else user k j))
        × ((j : ℤ) → messages k' j ≡ messages k j)
  pub reset_states_lem :
      (k : K.State)
      → (k' : K.State) × (K.execute reset_states k ≡ some k')
        × ((j : ℤ) → user k' j ≡ with_reset (user k j))
        × ((j : ℤ) → messages k' j ≡ messages k j)
  pub insert_message_lem :
      (id : ℤ) (msg : Text) (k : K.State)
      → length msg ≤ 500
      → ascii msg ≡ true
      → (k' : K.State) × (K.execute (insert_message id msg) k ≡ some k')
        × ((j : ℤ) → user k' j ≡ user k j)
        × ((j : ℤ)
            → Perm (messages k' j) (if int_eq id j then messages k j ++ msg ∷ [] else messages k j))
  pub delete_messages_lem :
      (id : ℤ) (k : K.State)
      → (k' : K.State) × (K.execute (delete_messages id) k ≡ some k')
        × ((j : ℤ) → user k' j ≡ user k j)
        × ((j : ℤ) → messages k' j ≡ (if int_eq id j then [] else messages k j))
