-- ===== src/Chat/Service/Present.antt =====
-- The whole life of the chat service, one event at a time: project/CHAT/src/server/chatserver.cpp and chatservice.cpp.
pub mod Maps
pub mod Handlers
pub mod Users
pub mod Sessions
pub mod Run
pub mod Lost
mod Tests
use alexproject.Common.{ℕ, ◌≡◌, Bool, true, List, Option, some, if◌then◌else◌}
use alexproject.Common.Int.{ℤ}
use alexproject.Common.Decimal.{Text}
use alexproject.Chat.Database.{
  Mysql, UserRow, Update, insert_user, insert_message, insert_friend, insert_group,
  insert_group_user, delete_messages,
}
use alexproject.Chat.Json.{Json}
use alexproject.Chat.Tables.{Tables}
use alexproject.Chat.Service.{Service, Result, Effect}
use alexproject.Chat.Service.Handlers.{on_message, on_connection, redis_message}

-- A message that arrives, a connection that is made or gone, and what Redis brings for a user.
pub data Event : Type 0 where
  receives : ℕ → Text → Event
  connects : Bool → ℕ → Event
  notified : ℤ → Text → Event

-- The statements on other tables than `user`.
abbrev pub OffUsers : Update → Type 0
OffUsers (insert_message id msg) = Unit
OffUsers (delete_messages id) = Unit
OffUsers (insert_friend id friend) = Unit
OffUsers (insert_group name desc) = Unit
OffUsers (insert_group_user group user role) = Unit
OffUsers _ = ⊥

-- What MySQL documents of statements on other tables, and of an insertion.
pub record Frames (K : Mysql) (T : Tables K) : Type 0 where
  pub other_tables :
      (u : Update) (k k' : K.State)
      → OffUsers u
      → K.execute u k ≡ some k'
      → (j : ℤ) → T.user k' j ≡ T.user k j
  pub insert_user_keeps :
      (name pwd state : Text) (k k' : K.State)
      → K.execute (insert_user name pwd state) k ≡ some k'
      → (j : ℤ) (r : UserRow) → T.user k j ≡ some r
      → T.user k' j ≡ some r

module _ (K : Mysql) (J : Json) where
  unfoldable pub handle : Event → Service K J → Result K J
  unfolding on_message on_connection redis_message
  handle (receives conn buf) s = on_message K J conn buf s
  handle (connects up conn) s = on_connection K J up conn s
  handle (notified id msg) s = redis_message K J id msg s

  -- An event that the service handles without an exception.
  pub data Step (s : Service K J) : Service K J → Type 0 where
    handles :
        (e : Event) (t : Service K J) (es : List Effect) → handle e s ≡ some (t, es) → Step s t
