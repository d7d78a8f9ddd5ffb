-- ===== src/Chat/RoundTrip/Registration.antt =====
-- A registration from the client's request through the server to what the client shows, and the login that follows:
-- project/CHAT/src/client/main.cpp and project/CHAT/src/server/chatservice.cpp.
use alexproject.Common.{◌≡◌, false, none, some}
use alexproject.Common.Int.{ℤ, int_eq}
use alexproject.Common.Decimal.{Text}
use alexproject.Chat.Database.{Mysql, UserRow}
use alexproject.Chat.Json.{Json, int_field, key_id}
use alexproject.Chat.Tables.{Tables}
use alexproject.Chat.Tables.Accounts.{Accounts}
use alexproject.Chat.Models.{offline}
use alexproject.Chat.Service.{Service}
use alexproject.Chat.Service.Login.{ack, reg_msg_ack}
use alexproject.Chat.Client.Responses.{Client}

module _ (K : Mysql) (J : Json) (T : Tables K) (A : Accounts K T) where
  -- The account that the server makes, and its answer.
  abbrev pub account : K.State → Text → Text → UserRow
  account k name pwd = record { id = A.next_id k; name = name; password = pwd; state = offline }

  abbrev pub reg_answer : K.State → J.Value
  reg_answer k = J.put (ack K J reg_msg_ack 0) key_id (int_field (A.next_id k))

  -- What the table holds once the account is made.
  pub record Added (k : K.State) (r : UserRow) (k' : K.State) : Type 0 where
    pub added : T.user k' r.id ≡ some r
    pub was_free : T.user k r.id ≡ none
    pub other_users : (j : ℤ) → int_eq r.id j ≡ false → T.user k' j ≡ T.user k j
    pub same_messages : (j : ℤ) → T.messages k' j ≡ T.messages k j
