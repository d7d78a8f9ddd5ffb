-- ===== src/Chat/Service/Tests.antt =====
-- Tests of the chat service.
use mathlib.Core.List.{List, Perm}
use alexproject.Common.Decimal.{Text}
use alexproject.Common.{ℕ, ◌≡◌, refl, [], ◌∷◌, Option, none, some, if◌then◌else◌, ◌>>=◌, inl, arith}
use alexproject.Common.Int.{pos, negsuc, int_eq}
use alexproject.Common.Literal.{codes}
use alexproject.Chat.Database.{UserRow, int_text}
use alexproject.Chat.Json.{
  Field, int_field, text_field, key_id, key_to, key_msg, key_password, key_groupid,
}
use alexproject.Chat.Models.{online, offline, query_user}
use alexproject.Chat.Service.{Service, send, subscribe, publish}
use alexproject.Chat.Service.Login.{login, refusal}
use alexproject.Chat.Service.Handlers.{redis_message, one_chat}
use alexproject.Chat.Redis.{observe, array_reply}
use alexproject.Chat.Service.Remote.{remote_delivery}
use alexproject.Chat.Service.Delivery.{local, Delivers}
use alexproject.Chat.Service.Session.{login_refused, welcome}
use alexproject.Chat.Service.RoundTrip.{one_chat-login}
use alexproject.Chat.Samples.Memory.{object, memory, tables}

-- User 1 is connected here as 70, user 2 is on line elsewhere, user 3 is off line with a message waiting.
abbrev service : Service memory object
service = record {
  user_conn_map = (pos 1, 70) ∷ [];
  db = record {
    users = λ i.
        if int_eq i (pos 1)
        then some (codes "ann", codes "pw1", online)
        else if int_eq i (pos 2)
        then some (codes "bob", codes "pw2", online)
        else if int_eq i (pos 3)
        then some (codes "eve", codes "pw3", offline)
        else none;
    stored = λ i. if int_eq i (pos 3) then codes "old" ∷ [] else [];
  };
}

abbrev eve : UserRow
eve = record { id = pos 3; name = codes "eve"; password = codes "pw3"; state = offline }

-- A chat message to user 3 and to group 5 of user 1; a login of user 3.
abbrev chat_json : ℕ → Option Field
chat_json =
    object.put
      (object.put
        (object.put (object.put object.null key_to (int_field (pos 3))) key_msg
          (text_field (codes "hi")))
        key_id (int_field (pos 1)))
      key_groupid (int_field (pos 5))

abbrev login_json : ℕ → Option Field
login_json =
    object.put (object.put object.null key_id (int_field (pos 3))) key_password
      (text_field (codes "pw3"))

abbrev wrong_json : ℕ → Option Field
wrong_json =
    object.put (object.put object.null key_id (int_field (pos 3))) key_password
      (text_field (codes "pw1"))

login_refused_example :
    login memory object 71 wrong_json service
    ≡ some (
      service,
      send 71 (object.dump (refusal memory object 1 (codes "Id or password is wrong! "))) ∷ [],
    )
login_refused_example =
    login_refused memory object tables service 71 wrong_json (pos 3) (codes "pw1") refl refl
      (λ e. ground arith) (inl refl)

one_chat-login_example :
    (t u : Service memory object) × (waiting : List Text) × (one_chat memory object 70 chat_json
        service
      ≡ some (t, []))
    × Perm waiting (codes "old" ∷ codes "hi" ∷ [])
    × (login memory object 71 login_json t
        ≡ some (
          u,
          subscribe (pos 3) ∷ send 71 (welcome memory object tables eve (pos 3) waiting u.db) ∷ [],
        ))
    × (tables.messages u.db (pos 3) ≡ [])
one_chat-login_example =
    one_chat-login memory object tables service 70 71 chat_json login_json eve refl refl refl refl
      (ground arith) refl refl refl refl

-- A login as -1 with an empty password is let in, although there is no such user.
nobody_enters :
    (login memory object 71
        (object.put
          (object.put object.null key_id (int_field (negsuc 0)))
          key_password
          (text_field []))
        service
      >>= λ r. some (r.0.user_conn_map))
    ≡ some ((pos 1, 70) ∷ (negsuc 0, 71) ∷ [])
unfolding login query_user
nobody_enters = refl

-- A message to user 2, who is connected to the other server as 80.
abbrev bob_json : ℕ → Option Field
bob_json =
    object.put (object.put object.null key_to (int_field (pos 2))) key_msg (text_field (codes "hi"))

abbrev other_server : Service memory object
other_server = record service { user_conn_map = (pos 2, 80) ∷ [] }

remote_delivery_example :
    (t : Service memory object) × (one_chat memory object 70 bob_json service
      ≡ some (service, publish (pos 2) (codes "hi") ∷ []))
    × (observe (array_reply (int_text (pos 2)) (some (codes "hi")) ∷ []) ≡ (pos 2, codes "hi") ∷ [])
    × (redis_message memory object (pos 2) (codes "hi") other_server
        ≡ some (t, send 80 (codes "hi") ∷ []))
    × Delivers memory object tables other_server (pos 2) (local 80) (codes "hi") t
remote_delivery_example =
    remote_delivery memory object tables service other_server 70 bob_json (pos 2) (omega arith) refl
      refl refl (ground arith) refl refl
