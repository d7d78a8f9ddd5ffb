-- ===== src/Chat/RoundTrip/Tests.antt =====
-- A message from ann to bob, who is connected as 72.
use mathlib.Core.List.{List, Perm}
use alexproject.Common.{◌≡◌, refl, true, false, none, if◌then◌else◌, [], ◌∷◌, ◌++◌, some, arith}
use alexproject.Chat.Samples.Memory.{memory, tables}
use alexproject.Chat.Database.{UserRow, int_text}
use alexproject.Chat.Models.{offline, query_friends, query_groups, User}
use alexproject.Chat.Service.{subscribe, insert, Service, send}
use alexproject.Chat.Service.Session.{Entered}
use alexproject.Chat.Client.Responses.{
  Output, show_messages, show_current_user_data, new_client, chat_line, recv, handled, read_task,
}
use alexproject.Chat.Client.Responses.Login.{logged_in}
use alexproject.Chat.RoundTrip.Login.{
  service_after, friends_found, groups_found, login_result, login_answer, login_shown,
}
use alexproject.Chat.RoundTrip.Waiting.{offline_chat_shown}
use alexproject.Chat.Service.Login.{login_response}
use alexproject.Common.Int.{pos, int_eq}
use alexproject.Common.Literal.{codes}
use alexproject.Chat.Json.{int_field}
use alexproject.Chat.Samples.{
  encoded, no_rows, write_text, write_field, write_members, write, write_texts, read, read_members,
  read_field, read_text, read_chars,
}
use alexproject.Chat.Samples.ReadBack.{encoded-Survives}
use alexproject.Chat.Service.Handlers.{on_message}
use alexproject.Chat.Client.{main_menu, sends}
use alexproject.Chat.Client.Menu.{sent}
use alexproject.Chat.RoundTrip.{chat_value, chat_shown}

abbrev ann : User
ann = record { id = pos 1; name = codes "ann"; password = codes "pw"; state = codes "online" }

abbrev bob : User
bob = record { id = pos 2; name = codes "bob"; password = codes "pw"; state = codes "online" }

abbrev left : encoded.Value
left = chat_value encoded bob (codes "dawn") (pos 3) (codes "hey")

abbrev service : Service no_rows encoded
service = record { user_conn_map = (pos 1, 70) ∷ (pos 2, 72) ∷ []; db = tt }

chat_shown_example :
    let v = chat_value encoded ann (codes "noon") (pos 2) (codes "at 10:30") in
    (main_menu encoded ann
        (codes "noon")
        (codes "chat:" ++ (int_text (pos 2) ++ 58 ∷ codes "at 10:30"))
      ≡ some (sends v))
    × (on_message no_rows encoded 70 (sent encoded v) service
        ≡ some (service, send 72 (encoded.dump v) ∷ []))
    × (read_task encoded (recv encoded (encoded.dump v)) new_client
        ≡ some (
            handled new_client
              (chat_line
                  (codes "noon")
                  (some (int_field (pos 1)))
                  (codes "ann")
                  (codes " said:")
                  (codes "at 10:30")
                ∷ [])
              false))
unfolding write_text write_field write_members write
chat_shown_example =
    chat_shown encoded no_rows ann (codes "noon") (pos 2) (codes "at 10:30") service 70 72
      new_client (omega arith) (encoded-Survives _) (omega arith) refl

-- Eve is off line, and bob has left her a message.
abbrev dozing : Service memory encoded
dozing = record {
  user_conn_map = (pos 1, 70) ∷ [];
  db = record {
    users = λ i. if int_eq i (pos 3) then some (codes "eve", codes "pw3", offline) else none;
    stored = λ i. if int_eq i (pos 3) then encoded.dump left ∷ [] else [];
  };
}

abbrev eve : UserRow
eve = record { id = pos 3; name = codes "eve"; password = codes "pw3"; state = offline }

abbrev bob_line : Output
bob_line =
    chat_line (codes "dawn") (some (int_field (pos 2))) (codes "bob") (codes "said:") (codes "hey")

-- Eve logs in on connection 73.
login_shown_example :
    let answer = encoded.dump (login_answer memory encoded tables dozing 73 eve) in
    let c' = logged_in eve [] [] new_client in
    (t : Service memory encoded) × (login_result memory encoded tables dozing 73 eve
      ≡ some (t, subscribe (pos 3) ∷ send 73 answer ∷ []))
    × (t.user_conn_map ≡ insert dozing.user_conn_map (pos 3) 73)
    × Entered memory encoded tables dozing.db (pos 3) eve t.db
    × (read_task encoded (recv encoded answer) new_client
        ≡ some (handled c' (show_current_user_data c' ++ bob_line ∷ []) true))
unfolding query_friends query_groups write write_members login_response write_field write_texts
    write_text show_messages read read_members read_field read_text read_chars on_message
login_shown_example =
    login_shown memory encoded tables dozing 73 eve new_client (bob_line ∷ []) refl refl
      (encoded-Survives _)
      (record {
        answer = encoded-Survives _;
        friend_texts = tt;
        group_texts = tt;
        short = omega arith;
      })
      refl

-- Ann writes to eve, who logs in afterwards.
abbrev letter : encoded.Value
letter = chat_value encoded ann (codes "noon") (pos 3) (codes "up")

abbrev letter_line : Output
letter_line =
    chat_line (codes "noon") (some (int_field (pos 1))) (codes "ann") (codes "said:") (codes "up")

offline_chat_shown_example :
    let posted = on_message memory encoded 70 (sent encoded letter) dozing in
    let t = service_after memory encoded tables posted dozing in
    let answer = encoded.dump (login_answer memory encoded tables t 73 eve) in
    let c' =
      logged_in eve
        (friends_found memory encoded tables t 73 eve)
        (groups_found memory encoded tables t 73 eve)
        new_client in
    (all : List Output) × (main_menu encoded ann
        (codes "noon")
        (codes "chat:" ++ (int_text (pos 3) ++ 58 ∷ codes "up"))
      ≡ some (sends letter))
    × (posted ≡ some (t, []))
    × ((u : Service memory encoded) × (login_result memory encoded tables t 73 eve
          ≡ some (u, subscribe (pos 3) ∷ send 73 answer ∷ [])))
    × (read_task encoded (recv encoded answer) new_client
        ≡ some (handled c' (show_current_user_data c' ++ all) true))
    × Perm all (bob_line ∷ letter_line ∷ [])
unfolding query_friends query_groups write write_members login_response write_field write_texts
    write_text show_messages read read_members read_field read_text read_chars on_message
offline_chat_shown_example =
    offline_chat_shown memory encoded tables ann (codes "noon") (codes "up") dozing 70 73 eve
      new_client (bob_line ∷ []) (omega arith) (encoded-Survives _) refl refl refl (omega arith)
      refl refl (encoded-Survives _)
      (record {
        answer = encoded-Survives _;
        friend_texts = tt;
        group_texts = tt;
        short = omega arith;
      })
      refl
