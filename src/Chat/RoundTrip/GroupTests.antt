-- ===== src/Chat/RoundTrip/GroupTests.antt =====
-- Bob registers, and ann writes to a group.
use alexproject.Common.{◌≡◌, refl, false, none, if◌then◌else◌, [], ◌∷◌, ◌++◌, some, arith}
use alexproject.Chat.Samples.Memory.{memory, tables}
use alexproject.Chat.Samples.Registry.{registry, registry_tables, accounts}
use alexproject.Chat.RoundTrip.Registration.{account}
use alexproject.Chat.Database.{UserRow, int_text}
use alexproject.Chat.Models.{offline, query_group_users, User}
use alexproject.Chat.Service.{Service, send}
use alexproject.Chat.Client.Responses.{
  Client, Output, group_chat_line, show_message, recv, handled, read_task,
}
use alexproject.Chat.RoundTrip.Group.{group_value, group_chat_shown}
use alexproject.Chat.Service.GroupChat.{DeliversAll}
use alexproject.Common.Decimal.{Text}
use alexproject.Common.Int.{pos, int_eq}
use alexproject.Common.Literal.{codes}
use alexproject.Chat.Json.{int_field}
use alexproject.Chat.Samples.{encoded, write_text, write_field, write_members, write}
use alexproject.Chat.Samples.ReadBack.{encoded-Survives}
use alexproject.Chat.Service.Handlers.{on_message}
use alexproject.Chat.Client.{main_menu, sends}
use alexproject.Chat.Client.Menu.{sent}

abbrev ann : User
ann = record { id = pos 1; name = codes "ann"; password = codes "pw"; state = codes "online" }

-- Only ann has an account, and 2 is the next number.
abbrev with_ann : Service registry encoded
with_ann = record {
  user_conn_map = [];
  db = record {
    memory = record {
      users = λ i. if int_eq i (pos 1) then some (codes "ann", codes "pw", offline) else none;
      stored = λ i. [];
    };
    next = 2;
    unused = λ n h. ground arith;
  };
}

abbrev new_bob : UserRow
new_bob = account registry encoded registry_tables accounts with_ann.db (codes "bob") (codes "xyz")

-- Ann writes to a group whose other members are bob, who is connected, and eve, who is off line.
abbrev group_letter : encoded.Value
group_letter = group_value encoded ann (codes "noon") (pos 5) (codes "hi")

abbrev meeting : Service memory encoded
meeting = record {
  user_conn_map = (pos 1, 70) ∷ (pos 2, 72) ∷ [];
  db = record {
    users = λ i. if int_eq i (pos 3) then some (codes "eve", codes "pw3", offline) else none;
    stored = λ i. [];
  };
}

abbrev group_line : Text → Output
group_line said =
    group_chat_line (some (int_field (pos 5))) (codes "noon") (some (int_field (pos 1)))
      (codes "ann") said (codes "hi")

group_chat_shown_example :
    (main_menu encoded ann
        (codes "noon")
        (codes "groupchat:" ++ (int_text (pos 5) ++ 58 ∷ codes "hi"))
      ≡ some (sends group_letter))
    × ((t : Service memory encoded) × (on_message memory encoded 70
            (sent encoded group_letter)
            meeting
          ≡ some (t, send 72 (encoded.dump group_letter) ∷ []))
        × DeliversAll memory encoded tables meeting
            (pos 2 ∷ pos 3 ∷ [])
            (encoded.dump group_letter)
            t)
    × ((c : Client)
        → read_task encoded (recv encoded (encoded.dump group_letter)) c
          ≡ some (handled c (group_line (codes " said:") ∷ []) false))
    × (show_message encoded (encoded.dump group_letter) ≡ some (group_line (codes "said:") ∷ []))
unfolding write write_members write_field write_text query_group_users
group_chat_shown_example =
    group_chat_shown memory encoded tables ann (codes "noon") (pos 5) (codes "hi") meeting 70
      (omega arith) (encoded-Survives _) (omega arith) refl refl
