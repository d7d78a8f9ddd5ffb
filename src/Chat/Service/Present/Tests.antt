-- ===== src/Chat/Service/Present/Tests.antt =====
-- Eve logs in on connection 71.
use alexproject.Common.{◌≡◌, refl, false, [], ◌∷◌, none, some, if◌then◌else◌, arith, by_result}
use alexproject.Common.Int.{ℤ, pos, int_eq}
use alexproject.Common.Reach.{here, next}
use alexproject.Common.Literal.{codes}
use alexproject.Chat.Database.{
  Update, insert_user, set_state, reset_states, insert_message, delete_messages, insert_friend,
  insert_group, insert_group_user, UserRow,
}
use alexproject.Chat.Models.{offline}
use alexproject.Chat.Samples.{
  encoded, write, write_members, write_field, write_text, read, read_members, read_field, read_text,
  read_chars,
}
use alexproject.Chat.Samples.Memory.{memory, tables, Memory}
use alexproject.Chat.Client.Menu.{sent, login_request}
use alexproject.Chat.Service.{Service, unsubscribe, shutdown_conn, find}
use alexproject.Chat.RoundTrip.Login.{service_after}
use alexproject.Chat.Service.Handlers.{on_message, on_connection}
use alexproject.Common.Decimal.{Text}
use alexproject.Chat.Service.Present.{Frames, OffUsers, handles, receives, handle}
use alexproject.Chat.Service.Present.Lost.{connection_lost}
use alexproject.Chat.Tables.{with_state}

same_users :
    (u : Update) (k k' : Memory)
    → OffUsers u
    → memory.execute u k ≡ some k'
    → (j : ℤ) → tables.user k' j ≡ tables.user k j
same_users (insert_message i t) k k' off e j =
    by_result (λ m. tables.user m j ≡ tables.user k j) refl e
same_users (delete_messages i) k k' off e j =
    by_result (λ m. tables.user m j ≡ tables.user k j) refl e
same_users (insert_friend i f) k k' off e j =
    by_result (λ m. tables.user m j ≡ tables.user k j) refl e
same_users (insert_group n d) k k' off e j =
    by_result (λ m. tables.user m j ≡ tables.user k j) refl e
same_users (insert_group_user g i r) k k' off e j =
    by_result (λ m. tables.user m j ≡ tables.user k j) refl e
same_users (insert_user n p t) k k' off e j = absurd off
same_users (set_state t i) k k' off e j = absurd off
same_users reset_states k k' off e j = absurd off

abbrev frames : Frames memory tables
frames = record {
  other_tables = same_users;
  insert_user_keeps = λ name pwd state k k' e j r h. by_result (λ m. tables.user m j ≡ some r) h e;
}

abbrev waiting : Service memory encoded
waiting = record {
  user_conn_map = [];
  db = record {
    users = λ i.
        if int_eq i (pos 3)
        then some (codes "eve", codes "pw3", offline)
        else if int_eq i (pos 2)
        then some (codes "bob", codes "pw2", offline)
        else none;
    stored = λ i. [];
  };
}

abbrev eve_login : Text
eve_login = sent encoded (login_request encoded (pos 3) (codes "pw3"))

abbrev logged_in : Service memory encoded
logged_in =
    service_after memory encoded tables (on_message memory encoded 71 eve_login waiting) waiting

-- Bob logs in as well, on connection 72.
abbrev bob : UserRow
bob = record { id = pos 2; name = codes "bob"; password = codes "pw2"; state = offline }

abbrev bob_login : encoded.Value
bob_login = login_request encoded (pos 2) (codes "pw2")

-- Eve's connection breaks.
connection_lost_example :
    (u : Service memory encoded) × (on_connection memory encoded false 71 logged_in
      ≡ some (u, unsubscribe (pos 3) ∷ shutdown_conn 71 ∷ []))
    × (find u.user_conn_map (pos 3) ≡ none)
    × ((j : ℤ) → int_eq (pos 3) j ≡ false → find u.user_conn_map j ≡ find logged_in.user_conn_map j)
    × ((j : ℤ)
        → tables.user u.db j ≡ (
            if int_eq (pos 3) j
            then with_state offline (tables.user logged_in.db j)
            else tables.user logged_in.db j))
    × ((j : ℤ) → tables.messages u.db j ≡ tables.messages logged_in.db j)
unfolding handle on_message write write_members write_field write_text read read_members read_field
    read_text read_chars
connection_lost_example =
    connection_lost memory encoded tables frames waiting 71 (pos 3) refl
      (next here (handles (receives 71 eve_login) logged_in _ refl)) (λ h. ground arith) refl
      (λ j e. ground (arith, e))
