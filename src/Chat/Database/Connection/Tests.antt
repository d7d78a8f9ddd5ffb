-- ===== src/Chat/Database/Connection/Tests.antt =====
-- A user who is found, and one who is not.
use alexproject.Common.{◌≡◌, ◌↔◌, refl, true, false, ◌&&◌, List, [], ◌∷◌, none, some}
use alexproject.Common.Decimal.{Text}
use alexproject.Common.Literal.{codes}
use alexproject.Chat.Database.Connection.{
  Answer, mysql_init, mysql_real_connect, mysql_query, mysql_use_result, mysql_fetch_row,
  mysql_free_result, mysql_close, update_session, query_session, groups_session, find_user_session,
}
use alexproject.Chat.Database.Connection.Protocol.{
  no_handle, closed, follow, leaves_result, sessions_lem,
}

abbrev one_row : Answer
one_row = record { failed = false; result = true; row_count = 1 }

abbrev no_row : Answer
no_row = record { failed = false; result = true; row_count = 0 }

found :
    find_user_session true true one_row (codes "q")
    ≡ mysql_init
      ∷ mysql_real_connect true
      ∷ mysql_query (codes "set names utf8")
      ∷ mysql_query (codes "q")
      ∷ mysql_use_result true
      ∷ mysql_fetch_row
      ∷ mysql_free_result
      ∷ mysql_close
      ∷ []
unfolding find_user_session
found = refl

not_found : follow no_handle (find_user_session true true no_row (codes "q")) ≡ none
unfolding find_user_session
not_found = refl

abbrev one_group : List (Text × Answer)
one_group = (codes "m", no_row) ∷ []

sessions_lem_example :
    (follow no_handle (update_session true true one_row (codes "q")) ≡ some closed)
    × (follow no_handle (query_session true true one_row (codes "q")) ≡ some closed)
    × (follow no_handle (groups_session true true one_row (codes "q") one_group) ≡ some closed)
    × ((follow no_handle (find_user_session true true one_row (codes "q")) ≡ some closed)
        ↔ ((true && leaves_result one_row) ≡ false))
sessions_lem_example = sessions_lem true one_row (codes "q") one_group
