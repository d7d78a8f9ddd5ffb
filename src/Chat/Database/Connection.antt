-- ===== src/Chat/Database/Connection.antt =====
-- project/CHAT/src/server/db/db.cpp and its use in project/CHAT/src/server/model: the calls of MySQL's client library that
-- one operation of a model makes. What the library returned is an argument.
pub mod Protocol
mod Tests
use alexproject.Common.{ℕ, zero, suc, Bool, true, false, ◌&&◌, List, [], ◌∷◌, ◌++◌, if◌then◌else◌}
use alexproject.Common.Decimal.{Text}
use alexproject.Common.Literal.{codes}

-- A call, with what it returned where the code looks at it: a connection, or a result that is not null.
pub data Call : Type 0 where
  mysql_init mysql_fetch_row mysql_free_result mysql_close : Call
  mysql_real_connect : Bool → Call
  mysql_query : Text → Call
  mysql_use_result : Bool → Call

-- Whether `_conn` is not null.
pub record MySql : Type 0 where
  pub conn : Bool

-- What the library gives for a query: whether `mysql_query` failed, whether there is a result, and its number of rows.
pub record Answer : Type 0 where
  pub failed : Bool
  pub result : Bool
  pub row_count : ℕ

new_mysql : Bool → MySql × List Call
new_mysql made = (record { conn = made }, mysql_init ∷ [])

destroy_mysql : MySql → List Call
destroy_mysql m = if m.conn then mysql_close ∷ [] else []

connect : Bool → MySql → Bool × List Call
connect connected m =
    if connected
    then (true, mysql_real_connect true ∷ mysql_query (codes "set names utf8") ∷ [])
    else (false, mysql_real_connect false ∷ [])

update : Answer → Text → MySql → Bool × List Call
update a sql m = if a.failed then (false, mysql_query sql ∷ []) else (true, mysql_query sql ∷ [])

query : Answer → Text → MySql → Bool × List Call
query a sql m =
    if a.failed
    then (false, mysql_query sql ∷ [])
    else (a.result, mysql_query sql ∷ mysql_use_result a.result ∷ [])

-- `while ((row = mysql_fetch_row(res)) != nullptr)` and `mysql_free_result` behind it.
fetch_all : ℕ → List Call
fetch_all zero = mysql_fetch_row ∷ mysql_free_result ∷ []
fetch_all (suc n) = mysql_fetch_row ∷ fetch_all n

-- A query and the loop over its rows.
query_all : Answer → Text → MySql → List Call
unfolding query fetch_all
query_all a sql m =
    let (res, calls) = query a sql m in calls ++ (if res then fetch_all a.row_count else [])

-- An object, the connection, what is done with it, and the destructor.
session : Bool → Bool → (MySql → List Call) → List Call
unfolding new_mysql connect destroy_mysql
session made connected body =
    let (m, made_calls) = new_mysql made in
    let (ok, calls) = connect connected m in
    made_calls ++ (calls ++ ((if ok then body m else []) ++ destroy_mysql m))

-- The operations that change a table.
pub update_session : Bool → Bool → Answer → Text → List Call
unfolding session update
update_session made connected a sql = session made connected (λ m. (update a sql m).1)

-- The queries of friends, messages and members.
pub query_session : Bool → Bool → Answer → Text → List Call
unfolding session query_all
query_session made connected a sql = session made connected (λ m. query_all a sql m)

-- `UserModel::query`, which frees the result only behind a row.
find_user : Answer → Text → MySql → List Call
unfolding query
find_user a sql m =
    let (res, calls) = query a sql m in
    calls
    ++ (if res
        then mysql_fetch_row ∷ (elim a.row_count [ zero ↦ [] | suc n ↦ mysql_free_result ∷ [] ])
        else [])

pub find_user_session : Bool → Bool → Answer → Text → List Call
unfolding session find_user
find_user_session made connected a sql = session made connected (λ m. find_user a sql m)

-- The second loop of `queryGroups`, over the groups with the statement and the answer for each.
query_members : List (Text × Answer) → MySql → List Call
unfolding query_all
query_members [] m = []
query_members ((sql, a) ∷ groups) m = query_all a sql m ++ query_members groups m

-- `GroupModel::queryGroups`; `members` are the statements for the groups that the first query found.
pub groups_session : Bool → Bool → Answer → Text → List (Text × Answer) → List Call
unfolding session query_members
groups_session made connected a sql members =
    session made connected (λ m. query_all a sql m ++ query_members members m)
