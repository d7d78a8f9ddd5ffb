-- ===== src/Chat/Database/Connection/Protocol.antt =====
-- The order of calls that the client library of MySQL asks for, and whether the models keep to it.
use alexproject.Common.{
  ℕ, zero, suc, ◌≡◌, ◌↔◌, refl, ap, sym, ◌∙◌, Bool, Bool-cases, true, false, not, ◌&&◌, List, [],
  ◌∷◌, ◌++◌, Option, none, some, ◌==◌, ◌>>=◌, if◌then◌else◌, arith, inl, inr,
}
use alexproject.Common.Decimal.{Text}
use alexproject.Chat.Database.Connection.{
  Call, mysql_init, mysql_fetch_row, mysql_free_result, mysql_close, mysql_real_connect,
  mysql_query, mysql_use_result, MySql, Answer, update, query, fetch_all, query_all, session,
  update_session, query_session, find_user, find_user_session, query_members, groups_session,
}

pub data Phase : Type 0 where
  no_handle initialised connected open_result closed : Phase

-- A query is made on a connection with no open result, a result is freed before the next query and before the connection is
-- closed, and a handle is closed once.
abbrev pub next_phase : Phase → Call → Option Phase
next_phase no_handle mysql_init = some initialised
next_phase initialised (mysql_real_connect true) = some connected
next_phase initialised (mysql_real_connect false) = some initialised
next_phase initialised mysql_close = some closed
next_phase connected (mysql_query sql) = some connected
next_phase connected (mysql_use_result true) = some open_result
next_phase connected (mysql_use_result false) = some connected
next_phase connected mysql_close = some closed
next_phase open_result mysql_fetch_row = some open_result
next_phase open_result mysql_free_result = some connected
next_phase _ _ = none

abbrev pub follow : Phase → List Call → Option Phase
follow p [] = some p
follow p (c ∷ cs) = next_phase p c >>= λ q. follow q cs

bind_lem :
    (o : Option Phase) (f g h : Phase → Option Phase)
    → ((q : Phase) → g q ≡ (f q >>= h))
    → (o >>= g) ≡ ((o >>= f) >>= h)
bind_lem none f g h e = refl
bind_lem (some q) f g h e = e q

follow-append :
    (p : Phase) (cs ds : List Call) → follow p (cs ++ ds) ≡ (follow p cs >>= λ q. follow q ds)
follow-append p [] ds = refl
follow-append p (c ∷ cs) ds =
    bind_lem (next_phase p c) (λ q. follow q cs) (λ q. follow q (cs ++ ds)) (λ q. follow q ds)
      (λ q. follow-append q cs ds)

follow-parts :
    (p : Phase) {q : Phase} (cs ds : List Call)
    → follow p cs ≡ some q
    → follow p (cs ++ ds) ≡ follow q ds
follow-parts p cs ds e = follow-append p cs ds ∙ ap (λ o. o >>= λ r. follow r ds) e

follow-close : (q : Phase) → follow q (mysql_close ∷ []) ≡ next_phase q mysql_close
follow-close no_handle = refl
follow-close initialised = refl
follow-close connected = refl
follow-close open_result = refl
follow-close closed = refl

fetch_all-follow : (n : ℕ) → follow open_result (fetch_all n) ≡ some connected
unfolding fetch_all
fetch_all-follow zero = refl
fetch_all-follow (suc n) = fetch_all-follow n

query_all-follow :
    (a : Answer) (sql : Text) (m : MySql) → follow connected (query_all a sql m) ≡ some connected
unfolding query_all
query_all-follow a sql m = elim (Bool-cases a.failed) [
  | inl y ↦ rw (query, y) refl
  | inr n ↦ elim (Bool-cases a.result) [
    | inl some_result ↦ rw (query, n, some_result) (fetch_all-follow a.row_count)
    | inr no_result ↦ rw (query, n, no_result) refl
  ]
]

query_members-follow :
    (members : List (Text × Answer)) (m : MySql)
    → follow connected (query_members members m) ≡ some connected
unfolding query_members
query_members-follow [] m = refl
query_members-follow ((sql, a) ∷ members) m =
    follow-parts connected (query_all a sql m) (query_members members m) (query_all-follow a sql m)
    ∙ query_members-follow members m

update-follow :
    (a : Answer) (sql : Text) (m : MySql) → follow connected (update a sql m).1 ≡ some connected
unfolding update
update-follow a sql m = ground arith

-- What a session does between the connection and the destructor ends in `q`.
session-follow :
    (is_connected : Bool) (body : MySql → List Call) (q : Phase)
    → ((m : MySql) → follow connected (body m) ≡ some q)
    → follow no_handle (session true is_connected body)
      ≡ (if is_connected then next_phase q mysql_close else some closed)
unfolding session
session-follow true body q h =
    follow-parts connected (body (record { conn = true })) (mysql_close ∷ [])
      (h (record { conn = true }))
    ∙ follow-close q
session-follow false body q h = refl

-- There is a result and it has no row.
abbrev pub leaves_result : Answer → Bool
leaves_result a = not a.failed && (a.result && a.row_count == 0)

find_user-follow :
    (a : Answer) (sql : Text) (m : MySql)
    → follow connected (find_user a sql m)
      ≡ some (if leaves_result a then open_result else connected)
unfolding find_user query
find_user-follow a sql m = ground arith

find_user-closed :
    (is_connected b : Bool)
    → ((if is_connected
          then next_phase (if b then open_result else connected) mysql_close
          else some closed)
        ≡ some closed)
      ↔ ((is_connected && b) ≡ false)
find_user-closed true true = (λ e. absurd (ground (arith, e)), λ e. absurd (ground (arith, e)))
find_user-closed true false = (λ e. refl, λ e. refl)
find_user-closed false b = (λ e. refl, λ e. refl)

-- When `mysql_init` gives a handle, whatever the library answers afterwards: an operation that changes a table, a query of a list, and the queries for the groups with
-- those for their members keep the order of calls, free every result and close the handle once. `UserModel::query` does so
-- exactly when it does not get a result without a row: then it leaves the result open.
pub sessions_lem :
    (is_connected : Bool) (a : Answer) (sql : Text) (members : List (Text × Answer))
    → (follow no_handle (update_session true is_connected a sql) ≡ some closed)
      × (follow no_handle (query_session true is_connected a sql) ≡ some closed)
      × (follow no_handle (groups_session true is_connected a sql members) ≡ some closed)
      × ((follow no_handle (find_user_session true is_connected a sql) ≡ some closed)
          ↔ ((is_connected && leaves_result a) ≡ false))
unfolding update_session query_session groups_session find_user_session
sessions_lem b a sql members =
    let found = session-follow b (λ m. find_user a sql m) _ (find_user-follow a sql) in
    let iff = find_user-closed b (leaves_result a) in
    (
      session-follow b (λ m. (update a sql m).1) connected (update-follow a sql) ∙ end b,
      session-follow b (λ m. query_all a sql m) connected (query_all-follow a sql) ∙ end b,
      session-follow b (λ m. query_all a sql m ++ query_members members m) connected
            (λ m.
              follow-parts connected (query_all a sql m) (query_members members m)
                (query_all-follow a sql m)
              ∙ query_members-follow members m)
          ∙ end b,
      (λ h. iff.0 (sym found ∙ h), λ h. found ∙ iff.1 h),
    )
  where
    end : (b : Bool) → (if b then some closed else some closed) ≡ some closed
    end true = refl
    end false = refl
