-- ===== src/Chat/Service/Session.antt =====
-- Logging in: `login`, and the update of a user's state.
use alexproject.Common.{
  ℕ, ◌≡◌, ◌≢◌, ◌⊎◌, refl, ap, sym, ◌∙◌, Bool, true, false, ◌&&◌, List, [], ◌∷◌, none, some,
  Bool-cases, inl, inr, if◌then◌else◌, ◌==◌, length, arith, empty_of_length,
}
use alexproject.Common.Int.{ℤ, negsuc, int_eq, int_eq_iff}
use alexproject.Common.Decimal.{Text}
use alexproject.Common.Text.{text_eq, text_eq_refl}
use alexproject.Common.Literal.{codes}
use alexproject.Chat.Database.{Mysql, UserRow, set_state, well_formed}
use alexproject.Chat.Statements.{set_online-well_formed, delete_messages-well_formed}
use alexproject.Chat.Json.{Json, key_id, key_password}
use alexproject.Chat.Tables.{Tables, row_or_default, with_state}
use alexproject.Chat.Models.{
  User, online, query_user, query_messages, remove_messages, update_state, query_friends,
  query_groups,
}
use alexproject.Chat.Service.{send, subscribe, Service, insert, get_int, get_string}
use alexproject.Chat.Service.Login.{login, log_in, check_login, refusal, login_response}
use alexproject.Chat.Service.Delivery.{query_user-Tables}

pub and_false : (b : Bool) → (b && false) ≡ false
and_false true = refl
and_false false = refl

module _ (K : Mysql) (J : Json) (T : Tables K) where
  pub query_messages-Tables : (id : ℤ) (k : K.State) → query_messages K id k ≡ T.messages k id
  unfolding query_messages
  query_messages-Tables id k = ground (arith, T.reachable k, T.select_messages_lem id k)

  pub update_state-Tables :
      (user : User) (k : K.State)
      → well_formed (set_state user.state user.id) ≡ true
      → (k' : K.State) × (update_state K user k ≡ some (true, k'))
        × ((j : ℤ)
            → T.user k' j
              ≡ (if int_eq user.id j then with_state user.state (T.user k j) else T.user k j))
        × ((j : ℤ) → T.messages k' j ≡ T.messages k j)
  unfolding update_state
  update_state-Tables user k ok =
      let (k', e, u, m) = T.set_state_lem user.state user.id k in
      (k', rw (ok, T.reachable k, e) refl, u, m)

  pub remove_messages-Tables :
      (id : ℤ) (k : K.State)
      → (k' : K.State) × (remove_messages K id k ≡ some (true, k'))
        × ((j : ℤ) → T.user k' j ≡ T.user k j)
        × ((j : ℤ) → T.messages k' j ≡ (if int_eq id j then [] else T.messages k j))
  unfolding remove_messages
  remove_messages-Tables id k =
      let (k', e, u, m) = T.delete_messages_lem id k in
      (k', rw (delete_messages-well_formed id, T.reachable k, e) refl, u, m)

  emptied :
      (id j : ℤ) (k : K.State)
      → T.messages k id ≡ []
      → T.messages k j ≡ (if int_eq id j then [] else T.messages k j)
  emptied id j k e = elim (Bool-cases (int_eq id j)) [
    | inl y ↦ rw y (ap (T.messages k) (sym ((int_eq_iff id j).0 y)) ∙ e)
    | inr n ↦ rw n refl
  ]

  -- The offline messages of a user are taken out of the table, where there are any.
  pub drain :
      (id : ℤ) (k : K.State)
      → (k' : K.State) × ((if length (query_messages K id k) == 0
            then some (true, k)
            else remove_messages K id k)
          ≡ some (true, k'))
        × ((j : ℤ) → T.user k' j ≡ T.user k j)
        × ((j : ℤ) → T.messages k' j ≡ (if int_eq id j then [] else T.messages k j))
  drain id k = elim (Bool-cases (length (query_messages K id k) == 0)) [
    | inl none_left ↦
        let e =
          sym (query_messages-Tables id k)
          ∙ empty_of_length (query_messages K id k) (ground arith) in
        (k, rw none_left refl, λ j. refl, λ j. emptied id j k e)
    | inr some_left ↦ let (k', e, u, m) = remove_messages-Tables id k in (k', rw some_left e, u, m)
  ]

  -- What a login leaves of the tables.
  pub record Entered (k : K.State) (id : ℤ) (r : UserRow) (k' : K.State) : Type 0 where
    pub now_online : T.user k' id ≡ some (record r { state = online })
    pub other_users : (j : ℤ) → int_eq id j ≡ false → T.user k' j ≡ T.user k j
    pub taken : T.messages k' id ≡ []
    pub other_messages : (j : ℤ) → int_eq id j ≡ false → T.messages k' j ≡ T.messages k j

  abbrev pub welcome : UserRow → ℤ → List Text → K.State → Text
  welcome r id messages k =
      J.dump (login_response K J r messages (query_friends K id k) (query_groups K id k))

  log_in-Entered :
      (s : Service K J) (conn : ℕ) (r : UserRow)
      → T.user s.db r.id ≡ some r
      → (t : Service K J) × (log_in K J conn r.id r s
          ≡ some (t, subscribe r.id ∷ send conn (welcome r r.id (T.messages s.db r.id) t.db) ∷ []))
        × (t.user_conn_map ≡ insert s.user_conn_map r.id conn)
        × Entered s.db r.id r t.db
  unfolding log_in
  log_in-Entered s conn r row =
      let (k, e, u, m) =
        update_state-Tables (record r { state = online }) s.db (set_online-well_formed r.id) in
      let (k', e', u', m') = drain r.id k in
      let self : int_eq r.id r.id ≡ true = (int_eq_iff r.id r.id).1 refl in
      (
        record { user_conn_map = insert s.user_conn_map r.id conn; db = k' },
        rw (log_in, e) (rw e' (rw (query_messages-Tables r.id k, m r.id) refl)),
        refl,
        record {
          now_online = u' r.id ∙ u r.id ∙ rw (self, row) refl;
          other_users = λ j ne. u' j ∙ u j ∙ rw ne refl;
          taken = m' r.id ∙ rw self refl;
          other_messages = λ j ne. m' j ∙ rw ne (m j);
        },
      )

  -- With tables that can be reached: a `login` with the password of a user who is not on line succeeds. The server subscribes to the user's channel and
  -- answers with the messages that were stored for the user, which are then taken out of the table; the
  -- user is on line, and has the connection unless an older one is still in the map; nothing of any other user changes.
  pub login-Entered :
      (s : Service K J) (conn : ℕ) (js : J.Value) (r : UserRow)
      → get_int K J js key_id ≡ some r.id
      → get_string K J js key_password ≡ some r.password
      → T.user s.db r.id ≡ some r
      → text_eq r.state online ≡ false
      → (t : Service K J) × (login K J conn js s
          ≡ some (t, subscribe r.id ∷ send conn (welcome r r.id (T.messages s.db r.id) t.db) ∷ []))
        × (t.user_conn_map ≡ insert s.user_conn_map r.id conn)
        × Entered s.db r.id r t.db
  unfolding login
  login-Entered s conn js r hid hpwd row away =
      let (t, e, f, g) = log_in-Entered s conn r row in
      let found : query_user K r.id s.db ≡ r =
        query_user-Tables K J T r.id s.db ∙ ap row_or_default row in
      let self : int_eq r.id r.id ≡ true = (int_eq_iff r.id r.id).1 refl in
      (
        t,
        rw (login, hid, hpwd) (rw found (rw (check_login, self, text_eq_refl r.password, away) e)),
        f,
        g,
      )

  -- With tables that can be reached: a `login` as nobody that the table holds, other than -1, or with another password than
  -- the user's, gets one refusal and changes nothing.
  pub login_refused :
      (s : Service K J) (conn : ℕ) (js : J.Value) (id : ℤ) (pwd : Text)
      → get_int K J js key_id ≡ some id
      → get_string K J js key_password ≡ some pwd
      → id ≢ negsuc 0
      → text_eq (row_or_default (T.user s.db id)).password pwd ≡ false ⊎ (T.user s.db id ≡ none)
      → login K J conn js s
        ≡ some (s, send conn (J.dump (refusal K J 1 (codes "Id or password is wrong! "))) ∷ [])
  unfolding login
  login_refused s conn js id pwd hid hpwd ne (inl wrong) =
      let found = query_user-Tables K J T id s.db in
      rw (login, hid, hpwd)
        (rw found (
          rw (check_login, wrong, and_false (int_eq (row_or_default (T.user s.db id)).id id)) refl))
  login_refused s conn js id pwd hid hpwd ne (inr nobody) =
      let found = query_user-Tables K J T id s.db in
      let other : int_eq (negsuc 0) id ≡ false = ground (arith, (int_eq_iff (negsuc 0) id).0) in
      rw (login, hid, hpwd) (rw (found, nobody) (rw (check_login, other) refl))
