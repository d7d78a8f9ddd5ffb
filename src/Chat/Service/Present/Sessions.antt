-- ===== src/Chat/Service/Present/Sessions.antt =====
-- `login`, `loginout` and `clientCloseException` of project/CHAT/src/server/chatservice.cpp.
use alexproject.Common.{
  ℕ, ◌≡◌, ◌⊎◌, refl, ap, sym, ◌∙◌, Bool, Bool-cases, true, false, not, ◌&&◌, List, [], ◌∷◌,
  Option-cases, none, some, if◌then◌else◌, inl, inr, arith,
}
use alexproject.Common.Int.{ℤ, negsuc, int_eq, int_eq_iff}
use alexproject.Common.Text.{text_eq, text_eq_refl}
use alexproject.Chat.Database.{Mysql}
use alexproject.Chat.Statements.{set_online-well_formed}
use alexproject.Chat.Json.{Json, key_id, key_password}
use alexproject.Chat.Tables.{Tables, row_or_default, with_state}
use alexproject.Chat.Models.{User, online, query_user, query_messages, query_friends, query_groups}
use alexproject.Chat.Service.{
  Service, Effect, send, subscribe, find, insert, erase_user, take_conn, get_int, get_string,
}
use alexproject.Chat.Service.Login.{login, log_in, login_response, check_login, loginout}
use alexproject.Chat.Service.Handlers.{on_connection}
use alexproject.Chat.Service.Delivery.{is_online, query_user-Tables}
use alexproject.Chat.Service.Session.{update_state-Tables, drain, and_false}
use alexproject.Chat.Service.Leaving.{loginout_lem, on_connection_lem}
use alexproject.Chat.Service.Present.{Frames}
use alexproject.Chat.Service.Present.Maps.{
  find-insert, insert-Distinct, find-erase, find-erased, erase-Distinct, take_conn-Took,
}
use alexproject.Chat.Service.Present.Handlers.{bind-Holds, Inv, Outcome, Kept}

module _ (K : Mysql) (J : Json) (T : Tables K) (F : Frames K T) where
  pub loginout-Kept :
      (conn : ℕ) (js : J.Value) (s : Service K J)
      → Inv K J T F s
      → Kept K J T F (loginout K J conn js s)
  unfolding loginout
  loginout-Kept conn js s v = elim (Option-cases (get_int K J js key_id)) [
    | inl e ↦ rw (loginout, e) tt
    | inr (id, e) ↦
        let (t, r, m, u, stored) = loginout_lem K J T s conn js id e in
        rw r (record {
          distinct = rw m (erase-Distinct s.user_conn_map id v.distinct);
          present = λ j c ne f. elim (Bool-cases (int_eq id j)) [
            | inl y ↦
                let gone : find t.user_conn_map j ≡ none = rw m (
                  ap (find (erase_user s.user_conn_map id)) (sym ((int_eq_iff id j).0 y))
                  ∙ find-erased s.user_conn_map id v.distinct) in
                absurd (ground (arith, gone, f))
            | inr n ↦
                let same : T.user t.db j ≡ T.user s.db j = u j ∙ rw n refl in
                ap is_online same
                ∙ v.present j c ne
                    (sym (find-erase s.user_conn_map id j n) ∙ ap (λ l. find l j) (sym m) ∙ f)
          ];
        })
  ]

  not_taken :
      (id j : ℤ)
      → (int_eq id j ≡ false) ⊎ (id ≡ negsuc 0)
      → (not (int_eq id (negsuc 0)) && int_eq id j) ≡ false
  not_taken id j (inl n) = rw n (and_false (not (int_eq id (negsuc 0))))
  not_taken id j (inr e) = rw e refl

  pub on_connection-Kept :
      (up : Bool) (conn : ℕ) (s : Service K J)
      → Inv K J T F s
      → Kept K J T F (on_connection K J up conn s)
  unfolding on_connection
  on_connection-Kept true conn s v = v
  on_connection-Kept false conn s v =
      let (t, r, m, u, stored) = on_connection_lem K J T s conn in
      let took = take_conn-Took s.user_conn_map conn v.distinct in
      rw r (record {
        distinct = rw m took.distinct;
        present = λ j c ne f.
            let was = took.kept j c (ap (λ l. find l j) (sym m) ∙ f) in
            let same : T.user t.db j ≡ T.user s.db j =
              u j ∙ rw (not_taken (take_conn s.user_conn_map conn).0 j was.1) refl in
            ap is_online same ∙ v.present j c ne was.0;
      })

  -- What `log_in` does to the map and to the users.
  log_in-users :
      (s : Service K J) (conn : ℕ) (id : ℤ) (user : User)
      → (out : Service K J × List Effect) × (log_in K J conn id user s ≡ some out)
        × (out.0.user_conn_map ≡ insert s.user_conn_map id conn)
        × ((j : ℤ)
            → T.user out.0.db j
              ≡ (if int_eq user.id j then with_state online (T.user s.db j) else T.user s.db j))
  unfolding log_in
  log_in-users s conn id user =
      let (k, e, u, m) =
        update_state-Tables K J T (record user { state = online }) s.db
          (set_online-well_formed user.id) in
      let (k', e', u', m') = drain K J T id k in
      (
        (
          record { user_conn_map = insert s.user_conn_map id conn; db = k' },
          subscribe id
              ∷ send conn (
                  J.dump (
                    login_response K J user (query_messages K id k) (query_friends K id k')
                      (query_groups K id k')))
              ∷ [],
        ),
        rw (log_in, e) (rw e' refl),
        refl,
        λ j. u' j ∙ u j,
      )

  log_in-Kept :
      (conn : ℕ) (id : ℤ) (user : User) (s : Service K J)
      → user ≡ row_or_default (T.user s.db id)
      → user.id ≡ id
      → Inv K J T F s
      → Kept K J T F (log_in K J conn id user s)
  log_in-Kept conn id user s q same v =
      let (out, r, m, u) = log_in-users s conn id user in
      rw r (record {
        distinct = rw m (insert-Distinct s.user_conn_map id conn v.distinct);
        present = λ j c ne f. elim (Bool-cases (int_eq id j)) [
          | inl y ↦
              let here : id ≡ j = (int_eq_iff id j).0 y in
              elim (Option-cases (T.user s.db id)) [
                | inl nobody ↦ absurd (
                    ne (
                      sym here ∙ sym same ∙ ap (λ (w : User). w.id) (q ∙ ap row_or_default nobody)))
                | inr (r, e) ↦
                    let row : T.user out.0.db j ≡ with_state online (some r) =
                      u j
                      ∙ rw (same, y) (ap (with_state online) (ap (T.user s.db) (sym here) ∙ e)) in
                    ap is_online row ∙ text_eq_refl online
              ]
          | inr n ↦
              let kept : T.user out.0.db j ≡ T.user s.db j = u j ∙ rw (same, n) refl in
              ap is_online kept
              ∙ v.present j c ne
                  (sym (find-insert s.user_conn_map id j conn n) ∙ ap (λ l. find l j) (sym m) ∙ f)
        ];
      })

  pub login-Kept :
      (conn : ℕ) (js : J.Value) (s : Service K J)
      → Inv K J T F s
      → Kept K J T F (login K J conn js s)
  unfolding login check_login
  login-Kept conn js s v = bind-Holds (Outcome K J T F) (get_int K J js key_id) _ (λ id.
      bind-Holds (Outcome K J T F) (get_string K J js key_password) _ (λ pwd.
        let user = query_user K id s.db in
        elim (Bool-cases (int_eq user.id id && text_eq user.password pwd)) [
          | inr n ↦ rw (check_login, n) v
          | inl y ↦ elim (Bool-cases (text_eq user.state online)) [
            | inl there ↦ rw (check_login, y, there) v
            | inr away ↦
                rw (check_login, y, away)
                  (log_in-Kept conn id user s (query_user-Tables K J T id s.db)
                    ((int_eq_iff user.id id).0 (ground (arith, y))) v)
          ]
        ]))
