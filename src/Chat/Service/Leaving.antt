-- ===== src/Chat/Service/Leaving.antt =====
-- `loginout`, `clientCloseException` and `reset`: users leave the server.
use alexproject.Common.{
  ℕ, ◌≡◌, refl, ap, ◌∙◌, false, not, ◌&&◌, [], ◌∷◌, Option, none, some, Bool-cases, inl, inr,
  if◌then◌else◌,
}
use alexproject.Common.Int.{ℤ, negsuc, int_eq}
use alexproject.Common.Text.{text_eq}
use alexproject.Chat.Database.{Mysql, UserRow}
use alexproject.Chat.Statements.{set_offline-well_formed}
use alexproject.Chat.Json.{Json, key_id}
use alexproject.Chat.Tables.{Tables, with_state, with_reset}
use alexproject.Chat.Models.{no_user, online, offline}
use alexproject.Chat.Service.{unsubscribe, shutdown_conn, Service, erase_user, take_conn, get_int}
use alexproject.Chat.Service.Login.{loginout}
use alexproject.Chat.Service.Handlers.{client_close_exception, on_connection, reset}
use alexproject.Chat.Service.Delivery.{is_online}
use alexproject.Chat.Service.Session.{update_state-Tables}

module _ (K : Mysql) (J : Json) (T : Tables K) where
  -- With tables that can be reached, a user who logs out is off the map, off line and unsubscribed, and
  -- nothing of any other user changes.
  pub loginout_lem :
      (s : Service K J) (conn : ℕ) (js : J.Value) (id : ℤ)
      → get_int K J js key_id ≡ some id
      → (t : Service K J) × (loginout K J conn js s ≡ some (t, unsubscribe id ∷ []))
        × (t.user_conn_map ≡ erase_user s.user_conn_map id)
        × ((j : ℤ)
            → T.user t.db j
              ≡ (if int_eq id j then with_state offline (T.user s.db j) else T.user s.db j))
        × ((j : ℤ) → T.messages t.db j ≡ T.messages s.db j)
  unfolding loginout
  loginout_lem s conn js id hid =
      let (k, e, u, m) =
        update_state-Tables K J T (record no_user { id = id; state = offline }) s.db
          (set_offline-well_formed id) in
      (
        record { user_conn_map = erase_user s.user_conn_map id; db = k },
        rw (loginout, hid) (rw e refl),
        refl,
        u,
        m,
      )

  client_close_exception_lem :
      (s : Service K J) (conn : ℕ)
      → let (id, entries) = take_conn s.user_conn_map conn in
        (t : Service K J) × (client_close_exception K J conn s ≡ some (t, unsubscribe id ∷ []))
        × (t.user_conn_map ≡ entries)
        × ((j : ℤ)
            → T.user t.db j ≡ (
                if not (int_eq id (negsuc 0)) && int_eq id j
                then with_state offline (T.user s.db j)
                else T.user s.db j))
        × ((j : ℤ) → T.messages t.db j ≡ T.messages s.db j)
  unfolding client_close_exception
  client_close_exception_lem s conn =
      let id = (take_conn s.user_conn_map conn).0 in
      let entries = (take_conn s.user_conn_map conn).1 in
      elim (Bool-cases (int_eq id (negsuc 0))) [
        | inl y ↦ (
          record { user_conn_map = entries; db = s.db },
          rw (client_close_exception, y) refl,
          refl,
          λ j. rw y refl,
          λ j. refl,
        )
        | inr n ↦
            let (k, e, u, m) =
              update_state-Tables K J T (record no_user { id = id; state = offline }) s.db
                (set_offline-well_formed id) in
            (
              record { user_conn_map = entries; db = k },
              rw (client_close_exception, n) (rw e refl),
              refl,
              λ j. rw n (u j),
              m,
            )
      ]

  pub on_connection_lem :
      (s : Service K J) (conn : ℕ)
      → let (id, entries) = take_conn s.user_conn_map conn in
        (t : Service K J) × (on_connection K J false conn s
          ≡ some (t, unsubscribe id ∷ shutdown_conn conn ∷ []))
        × (t.user_conn_map ≡ entries)
        × ((j : ℤ)
            → T.user t.db j ≡ (
                if not (int_eq id (negsuc 0)) && int_eq id j
                then with_state offline (T.user s.db j)
                else T.user s.db j))
        × ((j : ℤ) → T.messages t.db j ≡ T.messages s.db j)
  unfolding on_connection
  on_connection_lem s conn =
      let (t, e, m, u, stored) = client_close_exception_lem s conn in
      (t, rw (on_connection, e) refl, m, u, stored)

  reset-row : (o : Option UserRow) → is_online (with_reset o) ≡ false
  reset-row none = refl
  reset-row (some r) = elim (Bool-cases (text_eq r.state online)) [
    | inl y ↦ rw y refl
    | inr n ↦ rw n n
  ]

  -- With tables that can be reached, after a `reset` no user is on line, and no message is lost.
  pub reset_lem :
      (s : Service K J)
      → (t : Service K J) × (reset K J s ≡ some (t, []))
        × ((j : ℤ) → is_online (T.user t.db j) ≡ false)
        × ((j : ℤ) → T.messages t.db j ≡ T.messages s.db j)
  unfolding reset
  reset_lem s =
      let (k, e, u, m) = T.reset_states_lem s.db in
      (
        record s { db = k },
        rw (T.reachable s.db, e) refl,
        λ j. ap is_online (u j) ∙ reset-row (T.user s.db j),
        m,
      )
