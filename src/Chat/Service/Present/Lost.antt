-- ===== src/Chat/Service/Present/Lost.antt =====
-- A connection that is gone: `onConnection` and `clientCloseException`.
use alexproject.Common.Reach.{Reach, reach_keeps}
use alexproject.Common.{
  ℕ, ◌≡◌, ◌≢◌, refl, ap, ◌∙◌, false, true, [], ◌∷◌, none, some, if◌then◌else◌, not, arith,
}
use alexproject.Common.Int.{ℤ, negsuc, int_eq, int_eq_iff}
use alexproject.Chat.Database.{Mysql}
use alexproject.Chat.Json.{Json}
use alexproject.Chat.Tables.{Tables, with_state}
use alexproject.Chat.Models.{offline}
use alexproject.Chat.Service.{unsubscribe, shutdown_conn, Service, find, take_conn}
use alexproject.Chat.Service.Handlers.{on_connection}
use alexproject.Chat.Service.Leaving.{on_connection_lem}
use alexproject.Chat.Service.Present.{Frames, Step}
use alexproject.Chat.Service.Present.Maps.{take_conn-TookOnly}
use alexproject.Chat.Service.Present.Handlers.{Inv}
use alexproject.Chat.Service.Present.Run.{Step-Inv, empty-Inv}

module _ (K : Mysql) (J : Json) (T : Tables K) (F : Frames K T) where
  -- With tables that can be reached, in every state that the service reaches from an empty map, one event at a time and as long as no handler throws: when a connection
  -- is gone that is in the map for one user and for no other, the user is unsubscribed and the connection shut down; the user is no longer in the map and is off
  -- line, every other user's entry and row are as they were, and no message is touched.
  pub connection_lost :
      (s : Service K J) {t : Service K J} (conn : ℕ) (id : ℤ)
      → s.user_conn_map ≡ []
      → Reach (Step K J) s t
      → id ≢ negsuc 0
      → find t.user_conn_map id ≡ some conn
      → ((j : ℤ) → find t.user_conn_map j ≡ some conn → int_eq id j ≡ true)
      → (u : Service K J) × (on_connection K J false conn t
          ≡ some (u, unsubscribe id ∷ shutdown_conn conn ∷ []))
        × (find u.user_conn_map id ≡ none)
        × ((j : ℤ) → int_eq id j ≡ false → find u.user_conn_map j ≡ find t.user_conn_map j)
        × ((j : ℤ)
            → T.user u.db j
              ≡ (if int_eq id j then with_state offline (T.user t.db j) else T.user t.db j))
        × ((j : ℤ) → T.messages u.db j ≡ T.messages t.db j)
  connection_lost s {t} conn id empty reached ne here only =
      let v = reach_keeps (Inv K J T F) (Step-Inv K J T F) reached (empty-Inv K J T F s empty) in
      let o = take_conn-TookOnly t.user_conn_map conn id v.distinct here only in
      let (u, e, m, rows, stored) = on_connection_lem K J T t conn in
      let named : int_eq id (negsuc 0) ≡ false = ground (arith, (int_eq_iff id (negsuc 0)).0) in
      let taken : not (int_eq (take_conn t.user_conn_map conn).0 (negsuc 0)) ≡ true =
        rw (o.user, named) refl in
      (
        u,
        e ∙ ap (λ i. some (u, unsubscribe i ∷ shutdown_conn conn ∷ [])) o.user,
        ap (λ l. find l id) m ∙ o.gone,
        λ j other. ap (λ l. find l j) m ∙ o.others j other,
        λ j. rows j ∙ rw (taken, o.user) refl,
        stored,
      )
