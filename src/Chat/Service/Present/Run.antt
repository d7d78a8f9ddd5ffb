-- ===== src/Chat/Service/Present/Run.antt =====
-- The service over any sequence of events.
use alexproject.Common.{ℕ, ◌≡◌, Bool-cases, [], inl, inr, arith}
use alexproject.Common.Int.{ℤ, pos, int_eq}
use alexproject.Common.Reach.{Reach}
use alexproject.Chat.Database.{Mysql}
use alexproject.Chat.Json.{Json, key_msgid}
use alexproject.Chat.Tables.{Tables}
use alexproject.Chat.Service.{Service, get_int}
use alexproject.Chat.Service.Handlers.{dispatch, on_message}
use alexproject.Chat.Service.Present.{
  Event, receives, connects, notified, Frames, handle, Step, handles,
}
use alexproject.Chat.Service.Present.Handlers.{
  bind-Holds, Inv, Outcome, Kept, one_chat-Kept, group_chat-Kept, add_friend-Kept, add_group-Kept,
  redis_message-Kept,
}
use alexproject.Chat.Service.Present.Users.{create_group-Kept, reg-Kept}
use alexproject.Chat.Service.Present.Sessions.{login-Kept, loginout-Kept, on_connection-Kept}

module _ (K : Mysql) (J : Json) (T : Tables K) (F : Frames K T) where
  dispatch-Kept :
      (id : ℤ) (conn : ℕ) (js : J.Value) (s : Service K J)
      → Inv K J T F s
      → Kept K J T F (dispatch K J id conn js s)
  unfolding dispatch
  dispatch-Kept id conn js s v = elim (Bool-cases (int_eq id (pos 1))) [
    | inl y ↦ rw (dispatch, y) (login-Kept K J T F conn js s v)
    | inr n1 ↦ elim (Bool-cases (int_eq id (pos 4))) [
      | inl y ↦ rw (dispatch, n1, y) (reg-Kept K J T F conn js s v)
      | inr n4 ↦ elim (Bool-cases (int_eq id (pos 6))) [
        | inl y ↦ rw (dispatch, n1, n4, y) (one_chat-Kept K J T F conn js s v)
        | inr n6 ↦ elim (Bool-cases (int_eq id (pos 7))) [
          | inl y ↦ rw (dispatch, n1, n4, n6, y) (add_friend-Kept K J T F conn js s v)
          | inr n7 ↦ elim (Bool-cases (int_eq id (pos 8))) [
            | inl y ↦ rw (dispatch, n1, n4, n6, n7, y) (create_group-Kept K J T F conn js s v)
            | inr n8 ↦ elim (Bool-cases (int_eq id (pos 9))) [
              | inl y ↦ rw (dispatch, n1, n4, n6, n7, n8, y) (add_group-Kept K J T F conn js s v)
              | inr n9 ↦ elim (Bool-cases (int_eq id (pos 10))) [
                | inl y ↦
                    rw (dispatch, n1, n4, n6, n7, n8, n9, y) (group_chat-Kept K J T F conn js s v)
                | inr n10 ↦ elim (Bool-cases (int_eq id (pos 3))) [
                  | inl y ↦
                      rw (dispatch, n1, n4, n6, n7, n8, n9, n10, y)
                        (loginout-Kept K J T F conn js s v)
                  | inr n3 ↦ rw (dispatch, n1, n4, n6, n7, n8, n9, n10, n3) v
                ]
              ]
            ]
          ]
        ]
      ]
    ]
  ]

  handle-Kept : (e : Event) (s : Service K J) → Inv K J T F s → Kept K J T F (handle K J e s)
  unfolding handle on_message
  handle-Kept (receives conn buf) s v = bind-Holds (Outcome K J T F) (J.parse buf) _ (λ js.
      bind-Holds (Outcome K J T F) (get_int K J js key_msgid) _
        (λ id. dispatch-Kept id conn js s v))
  handle-Kept (connects up conn) s v = on_connection-Kept K J T F up conn s v
  handle-Kept (notified id msg) s v = redis_message-Kept K J T F id msg s v

  pub Step-Inv : (s t : Service K J) → Step K J s t → Inv K J T F s → Inv K J T F t
  Step-Inv s _ (handles e t es h) v = rw h at (handle-Kept e s v)

  pub empty-Inv : (s : Service K J) → s.user_conn_map ≡ [] → Inv K J T F s
  empty-Inv s empty = record {
    distinct = rw empty tt;
    present = λ j c ne e. absurd (ground (arith, e, empty));
  }
