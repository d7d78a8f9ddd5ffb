-- ===== src/Chat/RoundTrip/Waiting.antt =====
-- A chat message to a user who is off line, until that user's client shows it: project/CHAT/src/client/main.cpp and
-- project/CHAT/src/server/chatservice.cpp.
use mathlib.Core.List.Perm
use mathlib.Core.List.{Perm, Permᴰ, Perm-prop}
use alexproject.Common.Perms.{perm_of_eq, perm-swap_append}
use mathlib.Core.Path.{subst}
use mathlib.Core.Logic.{∥∥₁_elim}
use alexproject.Common.{
  ℕ, ◌≡◌, ◌≤◌, refl, ap, sym, ◌∙◌, true, false, List, [], ◌∷◌, ◌++◌, none, some, length, append-nil,
  append_assoc, arith, Option-cases, inl, inr,
}
use alexproject.Common.Int.{ℤ, pos, int_eq, int_eq_iff}
use alexproject.Common.Decimal.{Text}
use alexproject.Common.Text.{text_eq}
use alexproject.Common.Literal.{codes}
use alexproject.Chat.Database.{Mysql, UserRow, plain, int_text}
use alexproject.Chat.Json.{
  Json, Survives, int_field, text_field, key_msgid, key_id, key_name, key_to, key_msg, key_time,
}
use alexproject.Chat.Tables.{ascii, Tables}
use alexproject.Chat.Models.{User, online}
use alexproject.Chat.Redis.Channels.{Small}
use alexproject.Chat.Service.{Service, send, subscribe, find}
use alexproject.Chat.Service.Handlers.{on_message}
use alexproject.Chat.Service.Delivery.{is_online, deliver-by, Delivers, stored}
use alexproject.Chat.Client.{main_menu, sends}
use alexproject.Chat.Client.Commands.{main_menu-chat}
use alexproject.Chat.Client.Responses.{
  Client, Output, chat_line, recv, handled, read_task, show_message, show_messages,
  show_current_user_data,
}
use alexproject.Chat.Client.Responses.Login.{logged_in}
use alexproject.Chat.Client.Menu.{sent, login_request}
use alexproject.Chat.RoundTrip.{chat_value}
use alexproject.Chat.RoundTrip.Login.{
  Readable, service_after, login_result, login_answer, friends_found, groups_found, login_shown,
}

module _ (J : Json) where
  -- The lines of the first message and those of the others.
  show_messages-apart :
      (t : Text) (ts : List Text) (shown : List Output)
      → show_messages J (t ∷ ts) ≡ some shown
      → (first rest : List Output) × (show_message J t ≡ some first)
        × (show_messages J ts ≡ some rest)
        × (first ++ rest ≡ shown)
  unfolding show_messages
  show_messages-apart t ts shown e = elim (Option-cases (show_message J t)) [
    | inl f ↦ absurd (ground (arith, e, f))
    | inr (first, f) ↦ elim (Option-cases (show_messages J ts)) [
      | inl g ↦ absurd (ground (arith, e, f, g))
      | inr (rest, g) ↦ (first, rest, f, g, ground (arith, e, f, g))
    ]
  ]

  -- What is stored last is shown last.
  show_messages-append :
      (ts : List Text) (t : Text) (shown lines : List Output)
      → show_messages J ts ≡ some shown
      → show_message J t ≡ some lines
      → show_messages J (ts ++ t ∷ []) ≡ some (shown ++ lines)
  unfolding show_messages
  show_messages-append [] t shown lines h l = ground (arith, append-nil lines)
  show_messages-append (x ∷ xs) t shown lines h l =
      let (first, rest, e, f, parts) = show_messages-apart x xs shown h in
      rw (e, show_messages-append xs t rest lines f l)
        (ap some (sym (append_assoc first rest lines) ∙ ap (λ o. o ++ lines) parts))

  shown_perm :
      {ts us : List Text} (shown : List Output)
      → Permᴰ ts us
      → show_messages J ts ≡ some shown
      → (all : List Output) × (show_messages J us ≡ some all) × Perm shown all
  unfolding show_messages
  shown_perm shown Permᴰ.nil e = (shown, e, Perm.refl shown)
  shown_perm shown (Permᴰ.cons {a} {b} {l₁} {l₂} same p) e =
      let (first, rest, f, g, parts) = show_messages-apart a l₁ shown e in
      let (all, h, o) = shown_perm rest p g in
      (
        first ++ all,
        rw (ap (show_message J) (sym same) ∙ f, h) refl,
        Perm.trans (perm_of_eq (sym parts)) (Perm.append_left first o),
      )
  shown_perm shown (Permᴰ.swap {a} {b} {a'} {b'} {l} e₁ e₂) e =
      let (first, others, f, g, parts) = show_messages-apart a (b ∷ l) shown e in
      let (second, rest, h, i, parts') = show_messages-apart b l others g in
      (
        second ++ (first ++ rest),
        rw (ap (show_message J) (sym e₂) ∙ h, ap (show_message J) (sym e₁) ∙ f, i) refl,
        Perm.trans (perm_of_eq (sym (ap (λ o. first ++ o) parts' ∙ parts)))
            (perm-swap_append first second rest),
      )
  shown_perm shown (Permᴰ.trans p q) e =
      let (mid, f, o) = shown_perm shown p e in
      let (all, g, o') = shown_perm mid q f in (all, g, Perm.trans o o')

  -- Messages in another order are shown in another order.
  show_messages-perm :
      (ts us : List Text) (shown : List Output)
      → Perm ts us
      → show_messages J ts ≡ some shown
      → (all : List Output) × (show_messages J us ≡ some all) × Perm shown all
  show_messages-perm ts us shown p e = elim (Option-cases (show_messages J us)) [
    | inl stuck ↦ absurd (
        ∥∥₁_elim p (λ x y. absurd x)
          (λ d. let (all, f, o) = shown_perm shown d e in ground (arith, f, stuck)))
    | inr (all, f) ↦ (
      all,
      f,
      ∥∥₁_elim p Perm-prop (λ d.
          let (all', f', o) = shown_perm shown d e in
          let same : all' ≡ all = ground (arith, f, f') in subst (Perm shown) same o),
    )
  ]

  -- A chat message that was stored is shown with the time, the sender and the text that it was typed with.
  show_message-chat :
      (user : User) (time : Text) (i : ℤ) (message : Text)
      → Survives J (chat_value J user time i message)
      → show_message J (J.dump (chat_value J user time i message))
        ≡ some (chat_line time (some (int_field user.id)) user.name (codes "said:") message ∷ [])
  unfolding show_message
  show_message-chat user time i message s =
      let v = chat_value J user time i message in
      let type : J.get v key_msgid ≡ some (int_field (pos 6)) = simp (J.get-put) in
      let sender : J.get v key_id ≡ some (int_field user.id) = simp (J.get-put) in
      let name : J.get v key_name ≡ some (text_field user.name) = simp (J.get-put) in
      let text : J.get v key_msg ≡ some (text_field message) = simp (J.get-put) in
      let when : J.get v key_time ≡ some (text_field time) = simp (J.get-put) in
      rw (s.parse-dump) (
        rw (s.get-back key_msgid, type)
          (rw
            (
              s.get-back key_time,
              when,
              s.get-back key_name,
              name,
              s.get-back key_msg,
              text,
              s.get-back key_id,
              sender,
            )
            refl))

module _ (K : Mysql) (J : Json) (T : Tables K) where
  -- The server stores the message of a client for a user who is off line.
  on_message-stores :
      (user : User) (time : Text) (i : ℤ) (message : Text) (s : Service K J) (conn : ℕ)
      → Survives J (chat_value J user time i message)
      → find s.user_conn_map i ≡ none
      → is_online (T.user s.db i) ≡ false
      → length (J.dump (chat_value J user time i message)) ≤ 500
      → plain (J.dump (chat_value J user time i message)) ≡ true
      → ascii (J.dump (chat_value J user time i message)) ≡ true
      → (t : Service K J) × (on_message K J conn (sent J (chat_value J user time i message)) s
          ≡ some (t, []))
        × Delivers K J T s i stored (J.dump (chat_value J user time i message)) t
  unfolding on_message
  on_message-stores user time i message s conn survives gone away short ok low =
      let v = chat_value J user time i message in
      let type : J.get v key_msgid ≡ some (int_field (pos 6)) = simp (J.get-put) in
      let receiver : J.get v key_to ≡ some (int_field i) = simp (J.get-put) in
      let (t, e, d) = deliver-by K J T s i (J.dump v) none false gone away short ok low in
      (
        t,
        rw (survives.c_string-dump, survives.parse-dump_zero)
            (rw (survives.get-back key_msgid, type)
              (rw (survives.get-back key_to, receiver) (rw (survives.dump-back) e))),
        d,
      )

  -- With tables that can be reached, and JSON text that is read back and arrives alone: when a user types `chat:<id>:<message>` for a user who is off line and
  -- has no connection, with JSON text of at most 500 ASCII characters without single quotes, backslashes and zeros, the server sends nothing; and when the other user
  -- logs in with the right password, the server answers; and when the answer has at most 1024 bytes, and each message that had been stored before can be shown, the client there shows
  -- the lines of those and a line with the time, the sender's id and name, and the message as it was typed, in the order in which the database gives the messages.
  pub offline_chat_shown :
      (user : User) (time message : Text) (s : Service K J) (from_conn to_conn : ℕ) (r : UserRow)
      (c : Client) (shown : List Output)
      → let v = chat_value J user time r.id message in
        let posted = on_message K J from_conn (sent J v) s in
        Small r.id
        → Survives J v
        → find s.user_conn_map r.id ≡ none
        → T.user s.db r.id ≡ some r
        → text_eq r.state online ≡ false
        → length (J.dump v) ≤ 500
        → plain (J.dump v) ≡ true
        → ascii (J.dump v) ≡ true
        → Survives J (login_request J r.id r.password)
        → Readable K J T (service_after K J T posted s) to_conn r
        → show_messages J (T.messages s.db r.id) ≡ some shown
        → let t = service_after K J T posted s in
          let answer = J.dump (login_answer K J T t to_conn r) in
          let c' =
            logged_in r (friends_found K J T t to_conn r) (groups_found K J T t to_conn r) c in
          let line = chat_line time (some (int_field user.id)) user.name (codes "said:") message in
          (all : List Output) × (main_menu J user time
              (codes "chat:" ++ (int_text r.id ++ 58 ∷ message))
            ≡ some (sends v))
          × (posted ≡ some (t, []))
          × ((u : Service K J) × (login_result K J T t to_conn r
                ≡ some (u, subscribe r.id ∷ send to_conn answer ∷ [])))
          × (read_task J (recv J answer) c
              ≡ some (handled c' (show_current_user_data c' ++ all) true))
          × Perm all (shown ++ line ∷ [])
  offline_chat_shown user time message s from_conn to_conn r c shown small survives gone row away
        short ok low request readable ms =
      let v = chat_value J user time r.id message in
      let posted = on_message K J from_conn (sent J v) s in
      let (t, e, d) =
        on_message-stores user time r.id message s from_conn survives gone (ap is_online row ∙ away)
          short ok low in
      let same : service_after K J T posted s ≡ t = ap (λ o. service_after K J T o s) e in
      let self : int_eq r.id r.id ≡ true = (int_eq_iff r.id r.id).1 refl in
      let waiting : Perm (T.messages s.db r.id ++ J.dump v ∷ []) (T.messages t.db r.id) =
        Perm.symm (rw self at (d.added r.id)) in
      let (all, shown_all, order) = show_messages-perm J _ (T.messages t.db r.id) _ waiting (
        show_messages-append J (T.messages s.db r.id) (J.dump v) shown _ ms
          (show_message-chat J user time r.id message survives)) in
      let (u, answered, connected, entered, seen) =
        login_shown K J T (service_after K J T posted s) to_conn r c _
          (ap (λ x. T.user x.db r.id) same ∙ d.same_users r.id ∙ row) away request readable
          (ap (λ x. show_messages J (T.messages x.db r.id)) same ∙ shown_all) in
      (
        all,
        main_menu-chat J user time r.id message small,
        e ∙ ap (λ x. some (x, [])) (sym same),
        (u, answered),
        seen,
        Perm.symm order,
      )
