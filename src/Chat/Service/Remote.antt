-- ===== src/Chat/Service/Remote.antt =====
-- A message for a user of another server, over the shared database and Redis.
use alexproject.Common.{
  ℕ, ◌≤◌, ◌≡◌, refl, ap, ◌∙◌, true, false, [], ◌∷◌, Option, none, some, length, arith,
}
use alexproject.Common.Int.{ℤ}
use alexproject.Common.Decimal.{Text}
use alexproject.Chat.Database.{Mysql, plain, int_text}
use alexproject.Chat.Json.{Json, key_to}
use alexproject.Chat.Tables.{ascii, Tables}
use alexproject.Chat.Redis.{array_reply, observe}
use alexproject.Chat.Redis.Channels.{Small, atoi-int_text}
use alexproject.Chat.Service.{Service, publish, find, get_int}
use alexproject.Chat.Service.Handlers.{one_chat, redis_message}
use alexproject.Chat.Service.Delivery.{
  choose, is_online, route_effects, Delivers, deliver-by, add_message-Tables, unmoved, local,
}

module _ (K : Mysql) (J : Json) (T : Tables K) where
  redis_message-by :
      (s : Service K J) (id : ℤ) (text : Text) (found : Option ℕ)
      → find s.user_conn_map id ≡ found
      → length text ≤ 500
      → plain text ≡ true
      → ascii text ≡ true
      → (t : Service K J) × (redis_message K J id text s
          ≡ some (t, route_effects (choose found false) id text))
        × Delivers K J T s id (choose found false) text t
  unfolding redis_message
  redis_message-by s id text (some conn) f short ok low =
      (s, rw (redis_message, f) refl, unmoved K J T s id (local conn) text refl)
  redis_message-by s id text none f short ok low =
      let (k', e, u, m) = add_message-Tables K J T id text s.db short ok low in
      (
        record s { db = k' },
        rw (redis_message, f) (rw e refl),
        record {
          same_map = refl;
          same_users = u;
          added = m;
          unstored = λ e. absurd (ground (arith, e));
        },
      )

  -- With tables that can be reached, and a message of at most 500 ASCII characters without quotes, backslashes and zeros to a user on line who has no connection here: this
  -- server publishes it and its map and its database stay as they are; the observer of the server that Redis passes it on to reports it for that user; and
  -- that server sends it to the user's connection, or, where the user has just left, stores it with the earlier messages.
  pub remote_delivery :
      (here there : Service K J) (sender : ℕ) (js : J.Value) (id : ℤ)
      → Small id
      → get_int K J js key_to ≡ some id
      → find here.user_conn_map id ≡ none
      → is_online (T.user here.db id) ≡ true
      → length (J.dump js) ≤ 500
      → plain (J.dump js) ≡ true
      → ascii (J.dump js) ≡ true
      → let text = J.dump js in
        (t : Service K J) × (one_chat K J sender js here ≡ some (here, publish id text ∷ []))
        × (observe (array_reply (int_text id) (some text) ∷ []) ≡ (id, text) ∷ [])
        × (redis_message K J id text there
            ≡ some (t, route_effects (choose (find there.user_conn_map id) false) id text))
        × Delivers K J T there id (choose (find there.user_conn_map id) false) text t
  unfolding one_chat observe
  remote_delivery here there sender js id small to gone on short ok low =
      let text = J.dump js in
      let (h, e, d) = deliver-by K J T here id text none true gone on short ok low in
      let (t, f, g) =
        redis_message-by there id text (find there.user_conn_map id) refl short ok low in
      (
        t,
        rw (one_chat, to) (e ∙ ap (λ u. some (u, publish id text ∷ [])) (d.unstored refl)),
        ap (λ i. (i, text) ∷ []) (atoi-int_text id small),
        f,
        g,
      )
