-- ===== src/Chat/Service/Delivery.antt =====
-- Where a message for a user goes.
use mathlib.Core.List.Perm
use mathlib.Core.List.{Perm}
use alexproject.Common.Perms.{perm_of_eq}
use alexproject.Common.{
  ℕ, ◌≤◌, ◌≡◌, refl, ap, sym, ◌∙◌, Bool, true, false, List, [], ◌∷◌, ◌++◌, Option, none, some,
  if◌then◌else◌, length, arith, append-nil,
}
use alexproject.Common.Int.{ℤ, int_eq}
use alexproject.Common.Decimal.{Text}
use alexproject.Common.Text.{text_eq}
use alexproject.Chat.Database.{Mysql, UserRow, plain}
use alexproject.Chat.Statements.{insert_message-well_formed}
use alexproject.Chat.Json.{Json}
use alexproject.Chat.Tables.{ascii, Tables, row_or_default}
use alexproject.Chat.Models.{online, query_user, add_message}
use alexproject.Chat.Service.{Effect, send, publish, Service, find}
use alexproject.Chat.Service.Handlers.{deliver}

-- To a connection of this server, to the server where the user is, or to the offline messages.
pub data Route : Type 0 where
  local : ℕ → Route
  remote stored : Route

abbrev pub is_online : Option UserRow → Bool
is_online none = false
is_online (some r) = text_eq r.state online

abbrev pub choose : Option ℕ → Bool → Route
choose (some conn) there = local conn
choose none true = remote
choose none false = stored

abbrev pub route_effects : Route → ℤ → Text → List Effect
route_effects (local conn) id text = send conn text ∷ []
route_effects remote id text = publish id text ∷ []
route_effects stored id text = []

abbrev pub route_stores : Route → Text → List Text
route_stores stored text = text ∷ []
route_stores _ text = []

module _ (K : Mysql) (J : Json) (T : Tables K) where
  abbrev pub route : Service K J → ℤ → Route
  route s id = choose (find s.user_conn_map id) (is_online (T.user s.db id))

  pub query_user-Tables : (id : ℤ) (k : K.State) → query_user K id k ≡ row_or_default (T.user k id)
  unfolding query_user
  query_user-Tables id k = ground (arith, T.reachable k, T.select_user_lem id k)

  online-row : (o : Option UserRow) → text_eq (row_or_default o).state online ≡ is_online o
  online-row none = refl
  online-row (some r) = refl

  -- What a delivery over a route does to the service: the tables keep one message more for `id`, or nothing at all changes.
  pub record Delivers (s : Service K J) (id : ℤ) (r : Route) (text : Text) (t : Service K J)
      : Type 0 where
    pub same_map : t.user_conn_map ≡ s.user_conn_map
    pub same_users : (j : ℤ) → T.user t.db j ≡ T.user s.db j
    pub added :
        (j : ℤ)
        → Perm
            (T.messages t.db j)
            (if int_eq id j then T.messages s.db j ++ route_stores r text else T.messages s.db j)
    pub unstored : route_stores r text ≡ [] → t ≡ s

  pub add_message-Tables :
      (id : ℤ) (text : Text) (k : K.State)
      → length text ≤ 500
      → plain text ≡ true
      → ascii text ≡ true
      → (k' : K.State) × (add_message K id text k ≡ some (true, k'))
        × ((j : ℤ) → T.user k' j ≡ T.user k j)
        × ((j : ℤ)
            → Perm
                (T.messages k' j)
                (if int_eq id j then T.messages k j ++ text ∷ [] else T.messages k j))
  unfolding add_message
  add_message-Tables id text k short ok low =
      let (k', e, u, m) = T.insert_message_lem id text k short low in
      (k', rw (insert_message-well_formed id text short ok, T.reachable k, e) refl, u, m)

  unchanged-messages : (b : Bool) (l : List Text) → Perm l (if b then l ++ [] else l)
  unchanged-messages true l = perm_of_eq (sym (append-nil l))
  unchanged-messages false l = Perm.refl l

  pub unmoved :
      (s : Service K J) (id : ℤ) (r : Route) (text : Text)
      → route_stores r text ≡ []
      → Delivers s id r text s
  unmoved s id r text none_stored = record {
    same_map = refl;
    same_users = λ j. refl;
    added = λ j. rw none_stored (unchanged-messages (int_eq id j) (T.messages s.db j));
    unstored = λ e. refl;
  }

  pub deliver-by :
      (s : Service K J) (id : ℤ) (text : Text) (found : Option ℕ) (there : Bool)
      → find s.user_conn_map id ≡ found
      → is_online (T.user s.db id) ≡ there
      → length text ≤ 500
      → plain text ≡ true
      → ascii text ≡ true
      → (t : Service K J) × (deliver K J id text s
          ≡ some (t, route_effects (choose found there) id text))
        × Delivers s id (choose found there) text t
  unfolding deliver
  deliver-by s id text (some conn) there f o short ok low =
      (s, rw (deliver, f) refl, unmoved s id (local conn) text refl)
  deliver-by s id text none true f o short ok low =
      let on =
        ap (λ u. text_eq u.state online) (query_user-Tables id s.db)
        ∙ online-row (T.user s.db id)
        ∙ o in
      (s, rw (deliver, f, on) refl, unmoved s id remote text refl)
  deliver-by s id text none false f o short ok low =
      let (k', e, u, m) = add_message-Tables id text s.db short ok low in
      let on =
        ap (λ u. text_eq u.state online) (query_user-Tables id s.db)
        ∙ online-row (T.user s.db id)
        ∙ o in
      (
        record s { db = k' },
        rw (deliver, f, on, e) refl,
        record {
          same_map = refl;
          same_users = u;
          added = m;
          unstored = λ e. absurd (ground (arith, e));
        },
      )

  -- With tables that can be reached, and a message of at most 500 ASCII characters that holds no quote, backslash or zero: `deliver` never fails; it sends the message to the
  -- user's connection here, else publishes it where the user is on line, else stores it with the user's
  -- earlier messages; nobody else's messages, no user and no connection changes.
  pub deliver-Delivers :
      (s : Service K J) (id : ℤ) (text : Text)
      → length text ≤ 500
      → plain text ≡ true
      → ascii text ≡ true
      → (t : Service K J) × (deliver K J id text s ≡ some (t, route_effects (route s id) id text))
        × Delivers s id (route s id) text t
  deliver-Delivers s id text short ok low =
      deliver-by s id text (find s.user_conn_map id) (is_online (T.user s.db id)) refl refl short ok
        low
