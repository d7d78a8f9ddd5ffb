-- ===== src/Chat/Service/GroupChat.antt =====
-- A message for a group.
use mathlib.Core.List.Perm
use mathlib.Core.List.{Perm}
use alexproject.Common.Perms.{perm_of_eq}
use alexproject.Common.{
  ℕ, ◌≤◌, ◌≡◌, refl, ap, ap₂, sym, ◌∙◌, Bool, true, false, List, [], ◌∷◌, ◌++◌, some, if◌then◌else◌,
  length, append_assoc, append-nil,
}
use alexproject.Common.Int.{ℤ, int_eq}
use alexproject.Common.Decimal.{Text}
use alexproject.Chat.Database.{Mysql, plain}
use alexproject.Chat.Json.{Json, key_id, key_groupid}
use alexproject.Chat.Tables.{ascii, Tables}
use alexproject.Chat.Models.{query_group_users}
use alexproject.Chat.Service.{Effect, Service, find, get_int}
use alexproject.Chat.Service.Handlers.{deliver_all, group_chat}
use alexproject.Chat.Service.Delivery.{
  route, choose, is_online, route_effects, route_stores, deliver-Delivers,
}

module _ (K : Mysql) (J : Json) (T : Tables K) where
  abbrev pub all_effects : Service K J → List ℤ → Text → List Effect
  all_effects s [] text = []
  all_effects s (id ∷ ids) text = route_effects (route K J T s id) id text ++ all_effects s ids text

  -- What user `j` finds stored afterwards: one copy for each time that `j` is listed and not reachable.
  abbrev pub all_stored : Service K J → List ℤ → Text → ℤ → List Text
  all_stored s [] text j = []
  all_stored s (id ∷ ids) text j =
      let here = route_stores (route K J T s id) text in
      (if int_eq id j then here else []) ++ all_stored s ids text j

  pub record DeliversAll (s : Service K J) (ids : List ℤ) (text : Text) (t : Service K J)
      : Type 0 where
    pub same_map : t.user_conn_map ≡ s.user_conn_map
    pub same_users : (j : ℤ) → T.user t.db j ≡ T.user s.db j
    pub added : (j : ℤ) → Perm (T.messages t.db j) (T.messages s.db j ++ all_stored s ids text j)

  -- Two services with the same connections and users route alike.
  record Alike (s t : Service K J) : Type 0 where
    same_map : t.user_conn_map ≡ s.user_conn_map
    same_users : (j : ℤ) → T.user t.db j ≡ T.user s.db j

  same_route : (s t : Service K J) (id : ℤ) → Alike s t → route K J T t id ≡ route K J T s id
  same_route s t id a = ap₂ choose (ap (λ m. find m id) a.same_map) (ap is_online (a.same_users id))

  same_effects :
      (s t : Service K J) (ids : List ℤ) (text : Text)
      → Alike s t
      → all_effects t ids text ≡ all_effects s ids text
  same_effects s t [] text a = refl
  same_effects s t (id ∷ ids) text a =
      ap₂ (λ r es. route_effects r id text ++ es) (same_route s t id a)
        (same_effects s t ids text a)

  same_stored :
      (s t : Service K J) (ids : List ℤ) (text : Text) (j : ℤ)
      → Alike s t
      → all_stored t ids text j ≡ all_stored s ids text j
  same_stored s t [] text j a = refl
  same_stored s t (id ∷ ids) text j a =
      ap₂ (λ r l. (if int_eq id j then route_stores r text else []) ++ l) (same_route s t id a)
        (same_stored s t ids text j a)

  push_if :
      (b : Bool) (old new : List Text)
      → (if b then old ++ new else old) ≡ old ++ (if b then new else [])
  push_if true old new = refl
  push_if false old new = sym (append-nil old)

  -- With tables that can be reached, and a message of at most 500 ASCII characters that holds no quote, backslash or zero: the loop of `groupChat` never fails; every listed user gets the
  -- message once for each time it is listed, by the route it has at the start, in the order of the list; the
  -- stored copies come to the user's earlier messages, and neither the map nor a user changes.
  pub deliver_all-DeliversAll :
      (s : Service K J) (ids : List ℤ) (text : Text)
      → length text ≤ 500
      → plain text ≡ true
      → ascii text ≡ true
      → (t : Service K J) × (deliver_all K J ids text s ≡ some (t, all_effects s ids text))
        × DeliversAll s ids text t
  unfolding deliver_all
  deliver_all-DeliversAll s [] text short fits low = (
    s,
    refl,
    record {
      same_map = refl;
      same_users = λ j. refl;
      added = λ j. perm_of_eq (sym (append-nil (T.messages s.db j)));
    },
  )
  deliver_all-DeliversAll s (id ∷ ids) text short fits low =
      let (t, e, d) = deliver-Delivers K J T s id text short fits low in
      let (u, f, all) = deliver_all-DeliversAll t ids text short fits low in
      let a : Alike s t = record { same_map = d.same_map; same_users = d.same_users } in
      (
        u,
        rw (e, f, same_effects s t ids text a) refl,
        record {
          same_map = all.same_map ∙ d.same_map;
          same_users = λ j. all.same_users j ∙ d.same_users j;
          added = λ j.
              let here = route_stores (route K J T s id) text in
              Perm.trans (all.added j) (
                Perm.trans (Perm.append_right (all_stored t ids text j) (d.added j)) (
                  perm_of_eq (
                    ap₂ (λ l m. l ++ m) (push_if (int_eq id j) (T.messages s.db j) here)
                      (same_stored s t ids text j a)
                    ∙ append_assoc (T.messages s.db j) (if int_eq id j then here else [])
                        (all_stored s ids text j))));
        },
      )

  -- Under the same conditions for the members that the database lists, `groupChat` does just that for them with the
  -- text of the message it got.
  pub group_chat-DeliversAll :
      (s : Service K J) (conn : ℕ) (js : J.Value) (userid groupid : ℤ)
      → get_int K J js key_id ≡ some userid
      → get_int K J js key_groupid ≡ some groupid
      → length (J.dump js) ≤ 500
      → plain (J.dump js) ≡ true
      → ascii (J.dump js) ≡ true
      → let ids = query_group_users K userid groupid s.db in
        (t : Service K J) × (group_chat K J conn js s ≡ some (t, all_effects s ids (J.dump js)))
        × DeliversAll s ids (J.dump js) t
  unfolding group_chat
  group_chat-DeliversAll s conn js userid groupid u g short fits low =
      let (t, e, d) =
        deliver_all-DeliversAll s (query_group_users K userid groupid s.db) (J.dump js) short fits
          low in
      (t, rw (u, g) e, d)
