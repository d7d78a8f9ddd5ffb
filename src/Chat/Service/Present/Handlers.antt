-- ===== src/Chat/Service/Present/Handlers.antt =====
-- The handlers of project/CHAT/src/server/chatservice.cpp that leave the table of users and the map alone.
use alexproject.Common.{
  ℕ, ◌≡◌, ◌≢◌, refl, ap, ◌∙◌, Bool, Bool-cases, true, List, [], ◌∷◌, Option, Option-cases, none,
  some, ◌>>=◌, inl, inr,
}
use alexproject.Common.Int.{ℤ, negsuc}
use alexproject.Common.Decimal.{Text}
use alexproject.Common.Literal.{codes}
use alexproject.Common.Text.{text_eq}
use alexproject.Chat.Database.{
  Mysql, Update, insert_message, insert_friend, insert_group_user, well_formed,
}
use alexproject.Chat.Json.{Json, key_to, key_id, key_friendid, key_groupid}
use alexproject.Chat.Tables.{Tables}
use alexproject.Chat.Models.{
  online, run_update, add_message, add_friend, join_group, query_user, query_group_users,
}
use alexproject.Chat.Service.{Service, Effect, find, get_int}
use alexproject.Chat.Service.Handlers.{
  deliver, deliver_all, one_chat, group_chat, add_friend_handler, add_group_handler, redis_message,
}
use alexproject.Chat.Service.Delivery.{is_online}
use alexproject.Chat.Service.Present.{OffUsers, Frames}
use alexproject.Chat.Service.Present.Maps.{Distinct}

-- The property holds of the result, where there is one.
abbrev pub Holds {ℓ κ} : {A : Type ℓ} → (A → Type κ) → Option A → Type κ
Holds P none = Unit
Holds P (some a) = P a

-- What holds of a result holds of what is made of it.
pub after-Holds {ℓ ℓ' κ κ'} :
    {A : Type ℓ} {B : Type ℓ'} (Q : A → Type κ) (P : B → Type κ') (o : Option A) (f : A → Option B)
    → Holds Q o
    → ((a : A) → Q a → Holds P (f a))
    → Holds P (o >>= f)
after-Holds Q P none f q h = tt
after-Holds Q P (some a) f q h = h a q

pub bind-Holds {ℓ ℓ' κ} :
    {A : Type ℓ} {B : Type ℓ'} (P : B → Type κ) (o : Option A) (f : A → Option B)
    → ((a : A) → Holds P (f a))
    → Holds P (o >>= f)
bind-Holds P none f h = tt
bind-Holds P (some a) f h = h a

module _ (K : Mysql) (J : Json) (T : Tables K) (F : Frames K T) where
  -- Nobody is twice in the map, and whoever is in it, other than -1, is on line in the table.
  pub record Inv (s : Service K J) : Type 0 where
    pub distinct : Distinct s.user_conn_map
    pub present :
        (id : ℤ) (conn : ℕ)
        → id ≢ negsuc 0
        → find s.user_conn_map id ≡ some conn
        → is_online (T.user s.db id) ≡ true

  abbrev pub Outcome : Service K J × List Effect → Type 0
  Outcome out = Inv out.0

  abbrev pub Kept : Option (Service K J × List Effect) → Type 0
  Kept = Holds Outcome

  abbrev pub SameUsers : K.State → Bool × K.State → Type 0
  SameUsers k out = (j : ℤ) → T.user out.1 j ≡ T.user k j

  pub same_users-Inv :
      (s : Service K J) (k : K.State)
      → ((j : ℤ) → T.user k j ≡ T.user s.db j)
      → Inv s
      → Inv (record s { db = k })
  same_users-Inv s k same v = record {
    distinct = v.distinct;
    present = λ id conn ne f. ap is_online (same id) ∙ v.present id conn ne f;
  }

  pub run_update-SameUsers :
      (u : Update) (k : K.State) → OffUsers u → Holds (SameUsers k) (run_update K u k)
  unfolding run_update
  run_update-SameUsers u k off = elim (Bool-cases (well_formed u)) [
    | inr n ↦ rw (run_update, n) tt
    | inl y ↦ elim (Option-cases (K.execute u k)) [
      | inl e ↦ rw (run_update, y, T.reachable k, e) (λ j. refl)
      | inr (k', e) ↦ rw (run_update, y, T.reachable k, e) (F.other_tables u k k' off e)
    ]
  ]

  -- A statement on another table, and then the service with the database it leaves.
  pub updated-Kept :
      (u : Update) (s : Service K J) (es : List Effect)
      → OffUsers u
      → Inv s
      → Kept (run_update K u s.db >>= λ out. some (record s { db = out.1 }, es))
  updated-Kept u s es off v =
      after-Holds (SameUsers s.db) Outcome (run_update K u s.db) _ (run_update-SameUsers u s.db off)
        (λ out same. same_users-Inv s out.1 same v)

  pub deliver-Kept : (id : ℤ) (text : Text) (s : Service K J) → Inv s → Kept (deliver K J id text s)
  unfolding deliver add_message
  deliver-Kept id text s v = elim (Option-cases (find s.user_conn_map id)) [
    | inr (conn, e) ↦ rw (deliver, e) v
    | inl e ↦ elim (Bool-cases (text_eq (query_user K id s.db).state online)) [
      | inl y ↦ rw (deliver, e, y) v
      | inr n ↦ rw (deliver, e, n) (updated-Kept (insert_message id text) s [] tt v)
    ]
  ]

  deliver_all-Kept :
      (ids : List ℤ) (text : Text) (s : Service K J) → Inv s → Kept (deliver_all K J ids text s)
  unfolding deliver_all
  deliver_all-Kept [] text s v = v
  deliver_all-Kept (id ∷ ids) text s v =
      after-Holds Outcome Outcome (deliver K J id text s) _ (deliver-Kept id text s v) (λ out w.
        after-Holds Outcome Outcome (deliver_all K J ids text out.0) _
          (deliver_all-Kept ids text out.0 w) (λ last x. x))

  pub one_chat-Kept :
      (conn : ℕ) (js : J.Value) (s : Service K J) → Inv s → Kept (one_chat K J conn js s)
  unfolding one_chat
  one_chat-Kept conn js s v =
      bind-Holds Outcome (get_int K J js key_to) _ (λ id. deliver-Kept id (J.dump js) s v)

  pub group_chat-Kept :
      (conn : ℕ) (js : J.Value) (s : Service K J) → Inv s → Kept (group_chat K J conn js s)
  unfolding group_chat
  group_chat-Kept conn js s v = bind-Holds Outcome (get_int K J js key_id) _ (λ userid.
      bind-Holds Outcome (get_int K J js key_groupid) _
        (λ groupid. deliver_all-Kept (query_group_users K userid groupid s.db) (J.dump js) s v))

  pub add_friend-Kept :
      (conn : ℕ) (js : J.Value) (s : Service K J) → Inv s → Kept (add_friend_handler K J conn js s)
  unfolding add_friend_handler add_friend
  add_friend-Kept conn js s v = bind-Holds Outcome (get_int K J js key_id) _ (λ userid.
      bind-Holds Outcome (get_int K J js key_friendid) _
        (λ friendid. updated-Kept (insert_friend userid friendid) s [] tt v))

  pub add_group-Kept :
      (conn : ℕ) (js : J.Value) (s : Service K J) → Inv s → Kept (add_group_handler K J conn js s)
  unfolding add_group_handler join_group
  add_group-Kept conn js s v = bind-Holds Outcome (get_int K J js key_id) _ (λ userid.
      bind-Holds Outcome (get_int K J js key_groupid) _
        (λ groupid. updated-Kept (insert_group_user groupid userid (codes "normal")) s [] tt v))

  pub redis_message-Kept :
      (id : ℤ) (msg : Text) (s : Service K J) → Inv s → Kept (redis_message K J id msg s)
  unfolding redis_message add_message
  redis_message-Kept id msg s v = elim (Option-cases (find s.user_conn_map id)) [
    | inr (conn, e) ↦ rw (redis_message, e) v
    | inl e ↦ rw (redis_message, e) (updated-Kept (insert_message id msg) s [] tt v)
  ]
