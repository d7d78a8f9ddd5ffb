-- ===== src/Chat/Client/Responses/Lists.antt =====
-- The client reads back the friends and the groups that the server wrote into its response.
use alexproject.Common.{
  ℕ, suc, false, arith, ◌≡◌, refl, ap, ◌∙◌, List, [], ◌∷◌, map, Option, some, length, ◌==◌,
  if◌then◌else◌,
}
use mathlib.Core.List.{map-id}
use alexproject.Common.Decimal.{Text}
use alexproject.Chat.Database.{Mysql, MemberRow}
use alexproject.Chat.Json.{
  Json, Survives, key_id, key_name, key_state, key_role, key_groupname, key_groupdesc, key_users,
}
use alexproject.Chat.Models.{User, Group}
use alexproject.Chat.Service.Response.{listed}
use alexproject.Chat.Service.Login.{
  friend_value, friend_json, member_value, member_json, group_value, group_json,
}
use alexproject.Chat.Client.Responses.{
  parse_user, parse_member, parse_all, parse_group, replace_list, show_messages, show_offline,
  Output,
}

abbrev pub All {ℓ ℓ'} : {A : Type ℓ} → (A → Type ℓ') → List A → Type ℓ'
All P [] = Unit
All P (x ∷ xs) = P x × All P xs

-- What the client keeps of a friend: there is no password.
abbrev pub without_password : User → User
without_password u = record u { password = [] }

suc-ne-zero : (n : ℕ) → (suc n == 0) ≡ false
suc-ne-zero n = ground arith

module _ (K : Mysql) (J : Json) where
  parse_user-json :
      (u : User)
      → Survives J (friend_value K J u)
      → parse_user J (friend_json K J u) ≡ some (without_password u)
  unfolding parse_user friend_json
  parse_user-json u s =
      rw (s.parse-dump)
        (rw (s.get-back key_id, s.get-back key_name, s.get-back key_state) (simp (J.get-put)))

  parse_member-json :
      (u : MemberRow)
      → Survives J (member_value K J u)
      → parse_member J (member_json K J u) ≡ some u
  unfolding parse_member
  parse_member-json u s = rw (s.parse-dump) (
      rw (s.get-back key_id, s.get-back key_name, s.get-back key_state, s.get-back key_role)
        (simp (J.get-put)))

  parse_all-map :
      {A : Type 0} (parse : Text → Option A) (print : A → Text) (keep : A → A) (P : A → Type 0)
      (h : (a : A) → P a → parse (print a) ≡ some (keep a)) (xs : List A)
      → All P xs
      → parse_all J parse (map print xs) ≡ some (map keep xs)
  unfolding parse_all
  parse_all-map parse print keep P h [] all = refl
  parse_all-map parse print keep P h (a ∷ xs) all =
      rw (h a all.0, parse_all-map parse print keep P h xs all.1) refl

  -- Of a group and all its members.
  abbrev pub GroupSurvives : Group → Type 0
  GroupSurvives g =
      Survives J (group_value K J g)
      × All (λ (u : MemberRow). Survives J (member_value K J u)) g.users

  parse_group-json : (g : Group) → GroupSurvives g → parse_group J (group_json K J g) ≡ some g
  unfolding parse_group group_json
  parse_group-json g (s, all) =
      let users =
        parse_all-map (parse_member J) (member_json K J) (λ u. u)
          (λ u. Survives J (member_value K J u)) parse_member-json g.users all in
      rw (s.parse-dump) (
        rw
          (
            s.get-back key_id,
            s.get-back key_groupname,
            s.get-back key_groupdesc,
            s.get-back key_users,
          )
          (simp (J.get-put, users, map-id)))

  -- A list of a response that the server leaves out where it is empty.
  replace_list-listed :
      {A : Type 0} (parse : Text → Option A) (print : A → Text) (keep : A → A) (xs old : List A)
      → parse_all J parse (map print xs) ≡ some (map keep xs)
      → replace_list J parse (listed K J (map print xs)) old
        ≡ some (if length xs == 0 then old else map keep xs)
  unfolding replace_list
  replace_list-listed parse print keep [] old h = refl
  replace_list-listed parse print keep (x ∷ xs) old h =
      rw (suc-ne-zero (length (map print xs)), suc-ne-zero (length xs)) h

  pub friends_read :
      (friends old : List User)
      → All (λ u. Survives J (friend_value K J u)) friends
      → replace_list J (parse_user J) (listed K J (map (friend_json K J) friends)) old
        ≡ some (if length friends == 0 then old else map without_password friends)
  friends_read friends old all =
      replace_list-listed (parse_user J) (friend_json K J) without_password friends old (
        parse_all-map (parse_user J) (friend_json K J) without_password
          (λ u. Survives J (friend_value K J u)) parse_user-json friends all)

  pub groups_read :
      (groups old : List Group)
      → All GroupSurvives groups
      → replace_list J (parse_group J) (listed K J (map (group_json K J) groups)) old
        ≡ some (if length groups == 0 then old else groups)
  groups_read groups old all =
      replace_list-listed (parse_group J) (group_json K J) (λ g. g) groups old
        (parse_all-map (parse_group J) (group_json K J) (λ g. g) GroupSurvives parse_group-json
          groups all)
      ∙ ap (λ (gs : List Group). some (if length groups == 0 then old else gs)) (map-id groups)

  pub offline_read :
      (messages : List Text) (shown : List Output)
      → show_messages J messages ≡ some shown
      → show_offline J (listed K J messages) ≡ some shown
  unfolding show_offline
  offline_read [] shown h = h
  offline_read (t ∷ ts) shown h = rw (suc-ne-zero (length ts)) h
