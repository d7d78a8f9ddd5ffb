-- ===== src/Chat/Service/Present/Users.antt =====
-- `reg` and `createGroup` of project/CHAT/src/server/chatservice.cpp.
use alexproject.Common.{
  ℕ, ◌≡◌, refl, ap, sym, ◌∙◌, Bool, Bool-cases, true, false, [], Option-cases, some, if◌then◌else◌,
  inl, inr, arith,
}
use alexproject.Common.Int.{ℤ, negsuc}
use alexproject.Common.Literal.{codes}
use alexproject.Chat.Database.{
  Mysql, UserRow, insert_user, insert_group, insert_group_user, well_formed,
}
use alexproject.Chat.Json.{Json, key_id, key_name, key_password, key_groupname, key_groupdesc}
use alexproject.Chat.Tables.{Tables}
use alexproject.Chat.Models.{User, Group, no_user, run_update, add_user, create_group, join_group}
use alexproject.Chat.Service.{Service, get_int, get_string}
use alexproject.Chat.Service.Login.{reg}
use alexproject.Chat.Service.Handlers.{create_group_handler}
use alexproject.Chat.Service.Delivery.{is_online}
use alexproject.Chat.Service.Present.{Frames}
use alexproject.Chat.Service.Present.Handlers.{
  Holds, after-Holds, bind-Holds, Inv, Outcome, Kept, SameUsers, same_users-Inv,
  run_update-SameUsers,
}

module _ (K : Mysql) (J : Json) (T : Tables K) (F : Frames K T) where
  create_group-SameUsers :
      (g : Group) (k : K.State)
      → Holds
          (λ (out : Bool × Group × K.State). (j : ℤ) → T.user out.2 j ≡ T.user k j)
          (create_group K g k)
  unfolding create_group
  create_group-SameUsers g k =
      after-Holds (SameUsers K J T F k)
        (λ (out : Bool × Group × K.State). (j : ℤ) → T.user out.2 j ≡ T.user k j)
        (run_update K (insert_group g.name g.desc) k) _
        (run_update-SameUsers K J T F (insert_group g.name g.desc) k tt) (λ out same. same)

  creator-SameUsers :
      (created : Bool) (userid groupid : ℤ) (k : K.State)
      → Holds
          (SameUsers K J T F k)
          (if created then join_group K userid groupid (codes "creator") k else some (false, k))
  unfolding join_group
  creator-SameUsers true userid groupid k =
      run_update-SameUsers K J T F (insert_group_user groupid userid (codes "creator")) k tt
  creator-SameUsers false userid groupid k = λ j. refl

  pub create_group-Kept :
      (conn : ℕ) (js : J.Value) (s : Service K J)
      → Inv K J T F s
      → Kept K J T F (create_group_handler K J conn js s)
  unfolding create_group_handler
  create_group-Kept conn js s v = bind-Holds (Outcome K J T F) (get_int K J js key_id) _ (λ userid.
      bind-Holds (Outcome K J T F) (get_string K J js key_groupname) _ (λ name.
        bind-Holds (Outcome K J T F) (get_string K J js key_groupdesc) _ (λ desc.
          let g : Group = record { id = negsuc 0; name = name; desc = desc; users = [] } in
          after-Holds (λ (out : Bool × Group × K.State). (j : ℤ) → T.user out.2 j ≡ T.user s.db j)
            (Outcome K J T F) (create_group K g s.db) _ (create_group-SameUsers g s.db)
            (λ made same.
              after-Holds (SameUsers K J T F made.2) (Outcome K J T F)
                (if made.0
                  then join_group K userid made.1.id (codes "creator") made.2
                  else some (false, made.2))
                _ (creator-SameUsers made.0 userid made.1.id made.2)
                (λ out more. same_users-Inv K J T F s out.1 (λ j. more j ∙ same j) v)))))

  -- A new account leaves the others.
  abbrev KeepsUsers : K.State → K.State → Type 0
  KeepsUsers k k' = (j : ℤ) (r : UserRow) → T.user k j ≡ some r → T.user k' j ≡ some r

  KeepsUsers-Inv :
      (s : Service K J) (k : K.State)
      → KeepsUsers s.db k
      → Inv K J T F s
      → Inv K J T F (record s { db = k })
  KeepsUsers-Inv s k keeps v = record {
    distinct = v.distinct;
    present = λ id conn ne f. elim (Option-cases (T.user s.db id)) [
      | inl none_there ↦ absurd (ground (arith, none_there, v.present id conn ne f))
      | inr (r, e) ↦ ap is_online (keeps id r e ∙ sym e) ∙ v.present id conn ne f
    ];
  }

  add_user-KeepsUsers :
      (user : User) (k : K.State)
      → Holds (λ (out : Bool × User × K.State). KeepsUsers k out.2) (add_user K user k)
  unfolding add_user run_update
  add_user-KeepsUsers user k =
      let u = insert_user user.name user.password user.state in
      elim (Bool-cases (well_formed u)) [
        | inr n ↦ rw (add_user, run_update, n) tt
        | inl y ↦ elim (Option-cases (K.execute u k)) [
          | inl e ↦ rw (add_user, run_update, y, T.reachable k, e) (λ j r h. h)
          | inr (k', e) ↦
              rw (add_user, run_update, y, T.reachable k, e)
                (F.insert_user_keeps user.name user.password user.state k k' e)
        ]
      ]

  pub reg-Kept :
      (conn : ℕ) (js : J.Value) (s : Service K J) → Inv K J T F s → Kept K J T F (reg K J conn js s)
  unfolding reg
  reg-Kept conn js s v = bind-Holds (Outcome K J T F) (get_string K J js key_name) _ (λ name.
      bind-Holds (Outcome K J T F) (get_string K J js key_password) _ (λ pwd.
        let user : User = record no_user { name = name; password = pwd } in
        after-Holds (λ (out : Bool × User × K.State). KeepsUsers s.db out.2) (Outcome K J T F)
          (add_user K user s.db) _ (add_user-KeepsUsers user s.db)
          (λ out keeps. KeepsUsers-Inv s out.2 keeps v)))
