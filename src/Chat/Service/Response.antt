-- ===== src/Chat/Service/Response.antt =====
-- What the answer to a login that succeeds says.
use alexproject.Common.{
  ◌≡◌, refl, ap, ◌∙◌, List, Option, none, some, map, length, ◌==◌, if◌then◌else◌, false, Bool-cases,
  inl, inr, ==_iff,
}
use alexproject.Common.Int.{pos}
use alexproject.Common.Decimal.{Text}
use alexproject.Chat.Database.{Mysql}
use alexproject.Chat.Json.{
  Json, Key, Field, int_field, text_field, texts_field, key_code, key_msgid, key_errno, key_id,
  key_name, key_offlinemsg, key_friends, key_groups,
}
use alexproject.Chat.Models.{User, Group}
use alexproject.Chat.Service.Login.{
  login_response, ack, login_msg_ack, put_texts, friend_json, group_json,
}

module _ (K : Mysql) (J : Json) where
  -- A member that is left out where its list is empty.
  abbrev pub listed : List Text → Option Field
  listed texts = if length texts == 0 then none else some (texts_field texts)

  here :
      (v : J.Value) (k : Key) (texts : List Text)
      → J.get v k ≡ none
      → J.get (put_texts K J v k texts) k ≡ listed texts
  here v k texts e = elim (Bool-cases (length texts == 0)) [
    | inl y ↦ rw y e
    | inr n ↦ rw n (
        J.get-put v k (texts_field texts) k
        ∙ ap (λ b. if b then some (texts_field texts) else J.get v k)
            ((==_iff (key_code k) (key_code k)).1 refl))
  ]

  there :
      (v : J.Value) (k j : Key) (texts : List Text)
      → (key_code k == key_code j) ≡ false
      → J.get (put_texts K J v k texts) j ≡ J.get v j
  there v k j texts ne = elim (Bool-cases (length texts == 0)) [
    | inl y ↦ rw y refl
    | inr n ↦ rw n (
        J.get-put v k (texts_field texts) j
        ∙ ap (λ b. if b then some (texts_field texts) else J.get v j) ne)
  ]

  -- The answer to a login carries the number of the acknowledgement, the error number 0, the user's id and name, and the
  -- stored messages, the friends and the groups, each where there are any.
  pub login_response_lem :
      (user : User) (messages : List Text) (friends : List User) (groups : List Group)
      → let v = login_response K J user messages friends groups in
        (J.get v key_msgid ≡ some (int_field (pos 2)))
        × (J.get v key_errno ≡ some (int_field (pos 0)))
        × (J.get v key_id ≡ some (int_field user.id))
        × (J.get v key_name ≡ some (text_field user.name))
        × (J.get v key_offlinemsg ≡ listed messages)
        × (J.get v key_friends ≡ listed (map (friend_json K J) friends))
        × (J.get v key_groups ≡ listed (map (group_json K J) groups))
  unfolding login_response
  login_response_lem user messages friends groups =
      let named =
        J.put (J.put (ack K J login_msg_ack 0) key_id (int_field user.id)) key_name
          (text_field user.name) in
      let v1 = put_texts K J named key_offlinemsg messages in
      let fs = map (friend_json K J) friends in
      let gs = map (group_json K J) groups in
      let v2 = put_texts K J v1 key_friends fs in
      (
        there v2 key_groups key_msgid gs refl
            ∙ there v1 key_friends key_msgid fs refl
            ∙ there named key_offlinemsg key_msgid messages refl
            ∙ simp (J.get-put),
        there v2 key_groups key_errno gs refl
            ∙ there v1 key_friends key_errno fs refl
            ∙ there named key_offlinemsg key_errno messages refl
            ∙ simp (J.get-put),
        there v2 key_groups key_id gs refl
            ∙ there v1 key_friends key_id fs refl
            ∙ there named key_offlinemsg key_id messages refl
            ∙ simp (J.get-put),
        there v2 key_groups key_name gs refl
            ∙ there v1 key_friends key_name fs refl
            ∙ there named key_offlinemsg key_name messages refl
            ∙ simp (J.get-put),
        there v2 key_groups key_offlinemsg gs refl
            ∙ there v1 key_friends key_offlinemsg fs refl
            ∙ here named key_offlinemsg messages (simp (J.get-put, J.get-null)),
        there v2 key_groups key_friends gs refl
            ∙ here v1 key_friends fs (
                there named key_offlinemsg key_friends messages refl
                ∙ simp (J.get-put, J.get-null)),
        here v2 key_groups gs (
            there v1 key_friends key_groups fs refl
            ∙ there named key_offlinemsg key_groups messages refl
            ∙ simp (J.get-put, J.get-null)),
      )
