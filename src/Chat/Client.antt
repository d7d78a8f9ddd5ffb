-- ===== src/Chat/Client.antt =====
-- project/CHAT/src/client/main.cpp: the commands that a user of the chat client types.
pub mod Commands
pub mod Responses
pub mod Menu
mod Tests
use alexproject.Common.{
  ℕ, zero, suc, Bool, true, false, ◌&&◌, ◌||◌, ltb, ◌^◌, List, [], ◌∷◌, Option, none, some, ◌==◌,
  if◌then◌else◌, ◌>>=◌, take, drop, ◌+◌, ◌++◌, length,
}
use alexproject.Common.Int.{ℤ, pos, negsuc}
use alexproject.Common.Clock.{Tm, zero_padded}
use alexproject.Common.Decimal.{Text, decimal}
use alexproject.Common.Text.{text_eq}
use alexproject.Common.Literal.{codes}
use alexproject.Chat.Json.{
  Json, int_field, text_field, key_msgid, key_id, key_name, key_to, key_msg, key_friendid,
  key_groupname, key_groupdesc, key_groupid, key_time,
}
use alexproject.Chat.Models.{User}
use alexproject.Chat.Redis.{atoi, is_digit, skip_blanks}

-- `str.find(":")`; `none` is -1.
abbrev pub find_colon : Text → Option ℕ
find_colon [] = none
find_colon (c ∷ cs) =
    let rest = find_colon cs >>= λ i. some (suc i) in if c == 58 then some 0 else rest

-- `str.substr(0, idx)` and `str.substr(idx + 1, str.size() - idx)`.
abbrev pub left_of : ℕ → Text → Text
left_of idx str = take idx str

abbrev pub right_of : ℕ → Text → Text
right_of idx str = drop (suc idx) str

abbrev pub starts_with_digit : Text → Bool
starts_with_digit [] = false
starts_with_digit (c ∷ cs) = is_digit c

abbrev pub has_number : Text → Bool
has_number [] = false
has_number (c ∷ cs) = is_digit c || ((c == 45 || c == 43) && starts_with_digit cs)

abbrev pub in_range : ℤ → Bool
in_range (pos n) = ltb n (2 ^ 31)
in_range (negsuc n) = ltb n (2 ^ 31)

-- `stoi` throws where there is no number or an `int` cannot hold it.
unfoldable pub stoi : Text → Option ℤ
unfolding atoi
stoi t = if has_number (skip_blanks t) && in_range (atoi t) then some (atoi t) else none

-- `sprintf` with "%d-%02d-%02d %02d:%02d:%02d" in `getCurrentTime`, on what `localtime` gives.
unfoldable pub date_text : Tm → Text
unfolding decimal zero_padded
date_text t =
    decimal (t.tm_year + 1900)
    ++ 45
      ∷ (zero_padded (t.tm_mon + 1)
          ++ 45
            ∷ (zero_padded t.tm_mday
                ++ 32
                  ∷ (zero_padded t.tm_hour
                      ++ 58 ∷ (zero_padded t.tm_min ++ 58 ∷ zero_padded t.tm_sec))))

-- `none` where `sprintf` writes past `char date[60]`.
unfoldable pub current_time : Tm → Option Text
unfolding date_text
current_time t = if ltb (length (date_text t)) 60 then some (date_text t) else none

module _ (J : Json) where
  -- What a command does: a message for the server, a complaint, the list of commands, or the end of the menu with
  -- a message. `none` is an exception.
  pub data Reaction : Type 0 where
    sends : J.Value → Reaction
    complains shows_help : Reaction
    leaves : J.Value → Reaction

  abbrev pub message_of : ℕ → User → J.Value
  message_of type user =
      J.put (J.put J.null key_msgid (int_field (pos type))) key_id (int_field user.id)

  unfoldable pub chat : User → Text → Text → Option Reaction
  unfolding atoi
  chat user time str = elim (find_colon str) [
    | none ↦ some complains
    | some idx ↦ some (
        sends (
          J.put
            (J.put
              (J.put (J.put (message_of 6 user) key_name (text_field user.name)) key_to
                (int_field (atoi (left_of idx str))))
              key_msg (text_field (right_of idx str)))
            key_time (text_field time)))
  ]

  unfoldable pub addfriend : User → Text → Option Reaction
  unfolding atoi
  addfriend user str = some (sends (J.put (message_of 7 user) key_friendid (int_field (atoi str))))

  unfoldable pub creategroup : User → Text → Option Reaction
  creategroup user str = elim (find_colon str) [
    | none ↦ some complains
    | some idx ↦ some (
        sends (
          J.put (J.put (message_of 8 user) key_groupname (text_field (left_of idx str)))
            key_groupdesc (text_field (right_of idx str))))
  ]

  unfoldable pub addgroup : User → Text → Option Reaction
  unfolding stoi
  addgroup user str = do
    groupid ← stoi str
    some (sends (J.put (message_of 9 user) key_groupid (int_field groupid)))

  unfoldable pub groupchat : User → Text → Text → Option Reaction
  unfolding stoi
  groupchat user time str = elim (find_colon str) [
    | none ↦ some complains
    | some idx ↦ (do
      groupid ← stoi (left_of idx str)
      some (
          sends (
            J.put
              (J.put
                (J.put (J.put (message_of 10 user) key_name (text_field user.name)) key_groupid
                  (int_field groupid))
                key_msg (text_field (right_of idx str)))
              key_time (text_field time))))
  ]

  unfoldable pub loginout : User → Option Reaction
  loginout user = some (leaves (message_of 3 user))

  -- `commandHandlerMap` on the command and the text behind it.
  unfoldable pub run_command : User → Text → Text → Text → Option Reaction
  unfolding chat addfriend creategroup addgroup groupchat loginout
  run_command user time command str =
      if text_eq command (codes "help")
      then some shows_help
      else if text_eq command (codes "chat")
      then chat user time str
      else if text_eq command (codes "addfriend")
      then addfriend user str
      else if text_eq command (codes "creategroup")
      then creategroup user str
      else if text_eq command (codes "addgroup")
      then addgroup user str
      else if text_eq command (codes "groupchat")
      then groupchat user time str
      else if text_eq command (codes "loginout")
      then loginout user
      else some complains

  -- One round of `mainMenu` on the line that was typed, where sending succeeds.
  unfoldable pub main_menu : User → Text → Text → Option Reaction
  unfolding run_command
  main_menu user time commandbuf = elim (find_colon commandbuf) [
    | none ↦ run_command user time commandbuf commandbuf
    | some idx ↦ run_command user time (left_of idx commandbuf) (right_of idx commandbuf)
  ]
