-- ===== src/Chat/Client/Responses.antt =====
-- project/CHAT/src/client/main.cpp: the receiving side of the client: what the reading thread does with a message of the server. The
-- globals are a record; what is written to the terminal is a list.
pub mod Lists
pub mod Login
use alexproject.Common.{
  Bool, true, false, List, [], ◌∷◌, ◌++◌, map, Option, none, some, ◌==◌, if◌then◌else◌, ◌>>=◌, take,
}
use alexproject.Common.Int.{ℤ, pos, int_eq}
use alexproject.Common.Decimal.{Text}
use alexproject.Common.Text.{c_string}
use alexproject.Common.Literal.{codes}
use alexproject.Chat.Database.{MemberRow}
use alexproject.Chat.Json.{
  Json, Key, Field, as_int, as_string, as_texts, key_msgid, key_errno, key_errmsg, key_id, key_name,
  key_state, key_role, key_offlinemsg, key_friends, key_groups, key_groupname, key_groupdesc,
  key_users, key_msg, key_groupid, key_time,
}
use alexproject.Chat.Models.{User, Group, no_user}

-- `g_currentUser`, the two lists of the current user, and `g_isLoginSuccess`.
pub record Client : Type 0 where
  pub current_user : User
  pub current_user_friend_list : List User
  pub current_user_group_list : List Group
  pub is_login_success : Bool

unfoldable pub new_client : Client
new_client = record {
  current_user = no_user;
  current_user_friend_list = [];
  current_user_group_list = [];
  is_login_success = false;
}

-- What is written. The members that are written as JSON are shown as they are, null where there is
-- none; a chat line has the time, the sender's id and name, what stands before the text, and the text.
pub data Output : Type 0 where
  login_user : ℤ → Text → Output
  friend_list group_list end_of_data : Output
  friend_line : User → Output
  group_line : ℤ → Text → Text → Output
  member_line : MemberRow → Output
  chat_line : Text → Option Field → Text → Text → Text → Output
  group_chat_line : Option Field → Text → Option Field → Text → Text → Text → Output
  login_error : Option Field → Output
  name_exists : Output
  registered : Option Field → Output

abbrev pub group_lines : List Group → List Output
group_lines [] = []
group_lines (g ∷ gs) = group_line g.id g.name g.desc ∷ (map member_line g.users ++ group_lines gs)

unfoldable pub show_current_user_data : Client → List Output
show_current_user_data c =
    login_user c.current_user.id c.current_user.name
    ∷ friend_list
    ∷ (map friend_line c.current_user_friend_list
        ++ group_list ∷ (group_lines c.current_user_group_list ++ end_of_data ∷ []))

module _ (J : Json) where
  abbrev pub int_at : J.Value → Key → Option ℤ
  int_at js key = J.get js key >>= as_int

  abbrev pub string_at : J.Value → Key → Option Text
  string_at js key = J.get js key >>= as_string

  unfoldable pub parse_user : Text → Option User
  parse_user str = do
    js ← J.parse str
    id ← int_at js key_id
    name ← string_at js key_name
    state ← string_at js key_state
    some (record no_user { id = id; name = name; state = state })

  unfoldable pub parse_member : Text → Option MemberRow
  parse_member str = do
    js ← J.parse str
    id ← int_at js key_id
    name ← string_at js key_name
    state ← string_at js key_state
    role ← string_at js key_role
    some (record { id = id; name = name; state = state; role = role })

  -- A loop that parses each text.
  unfoldable pub parse_all : {A : Type 0} → (Text → Option A) → List Text → Option (List A)
  parse_all parse [] = some []
  parse_all parse (str ∷ strs) = do a ← parse str; rest ← parse_all parse strs; some (a ∷ rest)

  unfoldable pub parse_group : Text → Option Group
  unfolding parse_member parse_all
  parse_group str = do
    js ← J.parse str
    id ← int_at js key_id
    name ← string_at js key_groupname
    desc ← string_at js key_groupdesc
    strs ← J.get js key_users >>= as_texts
    users ← parse_all parse_member strs
    some (record { id = id; name = name; desc = desc; users = users })

  -- A list of the response that is there replaces the one of the client.
  unfoldable pub replace_list :
      {A : Type 0} → (Text → Option A) → Option Field → List A → Option (List A)
  unfolding parse_all
  replace_list parse none old = some old
  replace_list parse (some f) old = do strs ← as_texts f; parse_all parse strs

  -- The line of a chat message, with what stands before the text.
  unfoldable pub said : Text → J.Value → Option Output
  said before js = do
    time ← string_at js key_time
    name ← string_at js key_name
    msg ← string_at js key_msg
    some (chat_line time (J.get js key_id) name before msg)

  unfoldable pub group_said : Text → J.Value → Option Output
  group_said before js = do
    time ← string_at js key_time
    name ← string_at js key_name
    msg ← string_at js key_msg
    some (group_chat_line (J.get js key_groupid) time (J.get js key_id) name before msg)

  -- A stored message; one of another kind is passed over.
  unfoldable pub show_message : Text → Option (List Output)
  unfolding said group_said
  show_message str = do
    js ← J.parse str
    msgtype ← int_at js key_msgid
    if int_eq msgtype (pos 6)
        then (do line ← said (codes "said:") js; some (line ∷ []))
        else if int_eq msgtype (pos 10)
        then (do line ← group_said (codes "said:") js; some (line ∷ []))
        else some []

  unfoldable pub show_messages : List Text → Option (List Output)
  unfolding show_message
  show_messages [] = some []
  show_messages (str ∷ strs) = do
    lines ← show_message str
    rest ← show_messages strs
    some (lines ++ rest)

  unfoldable pub show_offline : Option Field → Option (List Output)
  unfolding show_messages
  show_offline none = some []
  show_offline (some f) = do strs ← as_texts f; show_messages strs

  -- The branch of `doLoginResponse` for error number 0.
  unfoldable pub enter : J.Value → Client → Option (Client × List Output)
  unfolding parse_user parse_group replace_list show_current_user_data show_offline
  enter js c = do
    id ← int_at js key_id
    name ← string_at js key_name
    friends ← replace_list parse_user (J.get js key_friends) c.current_user_friend_list
    groups ← replace_list parse_group (J.get js key_groups) c.current_user_group_list
    let c' : Client = record {
      current_user = record (c.current_user) { id = id; name = name };
      current_user_friend_list = friends;
      current_user_group_list = groups;
      is_login_success = true;
    }
    messages ← show_offline (J.get js key_offlinemsg)
    some (c', show_current_user_data c' ++ messages)

  unfoldable pub do_login_response : J.Value → Client → Option (Client × List Output)
  unfolding enter
  do_login_response js c = do
    errno ← int_at js key_errno
    if int_eq errno (pos 0)
        then enter js c
        else some (record c { is_login_success = false }, login_error (J.get js key_errmsg) ∷ [])

  unfoldable pub do_reg_response : J.Value → Option (List Output)
  do_reg_response js = do
    errno ← int_at js key_errno
    some ((if int_eq errno (pos 0) then registered (J.get js key_id) else name_exists) ∷ [])

  -- What `recv` returned: bytes, or 0 or -1.
  pub data Received : Type 0 where
    bytes : Text → Received
    closed : Received

  -- One round of `readTaskHandler`: the process ends, or the client afterwards, what was written, and whether
  -- the semaphore was posted.
  pub data Round : Type 0 where
    exits : Round
    handled : Client → List Output → Bool → Round

  -- The message by its number; one with another number is passed over.
  unfoldable pub read_message : J.Value → Client → Option Round
  unfolding said group_said do_login_response do_reg_response
  read_message js c = do
    msgtype ← int_at js key_msgid
    if int_eq msgtype (pos 6)
        then (do line ← said (codes " said:") js; some (handled c (line ∷ []) false))
        else if int_eq msgtype (pos 10)
        then (do line ← group_said (codes " said:") js; some (handled c (line ∷ []) false))
        else if int_eq msgtype (pos 2)
        then (do (c', lines) ← do_login_response js c; some (handled c' lines true))
        else if int_eq msgtype (pos 5)
        then (do lines ← do_reg_response js; some (handled c lines true))
        else some (handled c [] false)

  -- What `recv` takes into the array of 1024 bytes when these bytes have arrived.
  abbrev pub recv : Text → Received
  recv arrived = bytes (take 1024 arrived)

  -- The array is read up to its first zero. `none` where an exception ends the process.
  unfoldable pub read_task : Received → Client → Option Round
  unfolding read_message
  read_task closed c = some exits
  read_task (bytes chunk) c = do js ← J.parse (c_string chunk); read_message js c
