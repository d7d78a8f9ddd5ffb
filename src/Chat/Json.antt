-- ===== src/Chat/Json.antt =====
-- nlohmann::json as its users see it: objects with members, and their text.
use alexproject.Common.{◌≡◌, List, [], ◌∷◌, ◌++◌, Option, none, some, ◌==◌, ℕ, if◌then◌else◌}
use alexproject.Common.Int.{ℤ}
use alexproject.Common.Decimal.{Text}
use alexproject.Common.Text.{c_string}

-- The member names of the messages and of their parts.
pub data Key : Type 0 where
  key_msgid key_errno key_errmsg key_id key_name key_password : Key
  key_state key_role key_offlinemsg key_friends key_groups key_groupname : Key
  key_groupdesc key_users key_to key_msg key_friendid key_groupid key_time : Key

pub data Field : Type 0 where
  int_field : ℤ → Field
  text_field : Text → Field
  texts_field : List Text → Field

abbrev pub key_code : Key → ℕ
key_code key_msgid = 0
key_code key_errno = 1
key_code key_errmsg = 2
key_code key_id = 3
key_code key_name = 4
key_code key_password = 5
key_code key_state = 6
key_code key_role = 7
key_code key_offlinemsg = 8
key_code key_friends = 9
key_code key_groups = 10
key_code key_groupname = 11
key_code key_groupdesc = 12
key_code key_users = 13
key_code key_to = 14
key_code key_msg = 15
key_code key_friendid = 16
key_code key_groupid = 17
key_code key_time = 18

-- The library: the empty value, `j[key]`, `j[key] = field`, `dump` and `parse`; `parse` throws where it gives `none`.
pub record Json : Type 1 where
  pub Value : Type 0
  pub null : Value
  pub get : Value → Key → Option Field
  pub put : Value → Key → Field → Value
  pub dump : Value → Text
  pub parse : Text → Option Value
  pub get-null : (k : Key) → get null k ≡ none
  pub get-put :
      (v : Value) (k : Key) (f : Field) (j : Key)
      → get (put v k f) j ≡ (if key_code k == key_code j then some f else get v j)

-- `get<int>()` and the conversion to a string, which throw on another type.
abbrev pub as_int : Field → Option ℤ
as_int (int_field n) = some n
as_int _ = none

abbrev pub as_string : Field → Option Text
as_string (text_field t) = some t
as_string _ = none

-- The conversion to a vector of strings.
abbrev pub as_texts : Field → Option (List Text)
as_texts (texts_field ts) = some ts
as_texts _ = none

-- What the library promises of a value whose strings are UTF-8: its text holds no zero, and is read back, with or without
-- a zero behind it, as a value with the same members and the same text.
pub record Survives (J : Json) (v : J.Value) : Type 0 where
  pub back : J.Value
  pub parse-dump : J.parse (J.dump v) ≡ some back
  pub parse-dump_zero : J.parse (J.dump v ++ 0 ∷ []) ≡ some back
  pub c_string-dump : c_string (J.dump v) ≡ J.dump v
  pub get-back : (k : Key) → J.get back k ≡ J.get v k
  pub dump-back : J.dump back ≡ J.dump v
