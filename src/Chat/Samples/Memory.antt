-- ===== src/Chat/Samples/Memory.antt =====
-- JSON objects that are functions, and a database of two functions.
use mathlib.Core.List.Perm
use alexproject.Common.{
  ℕ, ◌≡◌, refl, Bool, Bool-cases, true, false, List, [], ◌∷◌, ◌++◌, Option, none, some, ◌==◌,
  if◌then◌else◌, inl, inr, arith,
}
use alexproject.Common.Int.{ℤ, pos, int_eq}
use alexproject.Common.Decimal.{Text}
use alexproject.Common.Text.{text_eq}
use alexproject.Chat.Database.{
  Mysql, Update, set_state, reset_states, insert_message, delete_messages, UserRow,
}
use alexproject.Chat.Json.{Json, Field, text_field, key_code, key_msg}
use alexproject.Chat.Tables.{Tables, row_list, with_state, with_reset}
use alexproject.Chat.Models.{online, offline}

abbrev pub object : Json
object = record {
  Value = ℕ → Option Field;
  null = λ n. none;
  get = λ v k. v (key_code k);
  put = λ v k f n. if key_code k == n then some f else v n;
  dump = λ v. elim (v (key_code key_msg)) [ some (text_field t) ↦ t | _ ↦ [] ];
  parse = λ t. some (λ n. if n == key_code key_msg then some (text_field t) else none);
  get-null = λ k. refl;
  get-put = λ v k f j. refl;
}

-- Name, password and state of a user, and the messages stored for a user.
abbrev pub Memory : Type 0
Memory = record { users : ℤ → Option (Text × Text × Text); stored : ℤ → List Text }

abbrev pub row_of : ℤ → Option (Text × Text × Text) → Option UserRow
row_of i none = none
row_of i (some (n, p, s)) = some (record { id = i; name = n; password = p; state = s })

abbrev pub restate : Text → Option (Text × Text × Text) → Option (Text × Text × Text)
restate state none = none
restate state (some (n, p, s)) = some (n, p, state)

abbrev pub reset_row : Option (Text × Text × Text) → Option (Text × Text × Text)
reset_row none = none
reset_row (some (n, p, s)) = some (n, p, if text_eq s online then offline else s)

abbrev pub run : Update → Memory → Option Memory
run (set_state state i) m =
    some (record m { users = λ j. if int_eq i j then restate state (m.users j) else m.users j })
run reset_states m = some (record m { users = λ j. reset_row (m.users j) })
run (insert_message i t) m =
    some (record m { stored = λ j. if int_eq i j then m.stored j ++ t ∷ [] else m.stored j })
run (delete_messages i) m = some (record m { stored = λ j. if int_eq i j then [] else m.stored j })
run _ m = some m

abbrev pub memory : Mysql
memory = record {
  State = Memory;
  connect = λ m. true;
  execute = run;
  insert_id = λ m. pos 1;
  select_user = λ i m. some (row_list (row_of i (m.users i)));
  select_messages = λ i m. some (m.stored i);
  select_friends = λ i m. some [];
  select_groups = λ i m. some [];
  select_members = λ i m. some [];
  select_member_ids = λ group user m. some (pos 2 ∷ pos 3 ∷ []);
}

pub restate-row :
    (b : Bool) (j : ℤ) (state : Text) (o : Option (Text × Text × Text))
    → row_of j (if b then restate state o else o)
      ≡ (if b then with_state state (row_of j o) else row_of j o)
restate-row true j state none = refl
restate-row true j state (some (n, p, s)) = refl
restate-row false j state o = refl

pub row_of-reset :
    (j : ℤ) (o : Option (Text × Text × Text)) → row_of j (reset_row o) ≡ with_reset (row_of j o)
row_of-reset j none = refl
row_of-reset j (some (n, p, s)) = elim (Bool-cases (text_eq s online)) [
  | inl y ↦ rw y refl
  | inr d ↦ rw d refl
]

pub id-row_of :
    (j : ℤ) (o : Option (Text × Text × Text)) {r : UserRow} → row_of j o ≡ some r → r.id ≡ j
id-row_of j none e = absurd (ground arith)
id-row_of j (some (n, p, s)) e = ground arith

abbrev pub tables : Tables memory
tables = record {
  user = λ m i. row_of i (m.users i);
  messages = λ m i. m.stored i;
  reachable = λ m. refl;
  user_id = λ m i e. id-row_of i (m.users i) e;
  select_user_lem = λ i m. refl;
  select_messages_lem = λ i m. refl;
  set_state_lem =
      λ state i m. (_, refl, λ j. restate-row (int_eq i j) j state (m.users j), λ j. refl);
  reset_states_lem = λ m. (_, refl, λ j. row_of-reset j (m.users j), λ j. refl);
  insert_message_lem = λ i t m h a. (_, refl, λ j. refl, λ j. Perm.refl _);
  delete_messages_lem = λ i m. (_, refl, λ j. refl, λ j. refl);
}
