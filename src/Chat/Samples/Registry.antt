-- ===== src/Chat/Samples/Registry.antt =====
-- A database that makes accounts: the functions of Memory with a counter, from which on no number is in use.
use mathlib.Core.List.Perm
use alexproject.Common.{
  ℕ, ◌+◌, ◌-◌, ◌≤◌, ◌≡◌, refl, ap, Bool, Bool-cases, true, false, List, [], ◌∷◌, ◌++◌, Option, none,
  some, inl, inr, if◌then◌else◌, arith,
}
use alexproject.Common.Int.{ℤ, pos, int_eq, int_eq_iff}
use alexproject.Common.Decimal.{Text}
use alexproject.Common.Text.{text_eq}
use alexproject.Chat.Database.{
  Mysql, Update, insert_user, set_state, reset_states, insert_message, delete_messages,
}
use alexproject.Chat.Models.{offline}
use alexproject.Chat.Tables.{Tables, row_list}
use alexproject.Chat.Tables.Accounts.{Accounts}
use alexproject.Chat.Samples.Memory.{
  Memory, row_of, restate, reset_row, restate-row, row_of-reset, id-row_of,
}

abbrev pub Unused : Memory → ℕ → Type 0
Unused m next = (n : ℕ) → next ≤ n → m.users (pos n) ≡ none

abbrev pub Registry : Type 0
Registry = record { memory : Memory; next : ℕ; unused : Unused memory next }

pub restate-none :
    (b : Bool) (state : Text) {o : Option (Text × Text × Text)}
    → o ≡ none
    → (if b then restate state o else o) ≡ none
restate-none true state e = ground (arith, e)
restate-none false state e = e

pub reset-none : {o : Option (Text × Text × Text)} → o ≡ none → reset_row o ≡ none
reset-none e = ground (arith, e)

pub added-none :
    (next n : ℕ) (row : Option (Text × Text × Text)) {o : Option (Text × Text × Text)}
    → next + 1 ≤ n
    → o ≡ none
    → (if int_eq (pos next) (pos n) then row else o) ≡ none
added-none next n row h e = ground (arith, e)

abbrev with_users : Registry → (ℤ → Option (Text × Text × Text)) → Memory
with_users g users = record g.memory { users = users }

abbrev with_stored : Registry → (ℤ → List Text) → Registry
with_stored g stored = record g { memory = record g.memory { stored = stored } }

abbrev execute : Update → Registry → Option Registry
execute (insert_user name pwd state) g = some (record {
  memory =
      with_users g
        (λ j. if int_eq (pos g.next) j then some (name, pwd, state) else g.memory.users j);
  next = g.next + 1;
  unused = λ n h. added-none g.next n (some (name, pwd, state)) h (g.unused n (omega arith));
})
execute (set_state state i) g = some (record {
  memory =
      with_users g (λ j. if int_eq i j then restate state (g.memory.users j) else g.memory.users j);
  next = g.next;
  unused = λ n h. restate-none (int_eq i (pos n)) state (g.unused n h);
})
execute reset_states g = some (record {
  memory = with_users g (λ j. reset_row (g.memory.users j));
  next = g.next;
  unused = λ n h. reset-none (g.unused n h);
})
execute (insert_message i t) g =
    some
      (with_stored g (λ j. if int_eq i j then g.memory.stored j ++ t ∷ [] else g.memory.stored j))
execute (delete_messages i) g =
    some (with_stored g (λ j. if int_eq i j then [] else g.memory.stored j))
execute _ g = some g

abbrev pub registry : Mysql
registry = record {
  State = Registry;
  connect = λ g. true;
  execute = execute;
  insert_id = λ g. pos (g.next - 1);
  select_user = λ i g. some (row_list (row_of i (g.memory.users i)));
  select_messages = λ i g. some (g.memory.stored i);
  select_friends = λ i g. some [];
  select_groups = λ i g. some [];
  select_members = λ i g. some [];
  select_member_ids = λ group user g. some [];
}

abbrev pub registry_tables : Tables registry
registry_tables = record {
  user = λ g i. row_of i (g.memory.users i);
  messages = λ g i. g.memory.stored i;
  reachable = λ g. refl;
  user_id = λ g i e. id-row_of i (g.memory.users i) e;
  select_user_lem = λ i g. refl;
  select_messages_lem = λ i g. refl;
  set_state_lem =
      λ state i g. (_, refl, λ j. restate-row (int_eq i j) j state (g.memory.users j), λ j. refl);
  reset_states_lem = λ g. (_, refl, λ j. row_of-reset j (g.memory.users j), λ j. refl);
  insert_message_lem = λ i t g h a. (_, refl, λ j. refl, λ j. Perm.refl _);
  delete_messages_lem = λ i g. (_, refl, λ j. refl, λ j. refl);
}

pub row_of-added :
    (next j : ℤ) (name pwd : Text) (o : Option (Text × Text × Text))
    → row_of j (if int_eq next j then some (name, pwd, offline) else o) ≡ (
        if int_eq next j
        then some (record { id = next; name = name; password = pwd; state = offline })
        else row_of j o)
row_of-added next j name pwd o = elim (Bool-cases (int_eq next j)) [
  | inl y ↦ rw (y, (int_eq_iff next j).0 y) refl
  | inr n ↦ rw n refl
]

abbrev pub accounts : Accounts registry registry_tables
accounts = record {
  next_id = λ g. pos g.next;
  same_name = text_eq;
  next_unused = λ g. ap (row_of (pos g.next)) (g.unused g.next (omega arith));
  insert_user_lem = λ name pwd g h h' free. (
    _,
    refl,
    ap pos (omega arith),
    λ j. row_of-added (pos g.next) j name pwd (g.memory.users j),
    λ j. refl,
  );
}
