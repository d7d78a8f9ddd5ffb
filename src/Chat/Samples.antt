-- ===== src/Chat/Samples.antt =====
-- Instances of the interfaces for the tests: JSON values as lists of members, with a text for each value
-- that can be read back, and a database without rows.
pub mod Memory
pub mod Registry
pub mod ReadBack
use alexproject.Common.{
  ℕ, zero, suc, ◌-◌, ◌≡◌, refl, ap, ◌∙◌, sym, true, false, List, [], ◌∷◌, ◌++◌, map, append_assoc,
  Option, none, some, ◌==◌, if◌then◌else◌, ◌>>=◌, length, arith, append-nil,
}
use alexproject.Common.Int.{pos, negsuc}
use alexproject.Common.Decimal.{Text}
use alexproject.Common.Text.{c_string}
use alexproject.Chat.Database.{Mysql}
use alexproject.Chat.Json.{Json, Field, int_field, text_field, texts_field, key_code, Survives}

abbrev pub Members : Type 0
Members = List (ℕ × Field)

abbrev member : Members → ℕ → Option Field
member [] n = none
member ((k, f) ∷ ms) n = let rest = member ms n in if k == n then some f else rest

-- Numbers are written one higher, so that no zero comes up; a list stands behind its length.
unfoldable pub write_text : Text → Text
write_text t = suc (length t) ∷ map suc t

unfoldable pub write_texts : List Text → Text
write_texts [] = []
write_texts (t ∷ ts) = write_text t ++ write_texts ts

unfoldable pub write_field : Field → Text
write_field (int_field (pos n)) = 1 ∷ suc n ∷ []
write_field (int_field (negsuc n)) = 2 ∷ suc n ∷ []
write_field (text_field t) = 3 ∷ write_text t
write_field (texts_field ts) = 4 ∷ suc (length ts) ∷ write_texts ts

unfoldable pub write_members : Members → Text
write_members [] = []
write_members ((k, f) ∷ ms) = suc k ∷ (write_field f ++ write_members ms)

unfoldable pub write : Members → Text
write ms = suc (length ms) ∷ write_members ms

unfoldable pub read_chars : ℕ → Text → Option (Text × Text)
read_chars zero cs = some ([], cs)
read_chars (suc n) [] = none
read_chars (suc n) (c ∷ cs) = do (t, rest) ← read_chars n cs; some ((c - 1) ∷ t, rest)

unfoldable pub read_text : Text → Option (Text × Text)
read_text [] = none
read_text (c ∷ cs) = read_chars (c - 1) cs

unfoldable pub read_texts : ℕ → Text → Option (List Text × Text)
read_texts zero cs = some ([], cs)
read_texts (suc n) cs = do
  (t, rest) ← read_text cs
  (ts, rest') ← read_texts n rest
  some (t ∷ ts, rest')

unfoldable pub read_counted : ℕ → Text → Option (Field × Text)
read_counted tag [] = none
read_counted tag (c ∷ cs) =
    if tag == 1
    then some (int_field (pos (c - 1)), cs)
    else if tag == 2
    then some (int_field (negsuc (c - 1)), cs)
    else (do (ts, rest) ← read_texts (c - 1) cs; some (texts_field ts, rest))

unfoldable pub read_field : ℕ → Text → Option (Field × Text)
unfolding read_counted
read_field tag cs =
    if tag == 3
    then (do (t, rest) ← read_text cs; some (text_field t, rest))
    else read_counted tag cs

unfoldable pub read_members : ℕ → Text → Option (Members × Text)
read_members zero cs = some ([], cs)
read_members (suc n) [] = none
read_members (suc n) (k ∷ []) = none
read_members (suc n) (k ∷ tag ∷ cs) = do
  (f, rest) ← read_field tag cs
  (ms, rest') ← read_members n rest
  some ((k - 1, f) ∷ ms, rest')

unfoldable pub read : Text → Option Members
read [] = none
read (c ∷ cs) = do (ms, rest) ← read_members (c - 1) cs; some ms

abbrev pub encoded : Json
encoded = record {
  Value = Members;
  null = [];
  get = λ v k. member v (key_code k);
  put = λ v k f. (key_code k, f) ∷ v;
  dump = write;
  parse = read;
  get-null = λ k. refl;
  get-put = λ v k f j. refl;
}

abbrev pub no_rows : Mysql
no_rows = record {
  State = Unit {0};
  connect = λ k. true;
  execute = λ u k. some k;
  insert_id = λ k. pos 1;
  select_user = λ i k. some [];
  select_messages = λ i k. some [];
  select_friends = λ i k. some [];
  select_groups = λ i k. some [];
  select_members = λ i k. some [];
  select_member_ids = λ group user k. some [];
}
