-- ===== src/Chat/Samples/ReadBack.antt =====
-- The texts of the sample JSON values are read back.
use alexproject.Common.{
  ℕ, suc, ◌-◌, ◌≡◌, refl, ap, ◌∙◌, sym, false, List, [], ◌∷◌, ◌++◌, map, append_assoc, some, ◌==◌,
  length, arith, append-nil,
}
use alexproject.Common.Int.{pos, negsuc}
use alexproject.Common.Decimal.{Text}
use alexproject.Common.Text.{c_string}
use alexproject.Chat.Json.{Field, int_field, text_field, texts_field, Survives}
use alexproject.Chat.Samples.{
  Members, write_text, write_texts, write_field, write_members, write, read_chars, read_text,
  read_texts, read_field, read_members, read, encoded,
}

suc-sub : (n : ℕ) → suc n - 1 ≡ n
suc-sub n = omega arith

read_chars-map : (t rest : Text) → read_chars (length t) (map suc t ++ rest) ≡ some (t, rest)
unfolding read_chars
read_chars-map [] rest = refl
read_chars-map (c ∷ t) rest = rw (suc-sub c, read_chars-map t rest) refl

read-write_text : (t rest : Text) → read_text (write_text t ++ rest) ≡ some (t, rest)
unfolding read_text write_text
read-write_text t rest = rw (suc-sub (length t)) (read_chars-map t rest)

read-write_texts :
    (ts : List Text) (rest : Text)
    → read_texts (length ts) (write_texts ts ++ rest) ≡ some (ts, rest)
unfolding read_texts write_texts
read-write_texts [] rest = refl
read-write_texts (t ∷ ts) rest =
    rw (append_assoc (write_text t) (write_texts ts) rest)
      (rw (read-write_text t (write_texts ts ++ rest), read-write_texts ts rest) refl)

-- A field without its tag.
tag_of : Field → ℕ
tag_of (int_field (pos n)) = 1
tag_of (int_field (negsuc n)) = 2
tag_of (text_field t) = 3
tag_of (texts_field ts) = 4

body_of : Field → Text
body_of (int_field (pos n)) = suc n ∷ []
body_of (int_field (negsuc n)) = suc n ∷ []
body_of (text_field t) = write_text t
body_of (texts_field ts) = suc (length ts) ∷ write_texts ts

write_field-parts : (f : Field) → write_field f ≡ tag_of f ∷ body_of f
unfolding write_field tag_of body_of
write_field-parts (int_field (pos n)) = refl
write_field-parts (int_field (negsuc n)) = refl
write_field-parts (text_field t) = refl
write_field-parts (texts_field ts) = refl

read-write_field :
    (f : Field) (rest : Text) → read_field (tag_of f) (body_of f ++ rest) ≡ some (f, rest)
unfolding read_field tag_of body_of
read-write_field (int_field (pos n)) rest = rw (suc-sub n) refl
read-write_field (int_field (negsuc n)) rest = rw (suc-sub n) refl
read-write_field (text_field t) rest = rw (read-write_text t rest) refl
read-write_field (texts_field ts) rest = rw (suc-sub (length ts), read-write_texts ts rest) refl

read-write_members :
    (ms : Members) (rest : Text)
    → read_members (length ms) (write_members ms ++ rest) ≡ some (ms, rest)
unfolding read_members write_members
read-write_members [] rest = refl
read-write_members ((k, f) ∷ ms) rest = rw (write_field-parts f) (
    rw (append_assoc (body_of f) (write_members ms) rest) (
      rw (suc-sub k, read-write_field f (write_members ms ++ rest), read-write_members ms rest)
        refl))

read-write : (ms : Members) (rest : Text) → read (write ms ++ rest) ≡ some ms
unfolding read write
read-write ms rest = rw (suc-sub (length ms), read-write_members ms rest) refl

-- No zero is written.
abbrev NoZero : Text → Type 0
NoZero [] = Unit
NoZero (c ∷ cs) = ((c == 0) ≡ false) × NoZero cs

NoZero-append : (xs ys : Text) → NoZero xs → NoZero ys → NoZero (xs ++ ys)
NoZero-append [] ys a b = b
NoZero-append (x ∷ xs) ys a b = (a.0, NoZero-append xs ys a.1 b)

NoZero-map : (t : Text) → NoZero (map suc t)
NoZero-map [] = tt
NoZero-map (c ∷ t) = (ground arith, NoZero-map t)

NoZero-texts : (ts : List Text) → NoZero (write_texts ts)
unfolding write_texts write_text
NoZero-texts [] = tt
NoZero-texts (t ∷ ts) =
    (ground arith, NoZero-append (map suc t) (write_texts ts) (NoZero-map t) (NoZero-texts ts))

NoZero-field : (f : Field) → NoZero (write_field f)
unfolding write_field write_text
NoZero-field (int_field (pos n)) = (refl, (ground arith, tt))
NoZero-field (int_field (negsuc n)) = (refl, (ground arith, tt))
NoZero-field (text_field t) = (refl, (ground arith, NoZero-map t))
NoZero-field (texts_field ts) = (refl, (ground arith, NoZero-texts ts))

NoZero-members : (ms : Members) → NoZero (write_members ms)
unfolding write_members
NoZero-members [] = tt
NoZero-members ((k, f) ∷ ms) = (
  ground arith,
  NoZero-append (write_field f) (write_members ms) (NoZero-field f) (NoZero-members ms),
)

c_string_whole : (t : Text) → NoZero t → c_string t ≡ t
c_string_whole [] h = refl
c_string_whole (c ∷ cs) h = rw (h.0) (ap (λ l. c ∷ l) (c_string_whole cs h.1))

c_string-write : (ms : Members) → c_string (write ms) ≡ write ms
unfolding write
c_string-write ms = c_string_whole (write ms) (ground arith, NoZero-members ms)

pub encoded-Survives : (v : Members) → Survives encoded v
encoded-Survives v = record {
  back = v;
  parse-dump = ap read (sym (append-nil (write v))) ∙ read-write v [];
  parse-dump_zero = read-write v (0 ∷ []);
  c_string-dump = c_string-write v;
  get-back = λ k. refl;
  dump-back = refl;
}
