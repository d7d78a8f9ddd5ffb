-- ===== src/Chat/Statements.antt =====
-- Which statements fit into their buffer.
use alexproject.Common.{◌+◌, ◌≤◌, ◌<◌, ◌≡◌, true, [], ◌∷◌, ◌++◌, arith, length, length-append}
use alexproject.Common.Int.{ℤ, pos, negsuc}
use alexproject.Common.Decimal.{Text, length-decimal}
use alexproject.Common.Literal.{codes}
use alexproject.Chat.Database.{
  insert_user, set_state, delete_messages, insert_message, render, int_text, plain, well_formed,
}
use alexproject.Chat.Models.{online, offline}

length-int_text : (i : ℤ) → length (int_text i) ≤ 11
unfolding int_text
length-int_text (pos n) = omega (arith, length-decimal n)
length-int_text (negsuc n) = omega (arith, length-decimal (n + 1))

delete_messages-length : (i : ℤ) → length (render (delete_messages i)) < 1024
unfolding render
delete_messages-length i = omega (
  arith,
  length-append (codes "delete from offlinemessage where userid=") (int_text i),
  length-int_text i,
)

pub delete_messages-well_formed : (i : ℤ) → well_formed (delete_messages i) ≡ true
unfolding well_formed
delete_messages-well_formed i = ground (arith, delete_messages-length i)

set_online-length : (i : ℤ) → length (render (set_state online i)) < 1024
unfolding render
set_online-length i = omega (arith, length-int_text i)

set_offline-length : (i : ℤ) → length (render (set_state offline i)) < 1024
unfolding render
set_offline-length i = omega (arith, length-int_text i)

pub set_online-well_formed : (i : ℤ) → well_formed (set_state online i) ≡ true
unfolding well_formed
set_online-well_formed i = ground (arith, set_online-length i)

pub set_offline-well_formed : (i : ℤ) → well_formed (set_state offline i) ≡ true
unfolding well_formed
set_offline-well_formed i = ground (arith, set_offline-length i)

insert_message-length :
    (i : ℤ) (msg : Text) → length msg ≤ 500 → length (render (insert_message i msg)) < 1024
unfolding render
insert_message-length i msg h = omega (
  arith,
  length-int_text i,
  length-append (int_text i) (44 ∷ (39 ∷ msg ++ 39 ∷ []) ++ 41 ∷ []),
  length-append (39 ∷ msg ++ 39 ∷ []) (41 ∷ []),
  length-append msg (39 ∷ []),
)

-- A message of at most 500 characters without quotes, backslashes and zeros fits into its statement, which means what its format says.
pub insert_message-well_formed :
    (i : ℤ) (msg : Text)
    → length msg ≤ 500
    → plain msg ≡ true
    → well_formed (insert_message i msg) ≡ true
unfolding well_formed
insert_message-well_formed i msg h p = ground (arith, insert_message-length i msg h)

insert_user-length :
    (name pwd : Text)
    → length name ≤ 50
    → length pwd ≤ 50
    → length (render (insert_user name pwd offline)) < 1024
unfolding render
insert_user-length name pwd h h' =
    let state = 44 ∷ (39 ∷ offline ++ 39 ∷ []) ++ 41 ∷ [] in
    let password = 44 ∷ (39 ∷ pwd ++ 39 ∷ []) ++ state in
    omega (
      arith,
      length-append (name ++ 39 ∷ []) password,
      length-append name (39 ∷ []),
      length-append (pwd ++ 39 ∷ []) state,
      length-append pwd (39 ∷ []),
    )

-- The names and passwords that the client reads, without quotes, backslashes and zeros.
pub insert_user-well_formed :
    (name pwd : Text)
    → length name ≤ 50
    → length pwd ≤ 50
    → plain name ≡ true
    → plain pwd ≡ true
    → well_formed (insert_user name pwd offline) ≡ true
unfolding well_formed
insert_user-well_formed name pwd h h' p p' = ground (arith, insert_user-length name pwd h h')
