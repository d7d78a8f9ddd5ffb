-- ===== src/Chat/Database.antt =====
-- project/CHAT/src/server/db and the statements of the models: the client library of MySQL is a parameter.
pub mod Connection
use alexproject.Common.{
  ◌+◌, Bool, true, not, ◌&&◌, ◌||◌, List, [], ◌∷◌, ◌++◌, Option, ◌==◌, ltb, length,
}
use alexproject.Common.Int.{ℤ, pos, negsuc}
use alexproject.Common.Decimal.{Text, decimal}
use alexproject.Common.Literal.{codes}

-- The rows of the tables, as the models read them.
pub record UserRow : Type 0 where
  pub id : ℤ
  pub name : Text
  pub password : Text
  pub state : Text

pub record GroupRow : Type 0 where
  pub id : ℤ
  pub groupname : Text
  pub groupdesc : Text

pub record MemberRow : Type 0 where
  pub id : ℤ
  pub name : Text
  pub state : Text
  pub role : Text

-- The statements that change a table, one constructor for each format.
pub data Update : Type 0 where
  insert_user : Text → Text → Text → Update
  set_state : Text → ℤ → Update
  reset_states : Update
  insert_message : ℤ → Text → Update
  delete_messages : ℤ → Update
  insert_friend : ℤ → ℤ → Update
  insert_group : Text → Text → Update
  insert_group_user : ℤ → ℤ → Text → Update

unfoldable pub int_text : ℤ → Text
unfolding decimal
int_text (pos n) = decimal n
int_text (negsuc n) = 45 ∷ decimal (n + 1)

abbrev quoted : Text → Text
quoted t = 39 ∷ t ++ 39 ∷ []

abbrev comma : Text
comma = 44 ∷ []

-- What `sprintf` writes.
unfoldable pub render : Update → Text
unfolding int_text
render (insert_user n p s) =
    codes "insert into user(name,password,state) values("
    ++ (quoted n ++ (comma ++ (quoted p ++ (comma ++ (quoted s ++ codes ")")))))
render (set_state s i) =
    codes "update user set state = " ++ (quoted s ++ (codes " where id = " ++ int_text i))
render reset_states = codes "update user set state = 'offline' where state = 'online'"
render (insert_message i m) =
    codes "insert into offlinemessage values(" ++ (int_text i ++ (comma ++ (quoted m ++ codes ")")))
render (delete_messages i) = codes "delete from offlinemessage where userid=" ++ int_text i
render (insert_friend i j) =
    codes "insert into friend values(" ++ (int_text i ++ (comma ++ (int_text j ++ codes ")")))
render (insert_group n d) =
    codes "insert into allgroup (groupname,groupdesc) values("
    ++ (quoted n ++ (comma ++ (quoted d ++ codes ")")))
render (insert_group_user g u r) =
    codes "insert into groupuser values("
    ++ (int_text g ++ (comma ++ (int_text u ++ (comma ++ (quoted r ++ codes ")")))))

-- No quote, no backslash and no zero, which ends a C string.
abbrev pub plain : Text → Bool
plain [] = true
plain (c ∷ cs) = not (c == 0 || (c == 39 || c == 92)) && plain cs

abbrev pub plain_texts : Update → Bool
plain_texts (insert_user n p s) = plain n && (plain p && plain s)
plain_texts (set_state s i) = plain s
plain_texts reset_states = true
plain_texts (insert_message i m) = plain m
plain_texts (delete_messages i) = true
plain_texts (insert_friend i j) = true
plain_texts (insert_group n d) = plain n && plain d
plain_texts (insert_group_user g u r) = plain r

-- The statement fits into `char sql[1024]` with its final zero, and MySQL reads it as the format intends.
unfoldable pub well_formed : Update → Bool
unfolding render
well_formed u = ltb (length (render u)) 1024 && plain_texts u

-- A connection to the server: `connect`, `update` on the text of a well-formed statement, and the
-- queries; `none` where `mysql_query` fails. `insert_id` is mysql_insert_id.
pub record Mysql : Type 1 where
  pub State : Type 0
  pub connect : State → Bool
  pub execute : Update → State → Option State
  pub insert_id : State → ℤ
  pub select_user : ℤ → State → Option (List UserRow)
  pub select_messages : ℤ → State → Option (List Text)
  pub select_friends : ℤ → State → Option (List MemberRow)
  pub select_groups : ℤ → State → Option (List GroupRow)
  pub select_members : ℤ → State → Option (List MemberRow)
  pub select_member_ids : ℤ → ℤ → State → Option (List ℤ)
