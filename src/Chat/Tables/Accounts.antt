-- ===== src/Chat/Tables/Accounts.antt =====
-- Making an account: the table `user` of project/CHAT/src/server/chat.sql, with its AUTO_INCREMENT and its UNIQUE KEY.
use alexproject.Common.{◌≤◌, ◌≡◌, Bool, false, none, some, if◌then◌else◌, length}
use alexproject.Common.Int.{ℤ, int_eq}
use alexproject.Common.Decimal.{Text}
use alexproject.Chat.Database.{Mysql, UserRow, insert_user}
use alexproject.Chat.Models.{offline}
use alexproject.Chat.Tables.{Tables}

-- `next_id` is what AUTO_INCREMENT gives next, and `same_name` when the collation takes two names for one.
pub record Accounts (K : Mysql) (T : Tables K) : Type 0 where
  pub next_id : K.State → ℤ
  pub same_name : Text → Text → Bool
  pub next_unused : (k : K.State) → T.user k (next_id k) ≡ none
  pub insert_user_lem :
      (name pwd : Text) (k : K.State)
      → length name ≤ 50
      → length pwd ≤ 50
      → ((j : ℤ) (r : UserRow) → T.user k j ≡ some r → same_name r.name name ≡ false)
      → (k' : K.State) × (K.execute (insert_user name pwd offline) k ≡ some k')
        × (K.insert_id k' ≡ next_id k)
        × ((j : ℤ)
            → T.user k' j ≡ (
                if int_eq (next_id k) j
                then some (record { id = next_id k; name = name; password = pwd; state = offline })
                else T.user k j))
        × ((j : ℤ) → T.messages k' j ≡ T.messages k j)
