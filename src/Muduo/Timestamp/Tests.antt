-- ===== src/Muduo/Timestamp/Tests.antt =====
-- Time stamps on a clock that shows seconds and minutes alone.
use alexproject.Common.{ℕ, ◌/◌, ◌%◌, ◌<◌, ◌≡◌, ◌↔◌, ◌⊎◌, refl, true, arith}
use alexproject.Common.Int.{ℤ, pos, pos_part}
use alexproject.Common.Decimal.{decimal}
use alexproject.Common.Literal.{codes}
use alexproject.Common.Clock.{Tm, IsValid, zero_padded, space_padded}
use alexproject.Muduo.Timestamp.{Timestamp, to_string, now, earlier, seconds_since_epoch, printed}
use alexproject.Muduo.Timestamp.Print.{to_string-injective, now_lem}

abbrev local : ℤ → Tm
local s = record {
  tm_year = 126;
  tm_mon = 10;
  tm_mday = 26;
  tm_hour = 13;
  tm_min = pos_part s / 60 % 60;
  tm_sec = pos_part s % 60;
}

local-IsValid : (s : ℤ) → IsValid (local s)
local-IsValid s = record {
  year = omega arith;
  mon = omega arith;
  mday = omega arith;
  hour = omega arith;
  min = omega arith;
  sec = omega arith;
}

abbrev stamp : ℕ → Timestamp
stamp n = record { micro_seconds_since_epoch = pos n }

text : to_string local (stamp 65000001) ≡ codes "2026/11/26 13:01:05"
unfolding to_string seconds_since_epoch printed zero_padded space_padded decimal
text = refl

same_second :
    local (seconds_since_epoch (stamp 65000001)) ≡ local (seconds_since_epoch (stamp 65999999))
unfolding to_string
same_second = to_string-injective local local-IsValid (stamp 65000001) (stamp 65999999) same_text
  where
    same_text : to_string local (stamp 65000001) ≡ to_string local (stamp 65999999)
    same_text = refl

now_order :
    (seconds_since_epoch (now (pos 7) 5) ≡ pos 7)
    × ((earlier (now (pos 7) 5) (now (pos 7) 9) ≡ true) ↔ ((7 < 7) ⊎ ((◌≡◌ {A = ℕ} 7 7) × (5 < 9))))
now_order = now_lem 7 5 7 9 (omega arith) (omega arith)
