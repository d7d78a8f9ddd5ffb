-- ===== src/Muduo/Timestamp.antt =====
-- project/MyMuduo/Timestamp.h and Timestamp.cc: microseconds since the epoch, where no sum leaves 64 bits. `localtime` is an
-- argument. The two functions on `double` are left out.
pub mod Print
mod Tests
use alexproject.Common.{ℕ, ◌+◌, Bool, ◌∷◌, ◌++◌}
use alexproject.Common.Int.{ℤ, pos, ◌+ℤ◌, int_lt, int_eq, int_scale, int_quot}
use alexproject.Common.Decimal.{Text, truncated}
use alexproject.Common.Clock.{Tm, zero_padded, space_padded}

abbrev pub k_micro_seconds_per_second : ℕ
k_micro_seconds_per_second = 1000000

pub record Timestamp : Type 0 where
  pub micro_seconds_since_epoch : ℤ

-- The default constructor, and `invalid`.
abbrev pub invalid : Timestamp
invalid = record { micro_seconds_since_epoch = pos 0 }

-- `now`, on what `gettimeofday` gives.
unfoldable pub now : ℤ → ℕ → Timestamp
now tv_sec tv_usec = record {
  micro_seconds_since_epoch = int_scale tv_sec k_micro_seconds_per_second +ℤ pos tv_usec;
}

unfoldable pub from_unix_time : ℤ → ℤ → Timestamp
from_unix_time t microseconds = record {
  micro_seconds_since_epoch = int_scale t k_micro_seconds_per_second +ℤ microseconds;
}

unfoldable pub valid : Timestamp → Bool
valid t = int_lt (pos 0) t.micro_seconds_since_epoch

unfoldable pub seconds_since_epoch : Timestamp → ℤ
seconds_since_epoch t = int_quot t.micro_seconds_since_epoch k_micro_seconds_per_second

-- `operator<`, `operator>`, `operator==`
unfoldable pub earlier : Timestamp → Timestamp → Bool
earlier lhs rhs = int_lt lhs.micro_seconds_since_epoch rhs.micro_seconds_since_epoch

unfoldable pub later : Timestamp → Timestamp → Bool
later lhs rhs = int_lt rhs.micro_seconds_since_epoch lhs.micro_seconds_since_epoch

unfoldable pub same_time : Timestamp → Timestamp → Bool
same_time lhs rhs = int_eq lhs.micro_seconds_since_epoch rhs.micro_seconds_since_epoch

-- What `snprintf` writes with "%4d/%02d/%02d %02d:%02d:%02d".
unfoldable pub printed : Tm → Text
printed t =
    space_padded (t.tm_year + 1900)
    ++ 47
      ∷ (zero_padded (t.tm_mon + 1)
          ++ 47
            ∷ (zero_padded t.tm_mday
                ++ 32
                  ∷ (zero_padded t.tm_hour
                      ++ 58 ∷ (zero_padded t.tm_min ++ 58 ∷ zero_padded t.tm_sec))))

unfoldable pub to_string : (ℤ → Tm) → Timestamp → Text
unfolding printed seconds_since_epoch
to_string localtime t = truncated 128 (printed (localtime (seconds_since_epoch t)))
