-- ===== src/Chat/Redis.antt =====
-- project/CHAT/src/server/redis/redis.cpp: the commands sent to Redis, and the thread that reads the
-- messages of the subscribed channels. What hiredis returns is an argument.
-- Contexts has the object with its contexts.
pub mod Channels
pub mod Contexts
mod Tests
use alexproject.Common.{
  ℕ, zero, suc, ◌+◌, ◌-◌, ◌*◌, Bool, true, false, not, ◌&&◌, ◌||◌, List, [], ◌∷◌, ◌++◌, Option,
  none, some, ◌==◌, leb, if◌then◌else◌,
}
use alexproject.Common.Int.{ℤ, pos, negsuc}
use alexproject.Common.Decimal.{Text}
use alexproject.Common.Literal.{codes}
use alexproject.Chat.Database.{int_text}

-- The words of a command, as redisCommand reads its format.
unfoldable pub publish_command : ℤ → Text → List Text
unfolding int_text
publish_command channel message = codes "PUBLISH" ∷ int_text channel ∷ message ∷ []

unfoldable pub subscribe_command : ℤ → List Text
unfolding int_text
subscribe_command channel = codes "SUBSCRIBE" ∷ int_text channel ∷ []

unfoldable pub unsubscribe_command : ℤ → List Text
unfolding int_text
unsubscribe_command channel = codes "UNSUBSCRIBE" ∷ int_text channel ∷ []

-- The loop of redisBufferWrite in `subscribe` and `unsubscribe`: each call fails, or says whether all is written. `none` while the calls
-- listed do not finish it.
pub write_all : List (Option Bool) → Option Bool
write_all [] = none
write_all (none ∷ results) = some false
write_all (some true ∷ results) = some true
write_all (some false ∷ results) = write_all results

-- `subscribe` and `unsubscribe`: whether the command was appended, then the writes.
unfoldable pub send_command : Bool → List (Option Bool) → Option Bool
unfolding write_all
send_command appended results = if appended then write_all results else some false

-- A reply of the subscription context: null, or an array of which the second and third elements are read; the third has
-- no string in the confirmation of a command.
pub data Reply : Type 0 where
  null_reply : Reply
  array_reply : Text → Option Text → Reply

abbrev pub is_digit : ℕ → Bool
is_digit c = leb 48 c && leb c 57

-- The digits that come first, as a number.
abbrev pub digits_value : ℕ → Text → ℕ
digits_value acc [] = acc
digits_value acc (c ∷ cs) =
    let rest = digits_value (acc * 10 + (c - 48)) cs in if is_digit c then rest else acc

abbrev pub negative : ℕ → ℤ
negative zero = pos 0
negative (suc n) = negsuc n

-- Blank characters of `isspace` in front.
abbrev pub skip_blanks : Text → Text
skip_blanks [] = []
skip_blanks (c ∷ cs) =
    let rest = skip_blanks cs in if c == 32 || (leb 9 c && leb c 13) then rest else c ∷ cs

abbrev pub signed : Text → ℤ
signed [] = pos 0
signed (c ∷ cs) =
    if c == 45
    then negative (digits_value 0 cs)
    else if c == 43
    then pos (digits_value 0 cs)
    else pos (digits_value 0 (c ∷ cs))

-- `atoi`, for numbers that an `int` can hold.
unfoldable pub atoi : Text → ℤ
atoi t = signed (skip_blanks t)

-- The loop of `observer_channel_message` over the replies that come until the context fails: what it
-- reports to the service.
unfoldable pub observe : List Reply → List (ℤ × Text)
unfolding atoi
observe [] = []
observe (null_reply ∷ replies) = observe replies
observe (array_reply channel none ∷ replies) = observe replies
observe (array_reply channel (some text) ∷ replies) = (atoi channel, text) ∷ observe replies
