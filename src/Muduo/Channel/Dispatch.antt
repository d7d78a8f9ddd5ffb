-- ===== src/Muduo/Channel/Dispatch.antt =====
-- Which callbacks run for the events that came.
use alexproject.Common.{ℕ, ◌≡◌, Bool, true, false, ◌||◌, List, [], ◌∷◌, arith}
use alexproject.Muduo.Channel.{Channel, Call, close_call, read_call, handle_event}

abbrev is_close : Call → Bool
is_close close_call = true
is_close _ = false

abbrev is_read : Call → Bool
is_read (read_call t) = true
is_read _ = false

abbrev any_call : (Call → Bool) → List Call → Bool
any_call p [] = false
any_call p (c ∷ cs) = p c || any_call p cs

-- Whatever events came and whichever callbacks are set, the close and the read callback never both run in one dispatch,
-- and none runs for a tied channel whose owner is gone.
pub handle_event_exclusive :
    (alive : Bool) (c : Channel) (time : ℕ)
    → (any_call is_close (handle_event alive c time) ≡ true
        → any_call is_read (handle_event alive c time) ≡ false)
      × (c.tied ≡ true → alive ≡ false → handle_event alive c time ≡ [])
unfolding handle_event
handle_event_exclusive alive c time = ground arith
