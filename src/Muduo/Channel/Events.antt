-- ===== src/Muduo/Channel/Events.antt =====
-- The events that a channel asks for.
use alexproject.Common.{ℕ, ◌≡◌, ◌⊎◌, inl, inr, Bool, true, false, arith}
use alexproject.Muduo.Channel.{
  with_reading, without_reading, with_writing, without_writing, is_none_event, is_writing,
  is_reading,
}

-- Nothing, reading, writing, or both.
abbrev pub IsMask : ℕ → Type 0
IsMask e = (e ≡ 0) ⊎ ((e ≡ 3) ⊎ ((e ≡ 4) ⊎ (e ≡ 7)))

-- Of a set of events: what it asks for.
abbrev pub Asks : ℕ → Bool → Bool → Type 0
Asks e reading writing = IsMask e × (is_reading e ≡ reading) × (is_writing e ≡ writing)

-- From any set of events that the methods of a channel can build, each of the four bit operations switches its
-- own interest on or off and leaves the other alone, and a set is empty exactly when it asks for neither.
pub events_lem :
    (e : ℕ)
    → IsMask e
    → Asks (with_reading e) true (is_writing e)
      × Asks (without_reading e) false (is_writing e)
      × Asks (with_writing e) (is_reading e) true
      × Asks (without_writing e) (is_reading e) false
      × ((is_none_event e ≡ true) → (is_reading e ≡ false) × (is_writing e ≡ false))
      × ((is_reading e ≡ false) → (is_writing e ≡ false) → is_none_event e ≡ true)
unfolding with_reading without_reading with_writing without_writing is_none_event is_writing
    is_reading
events_lem e (inl h) = rw h (ground arith)
events_lem e (inr (inl h)) = rw h (ground arith)
events_lem e (inr (inr (inl h))) = rw h (ground arith)
events_lem e (inr (inr (inr h))) = rw h (ground arith)
