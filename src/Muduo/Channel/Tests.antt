-- ===== src/Muduo/Channel/Tests.antt =====
-- Tests of the channel.
use alexproject.Common.{◌≡◌, refl, true, [], ◌∷◌}
use alexproject.Muduo.Channel.{Channel, k_new, close_call, write_call, read_call, handle_event}

-- All callbacks are set; input and room for output came.
abbrev ready : Channel
ready = record {
  fd = 7;
  events = 7;
  revents = 5;
  index = k_new;
  tied = true;
  read_callback = true;
  write_callback = true;
  close_callback = true;
  error_callback = true;
}

ready_calls : handle_event true ready 3 ≡ read_call 3 ∷ write_call ∷ []
unfolding handle_event
ready_calls = refl

hang_up : handle_event true (record ready { revents = 16 }) 3 ≡ close_call ∷ []
unfolding handle_event
hang_up = refl
