-- ===== src/Muduo/Poller/Tests.antt =====
-- Tests of the poller, on an epoll instance that is a function from descriptors.
use alexproject.Common.{
  ℕ, ◌+◌, ◌≤◌, ◌<◌, ◌↔◌, ◌≢◌, ◌≡◌, refl, true, false, [], ◌∷◌, none, some, ◌==◌, if◌then◌else◌,
  arith, inl,
}
use alexproject.Muduo.Channel.{k_new, k_added}
use alexproject.Muduo.Poller.Table.{table}
use alexproject.Muduo.Poller.{Poller, ok, update_at, set_events, remove_channel, has_channel, poll}
use alexproject.Muduo.Poller.Invariant.{Inv, Change-Inv}
use alexproject.Muduo.Poller.Update.{Done, set_events-Done}
use alexproject.Muduo.Poller.Remove.{remove_channel-Done, has_channel_iff}
use alexproject.Muduo.Poller.Wait.{poll_lem}

-- Channel `c` watches descriptor `c + 3`.
abbrev start : Poller table
start = record {
  chan = λ c. record {
    fd = c + 3;
    events = 0;
    revents = 0;
    index = k_new;
    tied = false;
    read_callback = true;
    write_callback = true;
    close_callback = true;
    error_callback = true;
  };
  channels = λ fd. none;
  event_list_size = 2;
  kernel = λ fd. none;
}

start-Inv : Inv table start
start-Inv = record {
  agrees = λ c. tt;
  owned = λ fd c e. absurd (ground arith);
  foreign = λ fd e. refl;
}

-- Channel 4 has been registered with events 3.
abbrev busy : Poller table
busy = record start {
  chan = update_at start.chan 4 (record (start.chan 4) { events = 3; index = k_added });
  channels = update_at start.channels 7 (some 4);
  kernel = update_at start.kernel 7 (some (3, 4));
}

busy-Inv : Inv table busy
busy-Inv = Change-Inv table start busy 4 (some 4) (some (3, 4)) start-Inv (inl refl) (record {
  others = λ d ne. ground arith;
  same_fd = refl;
  map_entry = λ fd. refl;
  kernel_entry = λ fd. refl;
  agrees = (refl, refl);
  entries = inl (refl, λ e. ground arith);
})

set_events-Done_example :
    (q : Poller table) × (set_events table busy 4 0 ≡ ok q) × Done table busy 4 0 q
set_events-Done_example = set_events-Done table busy 4 0 busy-Inv (λ e. ground arith)

has_channel_iff_example : (has_channel table busy 4 ≡ true) ↔ (k_added ≢ k_new)
has_channel_iff_example = has_channel_iff table busy 4 busy-Inv

remove_channel-Done_example :
    (q : Poller table) × (remove_channel table busy 4 ≡ ok q)
    × Done table busy 4 3 q
    × (has_channel table q 4 ≡ false)
    × ((fd : ℕ) → q.channels fd ≡ (if 7 == fd then none else busy.channels fd))
    × (q.event_list_size ≡ 2)
    × ((d : ℕ)
        → q.chan d ≡ (if 4 == d then record (busy.chan 4) { index = k_new } else busy.chan d))
remove_channel-Done_example = remove_channel-Done table busy 4 busy-Inv (λ e. ground arith)

poll_lem_example :
    let (q, active') = poll table start (some (record { ptr = 4; events = 1 } ∷ [])) [] in
    (poll table start none [] ≡ (start, []))
    × (active' ≡ 4 ∷ [])
    × ((c : ℕ) → q.chan c ≡ record (start.chan c) { revents = if 4 == c then 1 else 0 })
    × (q.channels ≡ start.channels)
    × (q.kernel ≡ start.kernel)
    × (poll table start (some []) [] ≡ (start, []))
    × (0 < 1 → ◌≡◌ {A = ℕ} 1 2 → q.event_list_size ≡ 2)
    × (◌≢◌ {A = ℕ} 1 2 → q.event_list_size ≡ 2)
    × (1 ≤ 2 → 0 < 2 → 1 < q.event_list_size)
poll_lem_example = poll_lem table start (record { ptr = 4; events = 1 } ∷ []) []
