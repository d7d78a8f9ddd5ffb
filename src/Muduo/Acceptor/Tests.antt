-- ===== src/Muduo/Acceptor/Tests.antt =====
-- An acceptor in a new poller whose channels are all unused.
use alexproject.Common.{◌≡◌, refl, true, false, [], ◌∷◌, ◌==◌, ℕ, some}
use alexproject.Muduo.Channel.{Channel, k_read_event, new_channel}
use alexproject.Muduo.InetAddress.{InetAddress}
use alexproject.Muduo.Poller.Table.{table}
use alexproject.Muduo.Poller.{Poller, new_poller, ok, has_channel}
use alexproject.Muduo.Poller.Invariant.{Inv}
use alexproject.Muduo.Poller.Lifecycle.{new_poller-Inv}
use alexproject.Muduo.Acceptor.{
  setsockopt, bind, listen, close, reuse_addr, reuse_port, Acceptor, new_acceptor, listen_acceptor,
  destroy_acceptor,
}
use alexproject.Muduo.Acceptor.Lifecycle.{acceptor_life}

abbrev unused : ℕ → Channel
unfolding new_channel
unused c = new_channel 0

abbrev empty_poller : Poller table
unfolding new_poller
empty_poller = new_poller table unused

abbrev address : InetAddress
address = record { sin_family = 2; sin_port = 28695; s_addr = 0 }

acceptor_life_example :
    (a b : Acceptor) × (q r t : Poller table) × (new_acceptor table
        (some 5)
        true
        address
        false
        1
        empty_poller
      ≡ ok (a, q, setsockopt 5 reuse_addr 1 ∷ setsockopt 5 reuse_port 1 ∷ bind 5 address ∷ []))
    × (has_channel table q 1 ≡ false)
    × (listen_acceptor table true a q ≡ ok (b, r, listen 5 1024 ∷ []))
    × (has_channel table r 1 ≡ true)
    × ((r.chan 1).events ≡ k_read_event)
    × (destroy_acceptor table b r ≡ ok (t, close 5 ∷ []))
    × (has_channel table t 1 ≡ false)
    × Inv table t
    × ((d : ℕ) → (1 == d) ≡ false → t.chan d ≡ empty_poller.chan d)
unfolding new_poller new_channel
acceptor_life_example =
    acceptor_life table empty_poller 1 5 address false (new_poller-Inv table unused (λ c. refl))
      refl refl
