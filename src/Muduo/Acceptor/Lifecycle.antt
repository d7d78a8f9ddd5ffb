-- ===== src/Muduo/Acceptor/Lifecycle.antt =====
-- An acceptor is watched from `listen` on until it is destroyed.
use alexproject.Common.{ℕ, ◌≡◌, ◌∙◌, refl, Bool, true, false, [], ◌∷◌, none, some, ◌==◌}
use alexproject.Muduo.Channel.{k_new, k_read_event, new_channel, with_reading}
use alexproject.Muduo.InetAddress.{InetAddress}
use alexproject.Muduo.Poller.Kernel.{Epoll}
use alexproject.Muduo.Poller.{Poller, ok, has_channel, install}
use alexproject.Muduo.Poller.Invariant.{Inv}
use alexproject.Muduo.Poller.Lifecycle.{
  others-install, install-unknown, install-watched, retire-Retired,
}
use alexproject.Muduo.Acceptor.{
  setsockopt, bind, listen, close, reuse_addr, reuse_port, Acceptor, accept_channel_of,
  new_acceptor, listen_acceptor, destroy_acceptor,
}

module _ (K : Epoll) where
  -- While the invariant holds, with an unused channel and a descriptor that the poller does not know: where `socket`, `bind` and
  -- `listen` succeed, an acceptor is made, listens and is destroyed without an error. It calls
  -- them in order. From `listen` on the poller has its channel, which asks for input; afterwards the poller does not
  -- have it, the invariant holds, and no other channel has changed.
  pub acceptor_life :
      (p : Poller K) (c sockfd : ℕ) (addr : InetAddress) (reuseport : Bool)
      → Inv K p
      → (p.chan c).index ≡ k_new
      → p.channels sockfd ≡ none
      → (a b : Acceptor) × (q r t : Poller K) × (new_acceptor K
            (some sockfd)
            true
            addr
            reuseport
            c
            p
          ≡ ok (
            a,
            q,
            setsockopt sockfd reuse_addr 1 ∷ setsockopt sockfd reuse_port 1 ∷ bind sockfd addr ∷ [],
          ))
        × (has_channel K q c ≡ false)
        × (listen_acceptor K true a q ≡ ok (b, r, listen sockfd 1024 ∷ []))
        × (has_channel K r c ≡ true)
        × ((r.chan c).events ≡ k_read_event)
        × (destroy_acceptor K b r ≡ ok (t, close sockfd ∷ []))
        × (has_channel K t c ≡ false)
        × Inv K t
        × ((d : ℕ) → (c == d) ≡ false → t.chan d ≡ p.chan d)
  unfolding new_acceptor with_reading new_channel listen_acceptor destroy_acceptor
  acceptor_life p c sockfd addr reuseport v unused unknown =
      let ch = accept_channel_of sockfd in
      let (r, e, d, known) = install-watched K p c ch v unused refl unknown in
      let (t, f, g) = retire-Retired K r c d.inv known in
      (
        record { accept_socket = sockfd; accept_channel = c; listenning = false },
        record { accept_socket = sockfd; accept_channel = c; listenning = true },
        install K p c ch,
        r,
        t,
        refl,
        install-unknown K p c ch unknown,
        rw e refl,
        known,
        d.asks,
        rw f refl,
        g.gone,
        g.inv,
        λ x ne. g.others x ne ∙ d.others x ne ∙ others-install K p c x ch ne,
      )
