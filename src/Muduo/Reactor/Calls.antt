-- ===== src/Muduo/Reactor/Calls.antt =====
-- What the calls of a connection's methods do to the poller.
use alexproject.Common.{
  ℕ, ◌≡◌, ◌≢◌, refl, ap, ◌∙◌, false, List, [], ◌∷◌, none, ◌==◌, arith, inl, inr,
}
use alexproject.Muduo.Channel.{k_new}
use alexproject.Muduo.Poller.Kernel.{Epoll}
use alexproject.Muduo.Poller.{Poller, ok}
use alexproject.Muduo.Poller.Invariant.{Inv}
use alexproject.Muduo.Poller.Update.{Done, set_events-Done}
use alexproject.Muduo.Poller.Remove.{remove_channel-Done}
use alexproject.Muduo.Poller.Lifecycle.{set_events-live}
use alexproject.Muduo.TcpConnection.{
  TcpConnection, connect_destroyed, Effect, wrote, update_channel, shutdown_write,
  queue_write_complete, queue_high_water, queue_send, queue_shutdown, run_connection_callback,
  run_message_callback, run_close_callback, log_error,
}
use alexproject.Muduo.TcpConnection
use alexproject.Muduo.TcpConnection.Watched.{last_events, removes, connect_destroyed_lem}
use alexproject.Muduo.Reactor.{apply}

module _ (K : Epoll) where
  -- The poller has the channel of a connection afterwards.
  pub record Applied (p : Poller K) (c events : ℕ) (q : Poller K) : Type 0 where
    pub done : Done K p c events q
    pub live : (q.chan c).index ≢ k_new

  kept-Applied :
      (p : Poller K) (c : ℕ) → Inv K p → (p.chan c).index ≢ k_new → Applied p c (p.chan c).events p
  kept-Applied p c v l = record {
    done = record { inv = v; asks = refl; kept_fd = refl; others = λ d ne. refl };
    live = l;
  }

  -- Calls that keep the channel succeed, and the poller asks for the events of the last of them.
  pub apply-Applied :
      (p : Poller K) (c : ℕ) (es : List Effect)
      → Inv K p
      → (p.chan c).index ≢ k_new
      → removes es ≡ false
      → (q : Poller K) × (apply K p c es ≡ ok q) × Applied p c (last_events (p.chan c).events es) q
  unfolding apply
  apply-Applied p c [] v l k = (p, refl, kept-Applied p c v l)
  apply-Applied p c (update_channel e ∷ es) v l k =
      let (q, f, d) = set_events-Done K p c e v (λ n. absurd (l n)) in
      let live = set_events-live K p q c e (p.chan c).index refl f in
      let (t, g, a) = apply-Applied q c es d.inv live k in
      (
        t,
        rw f g,
        record {
          done = record {
            inv = a.done.inv;
            asks = a.done.asks ∙ ap (λ x. last_events x es) d.asks;
            kept_fd = a.done.kept_fd ∙ d.kept_fd;
            others = λ x ne. a.done.others x ne ∙ d.others x ne;
          };
          live = a.live;
        },
      )
  apply-Applied p c (TcpConnection.remove_channel ∷ es) v l k = absurd (ground arith)
  apply-Applied p c (wrote b ∷ es) v l k = apply-Applied p c es v l k
  apply-Applied p c (shutdown_write ∷ es) v l k = apply-Applied p c es v l k
  apply-Applied p c (queue_write_complete ∷ es) v l k = apply-Applied p c es v l k
  apply-Applied p c (queue_high_water n ∷ es) v l k = apply-Applied p c es v l k
  apply-Applied p c (queue_send b ∷ es) v l k = apply-Applied p c es v l k
  apply-Applied p c (queue_shutdown ∷ es) v l k = apply-Applied p c es v l k
  apply-Applied p c (run_connection_callback ∷ es) v l k = apply-Applied p c es v l k
  apply-Applied p c (run_message_callback ∷ es) v l k = apply-Applied p c es v l k
  apply-Applied p c (run_close_callback ∷ es) v l k = apply-Applied p c es v l k
  apply-Applied p c (log_error ∷ es) v l k = apply-Applied p c es v l k

  -- The call that opens a connection registers its channel, whose descriptor is free.
  pub open-Applied :
      (p : Poller K) (c events : ℕ) (es : List Effect)
      → Inv K p
      → p.channels (p.chan c).fd ≡ none
      → es ≡ update_channel events ∷ run_connection_callback ∷ []
      → (q : Poller K) × (apply K p c es ≡ ok q) × Applied p c events q
  unfolding apply
  open-Applied p c events es v free shape =
      let (q, f, d) = set_events-Done K p c events v (λ _. free) in
      (
        q,
        rw shape (rw f refl),
        record { done = d; live = set_events-live K p q c events (p.chan c).index refl f },
      )

  -- What is left when a connection has been destroyed.
  pub record Removed (p : Poller K) (c : ℕ) (q : Poller K) : Type 0 where
    pub inv : Inv K q
    pub others : (d : ℕ) → (c == d) ≡ false → q.chan d ≡ p.chan d

  pub destroy-Removed :
      (p : Poller K) (c : ℕ) (conn : TcpConnection)
      → Inv K p
      → (p.chan c).index ≢ k_new
      → (q : Poller K) × (apply K p c (connect_destroyed conn).1 ≡ ok q) × Removed p c q
  unfolding apply
  destroy-Removed p c conn v l = elim (connect_destroyed_lem conn) [
    | inl shape ↦
        let (q, f, d) = set_events-Done K p c 0 v (λ n. absurd (l n)) in
        let live = set_events-live K p q c 0 (p.chan c).index refl f in
        let (t, g, e, gone, _, _, _) = remove_channel-Done K q c d.inv (λ n. absurd (live n)) in
        (
          t,
          rw shape (rw f (rw g refl)),
          record { inv = e.inv; others = λ x ne. e.others x ne ∙ d.others x ne },
        )
    | inr shape ↦
        let (t, g, e, gone, _, _, _) = remove_channel-Done K p c v (λ n. absurd (l n)) in
        (t, rw shape (rw g refl), record { inv = e.inv; others = e.others })
  ]
