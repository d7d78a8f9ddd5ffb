-- ===== src/Muduo/Reactor/Interest.antt =====
-- What the kernel watches for the connections of a loop.
use alexproject.Common.{
  ℕ, ◌≡◌, ◌≢◌, ◌↔◌, refl, ap, sym, ◌∙◌, Bool-cases, true, List, [], none, some, arith, inl, inr,
}
use alexproject.Muduo.Channel.{Channel, Index, k_new, k_added, k_deleted, is_reading, is_writing}
use alexproject.Muduo.Poller.Kernel.{Epoll}
use alexproject.Muduo.Poller.{Poller, new_poller, ok}
use alexproject.Muduo.Poller.Invariant.{Agrees}
use alexproject.Muduo.Poller.Lifecycle.{new_poller-Inv}
use alexproject.Muduo.TcpConnection.{TcpConnection, k_disconnected}
use alexproject.Muduo.TcpConnection.Invariant.{Inv, pending}
use alexproject.Muduo.Reactor.{Reactor, Action, run_actions}
use alexproject.Muduo.Reactor.Wiring.{Wire, Wired, LegalFrom, run_actions-Wired}

module _ (K : Epoll) where
  -- What the kernel watches for a connection: while it is open, its input, and its output exactly while bytes wait to be written; afterwards nothing.
  pub record Watches (r : Reactor K) (c : ℕ) (conn : TcpConnection) : Type 0 where
    pub open_watched :
        conn.state ≢ k_disconnected
        → (K.interest r.poller.kernel (r.poller.chan c).fd ≡ some (conn.events, c))
          × (is_reading conn.events ≡ true)
          × ((is_writing conn.events ≡ true) ↔ (pending conn ≢ []))
    pub shut_ignored :
        conn.state ≡ k_disconnected
        → (e d : ℕ) → K.interest r.poller.kernel (r.poller.chan c).fd ≡ some (e, d)
        → e ≡ 0

  interest_by :
      (p : Poller K) (c events : ℕ) (i : Index)
      → Agrees K p c i
      → (p.chan c).index ≡ i
      → (p.chan c).index ≢ k_new
      → (p.chan c).events ≡ events
      → (events ≢ 0 → K.interest p.kernel (p.chan c).fd ≡ some (events, c))
        × ((e d : ℕ) → events ≡ 0 → K.interest p.kernel (p.chan c).fd ≡ some (e, d) → e ≡ 0)
  interest_by p c events k_new a e live same = absurd (live e)
  interest_by p c events k_added a e live same =
      (λ ne. a.1 ∙ ap (λ x. some (x, c)) same, λ x d z h. ground (arith, a.1, same))
  interest_by p c events k_deleted a e live same =
      (λ ne. absurd (ne (sym same ∙ a.2)), λ x d z h. absurd (ground (arith, a.1)))

  output_watched :
      (conn : TcpConnection)
      → Inv conn
      → conn.state ≢ k_disconnected
      → (is_writing conn.events ≡ true) ↔ (pending conn ≢ [])
  output_watched conn v live = (
    v.writing,
    λ some_left. elim (Bool-cases (is_writing conn.events)) [
      | inl y ↦ y
      | inr n ↦ absurd (some_left (v.idle n live))
    ],
  )

  Wire-Watches :
      (r : Reactor K) (c : ℕ) (conn : TcpConnection)
      → Wired K r
      → Wire K r.poller c conn
      → Watches r c conn
  unfolding is_reading
  Wire-Watches r c conn w v =
      let (asked, shut) =
        interest_by r.poller c conn.events (r.poller.chan c).index (w.inv.agrees c) refl
          v.registered v.agrees in
      record {
        open_watched = λ live.
            let reading = v.listens live in
            (asked (λ z. ground (arith, ap is_reading z)), reading, output_watched conn v.inv live);
        shut_ignored = λ closed e d. shut e d (v.shut closed);
      }

  abbrev pub new_reactor : (ℕ → Channel) → Reactor K
  new_reactor chan = record { poller = new_poller K chan; connections = λ c. none }

  -- Whatever a loop does with its connections, from a new poller on, where a new connection comes with an unused channel and a descriptor that the poller does not know,
  -- where calls are made of connections that are there, the kernel takes no more than it is given, and the buffers stay within half the address space: no step fails, so LOG_FATAL does
  -- not end the process. For each connection that is there afterwards the kernel watches the input while it is open, and
  -- the output exactly while bytes wait to be written; for a closed one it watches nothing.
  pub reactor-Watches :
      (chan : ℕ → Channel) (actions : List Action)
      → ((c : ℕ) → (chan c).index ≡ k_new)
      → LegalFrom K (new_reactor chan) actions
      → (t : Reactor K) × (run_actions K (new_reactor chan) actions ≡ ok t)
        × ((c : ℕ) (conn : TcpConnection) → t.connections c ≡ some conn → Watches t c conn)
  unfolding new_poller
  reactor-Watches chan actions unused legal =
      let fresh : Wired K (new_reactor chan) = record {
        inv = new_poller-Inv K chan unused;
        wires = λ c e. absurd (ground (arith, e));
      } in
      let (t, e, w) = run_actions-Wired K (new_reactor chan) actions fresh legal in
      (t, e, λ c conn f. Wire-Watches t c conn w (w.wires c f))
