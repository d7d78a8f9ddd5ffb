-- ===== src/Muduo/Reactor/Wiring.antt =====
-- Each connection and its channel ask for the same events.
use alexproject.Common.{
  ℕ, ◌≡◌, ◌≢◌, refl, ap, sym, ◌∙◌, Bool, Bool-cases, false, List, [], ◌∷◌, Option, none, some, ◌==◌,
  arith, inl, inr, by_result,
}
use alexproject.Muduo.Channel.{Channel, k_new}
use alexproject.Muduo.Poller.Kernel.{Epoll}
use alexproject.Muduo.Poller.{Poller, ok, fatal, update_at, install}
use alexproject.Muduo.Poller.Invariant
use alexproject.Muduo.Poller.Invariant.{Agrees}
use alexproject.Muduo.Poller.Update.{self}
use alexproject.Muduo.Poller.Lifecycle.{install-Inv}
use alexproject.Muduo.TcpConnection.{TcpConnection, new_connection, connect_established}
use alexproject.Muduo.TcpConnection.Invariant.{Inv}
use alexproject.Muduo.TcpConnection.History.{Op, step, Allowed, step-Conserves}
use alexproject.Muduo.TcpConnection.Watched.{
  Listens, Shut, Later, step-Watched, step-Shut, open-Opened,
}
use alexproject.Muduo.Reactor.{
  Reactor, connection_channel, open_connection, call_connection, drop_connection, Action, opens,
  calls, drops, act, run_actions,
}
use alexproject.Muduo.Reactor.Calls.{apply-Applied, open-Applied, destroy-Removed}

module _ (K : Epoll) where
  -- A connection and its channel.
  pub record Wire (p : Poller K) (c : ℕ) (conn : TcpConnection) : Type 0 where
    pub inv : Inv conn
    pub registered : (p.chan c).index ≢ k_new
    pub agrees : (p.chan c).events ≡ conn.events
    pub listens : Listens conn
    pub shut : Shut conn

  pub record Wired (r : Reactor K) : Type 0 where
    pub inv : Invariant.Inv K r.poller
    pub wires : (c : ℕ) {conn : TcpConnection} → r.connections c ≡ some conn → Wire r.poller c conn

  -- A new connection comes with an unused channel and a descriptor that the poller does not know; a call is one of a connection that is there.
  abbrev pub Permitted : Reactor K → Action → Type 0
  Permitted r (opens c sockfd write_complete high_water) =
      ((r.poller.chan c).index ≡ k_new) × (r.poller.channels sockfd ≡ none)
  Permitted r (calls c op) =
      (conn : TcpConnection) × (r.connections c ≡ some conn) × Allowed conn op × Later op
  Permitted r (drops c) = (conn : TcpConnection) × (r.connections c ≡ some conn)

  abbrev pub LegalFrom : Reactor K → List Action → Type 0
  LegalFrom r [] = Unit
  LegalFrom r (a ∷ rest) =
      Permitted r a × elim (act K r a) [ fatal ↦ Unit {0} | ok t ↦ LegalFrom t rest ]

  Wire-other :
      (p q : Poller K) (d : ℕ) (conn : TcpConnection)
      → q.chan d ≡ p.chan d
      → Wire p d conn
      → Wire q d conn
  Wire-other p q d conn e w = record {
    inv = w.inv;
    registered = λ n. w.registered (ap (λ (ch : Channel). ch.index) (sym e) ∙ n);
    agrees = ap (λ (ch : Channel). ch.events) e ∙ w.agrees;
    listens = w.listens;
    shut = w.shut;
  }

  abbrev WireOf : Poller K → ℕ → Option TcpConnection → Type 0
  WireOf p c none = Unit
  WireOf p c (some conn) = Wire p c conn

  mine_of :
      (p : Poller K) (c : ℕ) (x : Option TcpConnection) {conn : TcpConnection}
      → WireOf p c x
      → x ≡ some conn
      → Wire p c conn
  mine_of p c none w e = absurd (ground (arith, e))
  mine_of p c (some k) w e = by_result (Wire p c) w e

  -- One connection is changed, or is gone; the others' channels are as they were.
  rewired :
      (r : Reactor K) (q : Poller K) (c : ℕ) (x : Option TcpConnection)
      → Wired r
      → Invariant.Inv K q
      → ((d : ℕ) → (c == d) ≡ false → q.chan d ≡ r.poller.chan d)
      → WireOf q c x
      → Wired (record { poller = q; connections = update_at r.connections c x })
  rewired r q c x w v others mine = record {
    inv = v;
    wires = λ d {conn} e. elim (Bool-cases (c == d)) [
      | inl y ↦ let same : c ≡ d = ground arith in rw (← same) (mine_of q c x mine (ground arith))
      | inr n ↦ Wire-other r.poller q d conn (others d n) (w.wires d (ground arith))
    ];
  }

  open_connection-Wired :
      (r : Reactor K) (c sockfd : ℕ) (b h : Bool)
      → Wired r
      → Permitted r (opens c sockfd b h)
      → (t : Reactor K) × (open_connection K r c sockfd b h ≡ ok t) × Wired t
  unfolding open_connection connection_channel install
  open_connection-Wired r c sockfd b h w (unused, free) =
      let ch = connection_channel sockfd in
      let p = install K r.poller c ch in
      let out = connect_established (new_connection b h) in
      let o = open-Opened b h in
      let at_c : p.chan c ≡ ch = self K r.poller.chan c ch in
      let (q, e, a) =
        open-Applied K p c out.0.events out.1 (install-Inv K r.poller c ch w.inv unused refl)
          (rw at_c free) o.told in
      let new : Wire q c out.0 = record {
        inv = o.inv;
        registered = a.live;
        agrees = a.done.asks;
        listens = o.listens;
        shut = λ d. absurd (ground (arith, o.connected));
      } in
      (
        record { poller = q; connections = update_at r.connections c (some out.0) },
        rw e refl,
        rewired r q c (some out.0) w a.done.inv (λ d n. a.done.others d n ∙ rw n refl) new,
      )

  call_connection-Wired :
      (r : Reactor K) (c : ℕ) (op : Op)
      → Wired r
      → Permitted r (calls c op)
      → (t : Reactor K) × (call_connection K r c op ≡ ok t) × Wired t
  unfolding call_connection
  call_connection-Wired r c op w (conn, here, allowed, later) =
      let v = w.wires c here in
      let told = step-Watched conn op later in
      let (q, e, a) = apply-Applied K r.poller c (step conn op).1 w.inv v.registered told.kept in
      let after = (step conn op).0 in
      let new : Wire q c after = record {
        inv = (step-Conserves conn op v.inv allowed).inv;
        registered = a.live;
        agrees = a.done.asks ∙ rw v.agrees told.told;
        listens = told.listens v.inv.mask v.listens;
        shut = step-Shut conn op v.inv allowed later v.shut;
      } in
      (
        record { poller = q; connections = update_at r.connections c (some after) },
        rw (here, call_connection) (rw e refl),
        rewired r q c (some after) w a.done.inv a.done.others new,
      )

  drop_connection-Wired :
      (r : Reactor K) (c : ℕ)
      → Wired r
      → Permitted r (drops c)
      → (t : Reactor K) × (drop_connection K r c ≡ ok t) × Wired t
  unfolding drop_connection
  drop_connection-Wired r c w (conn, here) =
      let (q, e, a) = destroy-Removed K r.poller c conn w.inv (w.wires c here).registered in
      (
        record { poller = q; connections = update_at r.connections c none },
        rw (here, drop_connection) (rw e refl),
        rewired r q c none w a.inv a.others tt,
      )

  act-Wired :
      (r : Reactor K) (a : Action)
      → Wired r
      → Permitted r a
      → (t : Reactor K) × (act K r a ≡ ok t) × Wired t
  act-Wired r (opens c sockfd b h) w p = open_connection-Wired r c sockfd b h w p
  act-Wired r (calls c op) w p = call_connection-Wired r c op w p
  act-Wired r (drops c) w p = drop_connection-Wired r c w p

  pub run_actions-Wired :
      (r : Reactor K) (actions : List Action)
      → Wired r
      → LegalFrom r actions
      → (t : Reactor K) × (run_actions K r actions ≡ ok t) × Wired t
  run_actions-Wired r [] w l = (r, refl, w)
  run_actions-Wired r (a ∷ rest) w (permitted, l) =
      let (t, e, w') = act-Wired r a w permitted in
      let (u, f, w'') = run_actions-Wired t rest w' (rw e at l) in (u, rw e f, w'')
