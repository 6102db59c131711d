-- ===== src/TcpConnector/Connecting.antt =====
-- How a try to connect goes on in src/net/tcp/TcpConnector.cpp, and how it ends.
use libsaf.Common.{
  ℕ, ◌+◌, ◌≡◌, refl, sym, ap, subst, ◌∙◌, arith, Bool, true, false, none, some, ok, Returns,
  returns, Returns-bind, Returns-map, Returns-if, if◌then◌else◌, ltb, ◌==◌,
}
use libsaf.Poller.{IoFd, is_writing}
use libsaf.Poller.Interest.{IsSynced, enable_write_in_loop-Moved}
use libsaf.Poller.Session.{attach_in_loop-Attached, detach_in_loop-Detached, detached_already}
use libsaf.TcpConnector.{
  Connector, disconnected, connecting, connected, Answer, Arm, proceeds, retries, gives_up, arm,
  watched, connect_answered, connect_in_loop, on_connecting_in_loop, on_retry_in_loop, reset_socket,
  reset_of, call_connected, handle_error_in_loop, handle_error_as, handle_write_in_loop,
  handle_write_as, write_ready, success, einprogress, eintr, eisconn, eagain, eaddrinuse,
  eaddrnotavail, econnrefused, enetunreach, eacces, eperm, eafnosupport, ealready, ebadf, efault,
  enotsock, other,
}

-- The connector waits for the write event of its socket, which is in step with the poller.
pub record Waits (here : ℕ) (c : Connector) : Type 0 where
  pub status : c.status ≡ connecting
  pub watcher : IoFd
  pub socket : c.socket ≡ some watcher
  pub synced : IsSynced here (watched c watcher)
  pub looper : watcher.looper ≡ some here
  pub writes : is_writing watcher ≡ true

-- The connector waits with this socket.
pub record WaitsWith (here : ℕ) (w : IoFd) (c : Connector) : Type 0 where
  pub waits : Waits here c
  pub fd : waits.watcher.fd ≡ w.fd
  pub address : waits.watcher.address ≡ w.address

-- It has no socket, and a timer is set if the client wants to try again.
pub record Retries (c c' : Connector) : Type 0 where
  pub status : c'.status ≡ disconnected
  pub socket : c'.socket ≡ none
  pub retries : c'.retries ≡ c.retries + (if ltb 0 c.reconnect_delay then 1 else 0)

-- It has no socket and no new timer.
pub record GivesUp (c c' : Connector) : Type 0 where
  pub status : c'.status ≡ c.status
  pub socket : c'.socket ≡ none
  pub retries : c'.retries ≡ c.retries

-- What each arm leaves.
abbrev Armed : ℕ → Connector → IoFd → Arm → Connector → Type 0
Armed here c w proceeds c' = WaitsWith here w c'
Armed here c w retries c' = Retries c c'
Armed here c w gives_up c' = GivesUp c c'

-- What each answer of `connect` leaves.
abbrev pub After : ℕ → Connector → IoFd → Answer → Connector → Type 0
After here c w success c' = WaitsWith here w c'
After here c w einprogress c' = WaitsWith here w c'
After here c w eintr c' = WaitsWith here w c'
After here c w eisconn c' = WaitsWith here w c'
After here c w eagain c' = Retries c c'
After here c w eaddrinuse c' = Retries c c'
After here c w eaddrnotavail c' = Retries c c'
After here c w econnrefused c' = Retries c c'
After here c w enetunreach c' = Retries c c'
After here c w eacces c' = GivesUp c c'
After here c w eperm c' = GivesUp c c'
After here c w eafnosupport c' = GivesUp c c'
After here c w ealready c' = GivesUp c c'
After here c w ebadf c' = GivesUp c c'
After here c w efault c' = GivesUp c c'
After here c w enotsock c' = GivesUp c c'
After here c w other c' = GivesUp c c'

module _ (here : ℕ) (c : Connector) (w : IoFd) (v : IsSynced here (watched c w)) where
  on_connecting_in_loop-Waits : Returns (WaitsWith here w) (on_connecting_in_loop here c w)
  unfolding on_connecting_in_loop
  on_connecting_in_loop-Waits = Returns-bind (attach_in_loop-Attached here (watched c w) v) λ s a.
      Returns-bind (enable_write_in_loop-Moved here s a.synced a.looper) λ s' m. returns (record {
        waits = record {
          status = refl;
          watcher = s'.watcher;
          socket = refl;
          synced = m.synced;
          looper = m.looper ∙ a.looper;
          writes = ap (λ e. e.write) m.events;
        };
        fd = m.fd ∙ a.fd;
        address = m.address ∙ a.address;
      })

-- A socket that is in no loop is dropped as it is.
dropped :
    (here : ℕ) (c : Connector) (w : IoFd)
    → c.socket ≡ some w
    → w.looper ≡ none
    → reset_socket here c ≡ ok (record c { socket = none })
unfolding reset_socket
dropped here c w is off =
    subst (λ o. reset_of here o c ≡ ok (record c { socket = none })) (sym is)
      (rw (detached_already here (watched c w) off) refl)

on_retry_in_loop-Retries :
    (here : ℕ) (c : Connector) (w : IoFd)
    → c.socket ≡ some w
    → w.looper ≡ none
    → Returns (Retries c) (on_retry_in_loop here c)
unfolding on_retry_in_loop
on_retry_in_loop-Retries here c w is off =
    rw (dropped here (record c { status = disconnected }) w is off)
      (again (ltb 0 c.reconnect_delay) refl)
  where
    again :
        (b : Bool)
        → ltb 0 c.reconnect_delay ≡ b
        → Returns (Retries c) (
            ok (
              if b
              then record c { status = disconnected; socket = none; retries = c.retries + 1 }
              else record c { status = disconnected; socket = none }))
    again true e = returns (record { status = refl; socket = refl; retries = rw e refl })
    again false e = returns (record { status = refl; socket = refl; retries = rw e (omega arith) })

connect_answered-Armed :
    (here : ℕ) (c : Connector) (w : IoFd)
    → IsSynced here (watched c w)
    → w.looper ≡ none
    → (a : Arm) → Returns (Armed here c w a) (connect_answered here c w a)
unfolding connect_answered
connect_answered-Armed here c w v off proceeds =
    on_connecting_in_loop-Waits here (record c { socket = some w }) w v
connect_answered-Armed here c w v off retries =
    Returns-map (on_retry_in_loop-Retries here (record c { socket = some w }) w refl off)
      λ c' r. record { status = r.status; socket = r.socket; retries = r.retries }
connect_answered-Armed here c w v off gives_up =
    returns (record { status = refl; socket = refl; retries = refl })

Armed-After :
    (here : ℕ) (c : Connector) (w : IoFd) (answer : Answer) (c' : Connector)
    → Armed here c w (arm answer) c'
    → After here c w answer c'
unfolding arm
Armed-After here c w success c' r = r
Armed-After here c w einprogress c' r = r
Armed-After here c w eintr c' r = r
Armed-After here c w eisconn c' r = r
Armed-After here c w eagain c' r = r
Armed-After here c w eaddrinuse c' r = r
Armed-After here c w eaddrnotavail c' r = r
Armed-After here c w econnrefused c' r = r
Armed-After here c w enetunreach c' r = r
Armed-After here c w eacces c' r = r
Armed-After here c w eperm c' r = r
Armed-After here c w eafnosupport c' r = r
Armed-After here c w ealready c' r = r
Armed-After here c w ebadf c' r = r
Armed-After here c w efault c' r = r
Armed-After here c w enotsock c' r = r
Armed-After here c w other c' r = r

nothing_old : (here : ℕ) (c : Connector) → c.socket ≡ none → reset_socket here c ≡ ok c
unfolding reset_socket
nothing_old here c e = subst (λ o. reset_of here o c ≡ ok c) (sym e) refl

-- connectInLoop, when there is no old socket and the connector is not stopping, does not fault. If
-- `connect` succeeds or fails with EINPROGRESS, EINTR or EISCONN, the connector waits for the write event
-- of the new socket, in step with the poller. If it fails with EAGAIN, EADDRINUSE, EADDRNOTAVAIL,
-- ECONNREFUSED or ENETUNREACH, the connector is disconnected without a socket and one more timer tries
-- again, if the client wants that. If it fails otherwise, it has no socket and nothing tries again.
pub connect_in_loop-After :
    (here : ℕ) (c : Connector) (w : IoFd) (answer : Answer)
    → c.stopping ≡ false
    → c.socket ≡ none
    → IsSynced here (watched c w)
    → w.looper ≡ none
    → Returns (After here c w answer) (connect_in_loop here c w answer)
unfolding connect_in_loop
connect_in_loop-After here c w answer go no_socket v off = rw (nothing_old here c no_socket) (
    Returns-if c.stopping (λ p. absurd (ground arith))
      (λ p.
        Returns-map (connect_answered-Armed here c w v off (arm answer))
          λ c' r. Armed-After here c w answer c' r))

-- How a try ends: SO_ERROR is clear, or it is not.
abbrev pub Decided : Connector → Bool → Connector → Type 0
Decided c true c' =
    (c'.status ≡ connected)
    × (c'.connected_calls ≡ c.connected_calls + (if c.has_callback then 1 else 0))
Decided c false c' = Retries c c'

called-Decided :
    (here : ℕ) (set takes : Bool) (c : Connector)
    → ((call_connected here set takes c).status ≡ c.status)
      × ((call_connected here set takes c).connected_calls
          ≡ c.connected_calls + (if set then 1 else 0))
called-Decided here true true c = (refl, refl)
called-Decided here true false c = (refl, refl)
called-Decided here false takes c = (refl, omega arith)

module _ (here : ℕ) (takes : Bool) (c : Connector) (w : Waits here c) where
  write_ready-Decided :
      (b : Bool)
      → (c.socket_error == 0) ≡ b
      → Returns (Decided c b) (write_ready here takes c (some w.watcher))
  unfolding write_ready
  write_ready-Decided true clear =
      Returns-bind (detach_in_loop-Detached here (watched c w.watcher) w.synced w.looper)
        λ r (_, d). rw clear (returns (called-Decided here c.has_callback takes _))
  write_ready-Decided false set =
      Returns-bind (detach_in_loop-Detached here (watched c w.watcher) w.synced w.looper)
        λ r (_, d). rw set (
          Returns-map (on_retry_in_loop-Retries here _ r.1.watcher refl d.looper)
            λ c' t. record { status = t.status; socket = t.socket; retries = t.retries })

  pub handle_write_in_loop-Decided :
      Returns (Decided c (c.socket_error == 0)) (handle_write_in_loop here takes c)
  unfolding handle_write_in_loop handle_write_as
  handle_write_in_loop-Decided =
      subst (λ st. Returns (Decided c (c.socket_error == 0)) (handle_write_as here takes c st))
        (sym w.status)
        (subst (λ o. Returns (Decided c (c.socket_error == 0)) (write_ready here takes c o))
          (sym w.socket) (write_ready-Decided (c.socket_error == 0) refl))

  abbrev pub cleared : Connector
  cleared = record c { socket_error = 0; queued = c.queued + 1 }

  pub error_cleared : handle_error_in_loop here c ≡ ok cleared
  unfolding handle_error_in_loop handle_error_as
  error_cleared =
      subst (λ st. handle_error_as here c st c.socket ≡ ok cleared) (sym w.status)
        (subst (λ o. handle_error_as here c connecting o ≡ ok cleared) (sym w.socket) refl)
