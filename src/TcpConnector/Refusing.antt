-- ===== src/TcpConnector/Refusing.antt =====
-- What an event with an error does to a connector of src/net/tcp/TcpConnector.cpp.
use libsaf.Common.{
  ℕ, ◌+◌, ◌≡◌, refl, sym, subst, Bool, true, false, ok, Returns, returns, not, ◌&&◌, ◌||◌,
  Bool-cases, inl, inr, ◌>>=◌,
}
use libsaf.Poller.Dispatch.{Flags, handle_event, notify}
use libsaf.TcpConnector.{
  Connector, connecting, handle_error_in_loop, handle_write_in_loop, handlers, observe,
  handle_close_in_loop, handle_close_as,
}
use libsaf.TcpConnector.Connecting.{
  Waits, Decided, handle_write_in_loop-Decided, cleared, error_cleared,
}

error_then_write :
    (here : ℕ) (takes : Bool) (c : Connector)
    → Waits here c
    → Returns (Decided c true) (handle_error_in_loop here c >>= handle_write_in_loop here takes)
error_then_write here takes c w = rw (error_cleared here takes c w) (
    handle_write_in_loop-Decided here takes (cleared here takes c w) (record {
      status = w.status;
      watcher = w.watcher;
      socket = w.socket;
      synced = w.synced;
      looper = w.looper;
      writes = w.writes;
    }))

-- What an event with the error and the write flag leaves, if it is a hang-up without data and if not.
abbrev pub Refused : Connector → Bool → Connector → Type 0
Refused c false c' = Decided c true c'
Refused c true c' =
    (c'.status ≡ connecting)
    × (c'.socket ≡ c.socket)
    × (c'.socket_error ≡ c.socket_error)
    × (c'.queued ≡ c.queued + 1)
    × (c'.connected_calls ≡ c.connected_calls)

-- handleEvent for an event with POLLERR and POLLOUT, on the socket of a connector that waits for its
-- write event. If the event has no POLLHUP, or has POLLIN too, the error handler runs first and reads
-- SO_ERROR, which clears it; so the write handler then finds no error, whatever the error was, and
-- takes the connection for established. If it has POLLHUP and no POLLIN, the close handler alone runs:
-- the connector goes on waiting, SO_ERROR is unread, and onRetryInLoop is queued.
pub handle_event-Refused :
    (here : ℕ) (takes : Bool) (c : Connector) (r : Flags)
    → Waits here c
    → r.pollerr ≡ true
    → r.pollout ≡ true
    → Returns
        (Refused c (r.pollhup && not r.pollin))
        (handle_event (handlers here takes) r (ok c)).world
unfolding handle_event notify observe handle_close_in_loop handle_close_as
handle_event-Refused here takes c r w err out = elim (Bool-cases (r.pollhup && not r.pollin)) [
  | inl hung ↦ rw hung (
      subst (λ st. Returns (Refused c true) (ok (handle_close_as here c st))) (sym w.status)
        (returns (w.status, refl, refl, refl, refl)))
  | inr fine ↦
      rw (fine, err, out)
        (elim (Bool-cases (r.pollin || r.pollpri || r.pollrdhup)) [
          | inl some_in ↦ rw some_in (error_then_write here takes c w)
          | inr no_in ↦ rw no_in (error_then_write here takes c w)
        ])
]
