-- ===== src/TcpConnector.antt =====
-- src/net/tcp/TcpConnector.h and src/net/tcp/TcpConnector.cpp: connecting, and trying again after a
-- delay, in the thread of the loop `here`.
--
-- The socket that `Socket::create` makes and what `connect` answers are arguments. `socket_error` is
-- the kernel's SO_ERROR of the socket, which getSocketError reads and which reading clears. `retries`
-- counts the timers that call connectInLoop again, `queued` the queued calls of onRetryInLoop, and
-- `connected_calls` those of the connected callback, which may take the socket. The delay is 0 if
-- the client does not want to try again.
pub mod Connecting
pub mod Refusing
mod Tests
use libsaf.Common.{
  ℕ, ◌+◌, ◌≡◌, Bool, true, false, Option, none, some, Result, ok, fault, null_pointer, ◌>>=◌,
  map_result, ltb, ◌==◌, if◌then◌else◌,
}
use libsaf.Poller.Dispatch.{Handlers, Event, on_close, on_error, on_read, on_write}
use libsaf.Poller.{Watched, IoFd, EpollPoller, attach_in_loop, detach_in_loop, enable_write_in_loop}

pub data Status : Type 0 where
  disconnected connecting connected : Status

pub record Connector : Type 0 where
  pub stopping : Bool
  pub status : Status
  pub socket : Option IoFd
  pub poller : EpollPoller
  pub socket_error : ℕ
  pub reconnect_delay : ℕ
  pub has_callback : Bool
  pub retries : ℕ
  pub queued : ℕ
  pub connected_calls : ℕ

-- What `connect` returns: 0, or -1 with errno.
pub data Answer : Type 0 where
  success einprogress eintr eisconn : Answer
  eagain eaddrinuse eaddrnotavail econnrefused enetunreach : Answer
  eacces eperm eafnosupport ealready ebadf efault enotsock other : Answer

-- The three arms of the switch in connectInLoop.
pub data Arm : Type 0 where
  proceeds retries gives_up : Arm

unfoldable pub arm : Answer → Arm
arm success = proceeds
arm einprogress = proceeds
arm eintr = proceeds
arm eisconn = proceeds
arm eagain = retries
arm eaddrinuse = retries
arm eaddrnotavail = retries
arm econnrefused = retries
arm enetunreach = retries
arm _ = gives_up

abbrev with_poller : Connector → EpollPoller → Connector
with_poller c p = record c { poller = p }

-- The socket, with the poller of the loop.
abbrev pub watched : Connector → IoFd → Watched
watched c w = record { watcher = w; poller = c.poller }

abbrev store : Connector → Watched → Connector
store c s = record c { socket = some s.watcher; poller = s.poller }

module _ (here : ℕ) where
  abbrev pub reset_of : Option IoFd → Connector → Result Connector
  reset_of none c = ok c
  reset_of (some w) c = detach_in_loop here (watched c w) >>= λ r.
      ok (record c { socket = none; poller = r.1.poller })

  unfoldable pub reset_socket : Connector → Result Connector
  reset_socket c = reset_of c.socket c

  unfoldable pub on_connecting_in_loop : Connector → IoFd → Result Connector
  on_connecting_in_loop c w = do
    s ← attach_in_loop here here (watched c w)
    s' ← enable_write_in_loop here s
    ok (store (record c { status = connecting }) s')

  unfoldable pub on_retry_in_loop : Connector → Result Connector
  on_retry_in_loop c = reset_socket (record c { status = disconnected }) >>= λ c'.
      ok (if ltb 0 c'.reconnect_delay then record c' { retries = c'.retries + 1 } else c')

  unfoldable pub connect_answered : Connector → IoFd → Arm → Result Connector
  connect_answered c w proceeds = on_connecting_in_loop (record c { socket = some w }) w
  connect_answered c w retries = on_retry_in_loop (record c { socket = some w })
  connect_answered c w gives_up = ok (record c { socket = none })

  unfoldable pub connect_in_loop : Connector → IoFd → Answer → Result Connector
  connect_in_loop c created answer =
      if c.stopping then ok c else reset_socket c >>= λ c'. connect_answered c' created (arm answer)

  unfoldable pub disconnect_in_loop : Connector → Result Connector
  disconnect_in_loop c = reset_socket (record c { status = disconnected })

  -- The callback, which takes the socket or leaves it.
  abbrev pub call_connected : Bool → Bool → Connector → Connector
  call_connected true true c = record c { connected_calls = c.connected_calls + 1; socket = none }
  call_connected true false c = record c { connected_calls = c.connected_calls + 1 }
  call_connected false takes c = c

  -- handleWriteInLoop, on its socket and while it is connecting
  unfoldable pub write_ready : Bool → Connector → Option IoFd → Result Connector
  write_ready takes c none = fault null_pointer
  write_ready takes c (some w) = detach_in_loop here (watched c w) >>= λ r.
      let c' = record (store c r.1) { socket_error = 0 } in
      let retry = on_retry_in_loop c' in
      if c.socket_error == 0
      then ok (call_connected c'.has_callback takes (record c' { status = connected }))
      else retry

  unfoldable pub handle_write_as : Bool → Connector → Status → Result Connector
  handle_write_as takes c connecting = write_ready takes c c.socket
  handle_write_as takes c _ = ok (record c { status = disconnected })

  unfoldable pub handle_write_in_loop : Bool → Connector → Result Connector
  handle_write_in_loop takes c = handle_write_as takes c c.status

  unfoldable pub handle_error_as : Connector → Status → Option IoFd → Result Connector
  handle_error_as c connecting none = fault null_pointer
  handle_error_as c connecting (some w) = ok (record c { socket_error = 0; queued = c.queued + 1 })
  handle_error_as c _ s = ok c

  unfoldable pub handle_error_in_loop : Connector → Result Connector
  handle_error_in_loop c = handle_error_as c c.status c.socket

  unfoldable pub handle_close_as : Connector → Status → Connector
  handle_close_as c connecting = record c { queued = c.queued + 1 }
  handle_close_as c _ = c

  unfoldable pub handle_close_in_loop : Connector → Connector
  handle_close_in_loop c = handle_close_as c c.status

  -- What onReadInIOFd, onWriteInIOFd, onErrorInIOFd and onCloseInIOFd call; a fault ends the event.
  unfoldable pub observe : Bool → Event → Result Connector → Result Connector
  observe takes on_read r = r
  observe takes on_write r = r >>= handle_write_in_loop takes
  observe takes on_error r = r >>= handle_error_in_loop
  observe takes on_close r = map_result handle_close_in_loop r

  -- The connector is its socket's observer, so the socket has no use for callbacks.
  abbrev pub handlers : Bool → Handlers (Result Connector)
  handlers takes = record {
    has_observer = λ r. true;
    observer = λ e r. observe takes e r;
    has_callback = λ e r. false;
    callback = λ e r. r;
  }
