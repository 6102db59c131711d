-- ===== src/TcpConnection.antt =====
-- src/net/tcp/TcpConnection.h, src/net/tcp/TcpConnection.cpp and the sending half of src/net/Connection.cpp: a
-- connection, in the thread of its loop `here`.
--
-- What `write` and `read` of the system answer is an argument of each handler. A callback is run
-- last in a handler, so it is a record of the call, in `calls`, and what it does to the connection
-- is a later call; where two run, the second follows the first. The functors that the connection
-- queues in its loop are `queued`. `sent` is what the kernel has taken, which the program does not
-- keep. A copied string is its bytes.
pub mod Opening
pub mod Stream
pub mod Flush
pub mod Closing
pub mod Shutdown
mod Tests
use libsaf.Common.{
  ℕ, zero, suc, ◌+◌, ◌-◌, ◌≤◌, ◌≡◌, Bool, true, false, not, ◌&&◌, ◌||◌, List, [], ◌∷◌, ◌++◌, Option,
  none, some, Result, ok, fault, assertion, fatal, assert, ◌>>=◌, ltb, leb, ◌==◌, if◌then◌else◌,
  length, take, drop, map_result,
}
use libsaf.Buffer.{Buffer, readable_bytes, as_string, append, retrieve, Receive, read_fd}
use libsaf.Poller.{
  Watched, is_writing, enable_read_in_loop, enable_write_in_loop, disable_write_in_loop,
  attach_in_loop, detach_in_loop,
}

pub data Status : Type 0 where
  disconnected connecting connected disconnecting : Status

abbrev pub is_connected : Status → Bool
is_connected connected = true
is_connected _ = false

-- A callback of the user's, or the close callback of the server or client.
pub data Call : Type 0 where
  connect_change recv_message write_complete closed : Call

-- What close(), shutdown() and sendInLoop queue.
pub data Functor : Type 0 where
  close_functor shutdown_functor write_complete_functor : Functor

-- Which callbacks are set.
pub record Callbacks : Type 0 where
  pub on_connect_change : Bool
  pub on_recv_message : Bool
  pub on_write_complete : Bool
  pub on_close : Bool

pub record Connection : Type 0 where
  pub status : Status
  pub socket : Watched
  pub shut : Bool
  pub input : Buffer
  pub output : Buffer
  pub actived_time : ℕ
  pub callbacks : Callbacks
  pub queued : List Functor
  pub calls : List Call
  pub sent : List ℕ

pub data Errno : Type 0 where
  ewouldblock epipe econnreset other : Errno

-- The answer of `write`: so many bytes taken, or -1 with its errno.
pub data Written : Type 0 where
  wrote : ℕ → Written
  failed : Errno → Written

abbrev is_fault_error : Errno → Bool
is_fault_error ewouldblock = false
is_fault_error epipe = true
is_fault_error econnreset = true
is_fault_error other = false

-- The callback, if it is set.
abbrev called : Bool → Call → Connection → Connection
called true call c = record c { calls = c.calls ++ call ∷ [] }
called false call c = c

abbrev queue : Connection → Functor → Connection
queue c f = record c { queued = c.queued ++ f ∷ [] }

abbrev on_socket : Connection → Result Watched → Result Connection
on_socket c r = map_result (λ s. record c { socket = s }) r

module _ (here : ℕ) where
  -- The end of sendInLoop: what `write` did not take waits in the output buffer.
  unfoldable pub buffer_rest : Connection → List ℕ → Result Connection
  buffer_rest c rest = append c.output rest >>= λ out.
      let c' = record c { output = out } in
      if not (is_writing c.socket.watcher)
      then on_socket c' (enable_write_in_loop here c.socket)
      else ok c'

  unfoldable pub remaining : Connection → List ℕ → Result Connection
  remaining c rest = if ltb 0 (length rest) then buffer_rest c rest else ok c

  -- sendInLoop after its call of `write`
  unfoldable pub send_written : Connection → List ℕ → Written → Result Connection
  send_written c src (wrote n) =
      let c' = record c { sent = c.sent ++ take n src } in
      let complete =
        if c.callbacks.on_write_complete then queue c' write_complete_functor else c' in
      if length src - n == 0 then ok complete else remaining c' (drop n src)
  send_written c src (failed e) = if is_fault_error e then ok c else remaining c src

  unfoldable pub send_in_loop : Connection → List ℕ → Written → Result Connection
  send_in_loop c src w =
      if not (is_writing c.socket.watcher) && readable_bytes c.output == 0
      then send_written c src w
      else remaining c src

  -- handleWriteInLoop after its call of `write`
  unfoldable pub write_stopped : Connection → Result Connection
  write_stopped c = on_socket c (disable_write_in_loop here c.socket)

  unfoldable pub write_written : Connection → Written → Result Connection
  write_written c (wrote n) =
      let taken = record c { sent = c.sent ++ take n (as_string c.output) } in
      let step = do
        out ← retrieve c.output n
        let c' = record taken { output = out }
        let complete = do
          c'' ← on_socket c' (disable_write_in_loop here c'.socket)
          ok (called c.callbacks.on_write_complete write_complete c'')
        if readable_bytes out == 0 then complete else ok c'
      in if ltb 0 n then step else write_stopped c
  write_written c (failed e) = write_stopped c

  unfoldable pub handle_write_in_loop : Connection → Written → Result Connection
  handle_write_in_loop c w = if is_writing c.socket.watcher then write_written c w else ok c

  unfoldable pub close_in_loop : Connection → Result Connection
  close_in_loop c = detach_in_loop here c.socket >>= λ r.
      let c' = record c { socket = r.1; status = disconnected } in
      ok (
        called c.callbacks.on_close closed (called c.callbacks.on_connect_change connect_change c'))

  abbrev is_open : Status → Bool
  is_open connected = true
  is_open disconnecting = true
  is_open _ = false

  unfoldable pub handle_close_in_loop : Connection → Result Connection
  handle_close_in_loop c = assert (is_open c.status) (close_in_loop c)

  -- handleErrorInLoop only logs.
  unfoldable pub handle_read : Connection → ℕ → Option ℕ × Buffer → Result Connection
  handle_read c now (none, b) = ok (record c { input = b })
  handle_read c now (some n, b) =
      let c' = record c { input = b } in
      if ltb 0 n
      then ok (called c.callbacks.on_recv_message recv_message (record c' { actived_time = now }))
      else handle_close_in_loop c'

  unfoldable pub handle_read_in_loop : Connection → ℕ → Receive → Result Connection
  handle_read_in_loop c now readv = read_fd c.input readv >>= handle_read c now

  unfoldable pub on_connect_established_in_loop : Connection → Result Connection
  on_connect_established_in_loop c = do
    s ← attach_in_loop here here c.socket
    s' ← enable_read_in_loop here s
    let c' = record c { status = connected; socket = s' }
    ok (called c.callbacks.on_connect_change connect_change c')

  -- The functor of shutdown()
  unfoldable pub shutdown_in_loop : Connection → Connection
  shutdown_in_loop c = if not (is_writing c.socket.watcher) then record c { shut = true } else c

  unfoldable pub run_functor : Connection → Functor → Result Connection
  run_functor c close_functor = close_in_loop c
  run_functor c shutdown_functor = ok (shutdown_in_loop c)
  run_functor c write_complete_functor = ok (record c { calls = c.calls ++ write_complete ∷ [] })

  -- runInLoop: at once in the loop's thread, or queued.
  abbrev run_in_loop : Bool → Connection → Functor → Result Connection
  run_in_loop true c f = run_functor c f
  run_in_loop false c f = ok (queue c f)

  unfoldable pub close : Bool → Connection → Result Connection
  close in_thread c =
      if not (is_connected c.status)
      then ok c
      else run_in_loop in_thread (record c { status = disconnecting }) close_functor

  unfoldable pub shutdown : Bool → Connection → Result Connection
  shutdown in_thread c =
      if not (is_connected c.status)
      then ok c
      else run_in_loop in_thread (record c { status = disconnecting }) shutdown_functor

  -- The functors that wait, each run once, in order.
  unfoldable pub run_functors : Connection → List Functor → Result Connection
  run_functors c [] = ok c
  run_functors c (f ∷ fs) = run_functor c f >>= λ c'. run_functors c' fs

  unfoldable pub run_queued : Connection → Result Connection
  unfolding run_functors
  run_queued c = run_functors (record c { queued = [] }) c.queued
