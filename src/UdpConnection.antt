-- ===== src/UdpConnection.antt =====
-- src/net/udp/UdpConnection.h and src/net/udp/UdpConnection.cpp: the server's side of a peer that sends
-- datagrams, in the thread of its loop.
--
-- What `sendto` answers is an argument. A callback is run last in its handler, so it is a record of
-- the call, in `calls`; the functors that the connection queues are `queued`. `sent` are the datagrams
-- that the kernel has taken, the part of each that it took. A descriptor of 0 is none: the
-- constructor leaves `_senderFd` as it finds it, and the server sets it before the first functor runs.
pub mod Stream
pub mod Script
pub mod Stall
mod Tests
use libsaf.Common.{
  ℕ, ◌+◌, ◌≡◌, Bool, true, false, not, List, [], ◌∷◌, ◌++◌, Result, ok, ◌>>=◌, ltb, ◌==◌,
  if◌then◌else◌, length, take,
}
use libsaf.Buffer.{Buffer, readable_bytes, as_string, append, retrieve, retrieve_all}
use libsaf.TcpConnection.{
  Callbacks, Call, connect_change, recv_message, write_complete, closed, Written, wrote, failed,
}

-- What close() and handleWriteInLoop queue.
pub data Functor : Type 0 where
  close_functor write_functor : Functor

pub record UdpConnection : Type 0 where
  pub connecting : Bool
  pub writing : Bool
  pub sender_fd : ℕ
  pub input : Buffer
  pub output : Buffer
  pub actived_time : ℕ
  pub callbacks : Callbacks
  pub queued : List Functor
  pub calls : List Call
  pub sent : List (List ℕ)

abbrev pub called : Bool → Call → UdpConnection → UdpConnection
called true call c = record c { calls = c.calls ++ call ∷ [] }
called false call c = c

abbrev pub queue : UdpConnection → Functor → UdpConnection
queue c f = record c { queued = c.queued ++ f ∷ [] }

-- The message callback, or the loss of what no one reads.
abbrev received : Bool → UdpConnection → UdpConnection
received true c = called true recv_message c
received false c = record c { input = retrieve_all c.input }

unfoldable pub handle_read_in_loop : UdpConnection → List ℕ → ℕ → Result UdpConnection
handle_read_in_loop c bytes now = append c.input bytes >>= λ b.
    ok (received c.callbacks.on_recv_message (record c { input = b; actived_time = now }))

unfoldable pub close_in_loop : UdpConnection → UdpConnection
close_in_loop c =
    called c.callbacks.on_close closed
      (called c.callbacks.on_connect_change connect_change (record c { connecting = false }))

unfoldable pub close : Bool → UdpConnection → UdpConnection
close in_thread c =
    let c' = record c { connecting = false } in
    if in_thread then close_in_loop c' else queue c' close_functor

-- handleWriteInLoop after its call of `sendto`
unfoldable pub sent_some : UdpConnection → ℕ → Result UdpConnection
sent_some c n =
    let taken = record c { sent = c.sent ++ take n (as_string c.output) ∷ [] } in
    retrieve c.output n >>= λ out.
    let c' = record taken { output = out } in
    if readable_bytes out == 0
    then ok (called c.callbacks.on_write_complete write_complete (record c' { writing = false }))
    else ok (queue c' write_functor)

unfoldable pub write_answered : UdpConnection → Written → Result UdpConnection
write_answered c (wrote n) = if ltb 0 n then sent_some c n else ok c
write_answered c (failed e) = ok c

unfoldable pub handle_write_in_loop : UdpConnection → Written → Result UdpConnection
handle_write_in_loop c w = if c.sender_fd == 0 then ok c else write_answered c w

unfoldable pub send_in_loop : UdpConnection → List ℕ → Written → Result UdpConnection
send_in_loop c bytes w = append c.output bytes >>= λ out.
    let c' = record c { output = out } in
    if not c.writing then handle_write_in_loop (record c' { writing = true }) w else ok c'

unfoldable pub on_connect_established_in_loop : UdpConnection → UdpConnection
on_connect_established_in_loop c =
    called c.callbacks.on_connect_change connect_change (record c { connecting = true })

-- A functor of its own that the loop runs, with the answer of `sendto` if it calls it.
unfoldable pub run_functor : UdpConnection → Functor → Written → Result UdpConnection
run_functor c close_functor w = ok (close_in_loop c)
run_functor c write_functor w = handle_write_in_loop c w
