-- ===== src/Acceptor.antt =====
-- src/net/tcp/TcpAcceptor.h, src/net/tcp/TcpAcceptor.cpp, src/net/udp/UdpAcceptor.h and
-- src/net/udp/UdpAcceptor.cpp: the sockets of a server, with the operations of
-- src/net/fd/Socket.cpp that they use.
--
-- What the system calls answer are arguments: the new socket's descriptor, or `none`, and whether
-- `bind` and `listen` succeed. LOG_FATAL aborts, whatever the level of the log. Of the poller there is
-- whether the socket is attached and watched for reading. The options of a socket are not modelled.
use libsaf.Common.{
  ℕ, Bool, true, false, List, [], ◌∷◌, ◌++◌, Option, none, some, Result, ok, fault, fatal,
  null_pointer, ◌>>=◌, if◌then◌else◌,
}
use libsaf.Buffer.{Buffer, Receive, read_from, retrieve_all}

pub record Socket : Type 0 where
  pub fd : ℕ
  pub attached : Bool
  pub reading : Bool
  pub bound_to : Option ℕ
  pub listening : Bool

pub record Answers : Type 0 where
  pub socket : Option ℕ
  pub binds : Bool
  pub listens : Bool

-- Socket::create
abbrev pub create : Option ℕ → Result Socket
create none = fault fatal
create (some fd) =
    ok (record { fd = fd; attached = false; reading = false; bound_to = none; listening = false })

abbrev pub bind : Bool → Socket → ℕ → Result Socket
bind true s addr = ok (record s { bound_to = some addr })
bind false s addr = fault fatal

abbrev pub listen : Bool → Socket → Result Socket
listen true s = ok (record s { listening = true })
listen false s = fault fatal

-- Socket::accept, whose answer is a connection's descriptor and its peer's address, or an error.
abbrev pub accept : Option (ℕ × ℕ) → Result (ℕ × ℕ)
accept none = fault fatal
accept (some peer) = ok peer

-- Both acceptors: `closed` are the descriptors closed by them.
pub record Acceptor : Type 0 where
  pub listening : Bool
  pub addr : ℕ
  pub socket : Option Socket
  pub has_callback : Bool
  pub closed : List ℕ

-- TcpAcceptor::listenInLoop
unfoldable pub listen_in_loop : Acceptor → ℕ → Answers → Result Acceptor
listen_in_loop a addr answers =
    let opened = do
      made ← create answers.socket
      bound ← bind answers.binds (record made { attached = true }) addr
      s ← listen answers.listens (record bound { reading = true })
      ok (record a { listening = true; addr = addr; socket = some s })
    in if a.listening then ok a else opened

-- UdpAcceptor::listenInLoop
unfoldable pub udp_listen_in_loop : Acceptor → ℕ → Answers → Result Acceptor
udp_listen_in_loop a addr answers =
    let opened = do
      made ← create answers.socket
      s ← bind answers.binds (record made { attached = true }) addr
      ok (record a { listening = true; addr = addr; socket = some (record s { reading = true }) })
    in if a.listening then ok a else opened

abbrev reset : Acceptor → Option Socket → Acceptor
reset a none = a
reset a (some s) = record a { socket = none; closed = a.closed ++ s.fd ∷ [] }

-- stopInLoop of both: the socket is detached, and closed as it is destroyed.
unfoldable pub stop_in_loop : Acceptor → Acceptor
stop_in_loop a = reset (record a { listening = false }) a.socket

unfoldable pub set_callback : Acceptor → Bool → Acceptor
set_callback a on = record a { has_callback = on }

-- TcpAcceptor::handleReadInLoop: the connection to be handed to the callback, if there is one. Its
-- other branch is never taken, since accept() aborts.
unfoldable pub handle_read_in_loop : Acceptor → Option (ℕ × ℕ) → Result (Option (ℕ × ℕ) × Acceptor)
handle_read_in_loop a answer =
    let taken = accept answer >>= λ (fd, peer). ok (
      if a.has_callback
      then (some (fd, peer), a)
      else (none, record a { closed = a.closed ++ fd ∷ [] })) in
    elim a.socket [ none ↦ fault null_pointer | some _ ↦ taken ]

-- The address after the call: as it was constructed, here 0, if nothing was received.
abbrev pub sender : Option ℕ → ℕ → ℕ
sender none peer = 0
sender (some _) peer = peer

-- UdpAcceptor::handleReadInLoop, with the callback and what it works on.
module _ {S : Type 0} (recv_message : S → ℕ → Buffer → Result (Buffer × S)) where
  unfoldable pub udp_handle_read_in_loop : Acceptor → Buffer → Receive → ℕ → S → Result (Buffer × S)
  udp_handle_read_in_loop a input recvfrom peer s =
      let handled = do
        (n, b) ← read_from input recvfrom
        (b', s') ← if a.has_callback then recv_message s (sender n peer) b else ok (b, s)
        ok (retrieve_all b', s')
      in elim a.socket [ none ↦ fault null_pointer | some _ ↦ handled ]
