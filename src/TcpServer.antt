-- ===== src/TcpServer.antt =====
-- src/net/tcp/TcpServer.h and src/net/tcp/TcpServer.cpp: a server with the acceptor of
-- src/net/tcp/TcpAcceptor.cpp. What start() and stop() do in the server's loop is done at once.
--
-- `loops` are the loops that the cluster starts, one for each thread. A connection is a number, as in
-- src/net/Server.h; a link is what its TcpConnection has besides, the descriptor of its socket and the
-- status, which its loop changes too. A connection of TCP has no time of activity; it is 0 here.
pub mod Serving
pub mod Accepting
pub mod Closing
pub mod Stopping
mod Tests
use libsaf.Common.{
  ℕ, ◌+◌, ◌≡◌, Bool, true, false, List, [], ◌∷◌, ◌++◌, Option, none, some, Result, ok, ◌>>=◌,
  null_pointer, or_fault, ◌==◌, if◌then◌else◌,
}
use libsaf.EventLoopCluster
use libsaf.Server
use libsaf.Server.{Server, Peer, Entries, peer, new_connection, unbind_default_callbacks}
use libsaf.TcpConnection.{Status, is_connected, connecting, disconnecting, disconnected}
use libsaf.Acceptor
use libsaf.Acceptor.{Acceptor, Answers, set_callback, listen_in_loop, handle_read_in_loop}

pub record Link : Type 0 where
  pub socket : ℕ
  pub status : Status

pub record TcpServer : Type 0 where
  pub server : Server
  pub links : ℕ → Option Link
  pub acceptor : Acceptor

abbrev pub set_link : TcpServer → ℕ → Link → TcpServer
set_link s id l = record s { links = λ i. if i == id then some l else s.links i }

unfoldable pub start : TcpServer → ℕ → List ℕ → Answers → Result TcpServer
start s addr loops answers =
    let started = do
      cluster ← EventLoopCluster.start s.server.cluster loops
      acceptor ← listen_in_loop (set_callback s.acceptor true) addr answers
      ok (record s {
        server = record s.server { running = true; cluster = cluster };
        acceptor = acceptor;
      })
    in if s.server.running then ok s else started

-- close() of the connection, called in the server's loop: the connection's own loop closes it, at
-- once if it is the server's. Nothing happens unless the connection is connected.
unfoldable pub close : TcpServer → ℕ → Peer → Link → TcpServer
close s id p l =
    let closed = record l {
      status = if p.loop == s.server.cluster.master then disconnected else disconnecting;
    } in
    if is_connected l.status
    then set_link (record s { server = Server.close s.server id p }) id closed
    else s

-- The loop of stop() over the connections.
unfoldable pub unbind_and_close : TcpServer → Entries → Result TcpServer
unbind_and_close s [] = ok s
unbind_and_close s ((key, id) ∷ rest) = do
  p ← peer s.server id
  l ← or_fault (s.links id) null_pointer
  let unbound = record s { server = unbind_default_callbacks s.server id p }
  unbind_and_close (close unbound id (record p { bound = false }) l) rest

unfoldable pub stop : TcpServer → Result TcpServer
stop s = do
  let acceptor = Acceptor.stop_in_loop (set_callback s.acceptor false)
  s' ← unbind_and_close s s.server.connections
  cluster ← EventLoopCluster.stop s'.server.cluster
  ok (record s' {
    server = record s'.server { running = false; connections = []; cluster = cluster };
    acceptor = acceptor;
  })

-- newConnectionInLoop, with createConnectionInLoop
unfoldable pub new_connection_in_loop : TcpServer → ℕ → ℕ → Result TcpServer
new_connection_in_loop s connfd addr = new_connection s.server addr 0 >>= λ server. ok (
    set_link (record s { server = server }) s.server.next
      (record { socket = connfd; status = connecting }))

abbrev pub accepted : TcpServer → Option (ℕ × ℕ) → Acceptor → Result TcpServer
accepted s none a = ok (record s { acceptor = a })
accepted s (some (connfd, addr)) a = new_connection_in_loop (record s { acceptor = a }) connfd addr

-- The acceptor's socket can be read.
unfoldable pub handle_accept : TcpServer → Option (ℕ × ℕ) → Result TcpServer
handle_accept s answer = handle_read_in_loop s.acceptor answer >>= λ (given, a). accepted s given a

unfoldable pub handle_accepts : TcpServer → List (ℕ × ℕ) → Result TcpServer
handle_accepts s [] = ok s
handle_accepts s (peer ∷ peers) = handle_accept s (some peer) >>= λ s'. handle_accepts s' peers
