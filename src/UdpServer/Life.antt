-- ===== src/UdpServer/Life.antt =====
-- start() and stop() of src/net/udp/UdpServer.cpp, with the acceptor of src/net/udp/UdpAcceptor.cpp and
-- the timer of the expiry. What they do in the server's loop is done at once.
--
-- `loops` are the loops that the cluster starts, one for each thread; `timer` is what addTimer gives.
use libsaf.Common.{
  ℕ, ◌≡◌, refl, Bool, true, false, List, [], ◌∷◌, ◌++◌, some, Result, ok, ◌>>=◌, Returns, returns,
  Returns-bind, ◌==◌, if◌then◌else◌,
}
use libsaf.EventLoopCluster
use libsaf.Server.{Server, clear_connections}
use libsaf.Server.Connections.{IsValid, HasLoops}
use libsaf.Server.Clear.{Cleared, clear_connections-Cleared}
use libsaf.TcpServer.Serving.{start-HasLoops, running-IsValid, can_stop}
use libsaf.Acceptor
use libsaf.Acceptor.{Acceptor, Answers, Socket, set_callback, udp_listen_in_loop}

pub record UdpServer : Type 0 where
  pub server : Server
  pub acceptor : Acceptor
  pub expired_checker : ℕ
  pub cancelled : List ℕ

unfoldable pub start : UdpServer → ℕ → List ℕ → Answers → ℕ → Result UdpServer
start s addr loops answers timer =
    let started = do
      cluster ← EventLoopCluster.start s.server.cluster loops
      acceptor ← udp_listen_in_loop (set_callback s.acceptor true) addr answers
      ok (record s {
        server = record s.server { running = true; cluster = cluster };
        acceptor = acceptor;
        expired_checker = timer;
      })
    in if s.server.running then ok s else started

abbrev cancel_checker : UdpServer → List ℕ
cancel_checker s =
    if s.expired_checker == 0 then s.cancelled else s.cancelled ++ s.expired_checker ∷ []

unfoldable pub stop : UdpServer → Result UdpServer
stop s = do
  let acceptor = Acceptor.stop_in_loop (set_callback s.acceptor false)
  server ← clear_connections s.server
  ok (record s { server = server; acceptor = acceptor; cancelled = cancel_checker s })

pub record IsStopped (s : UdpServer) : Type 0 where
  pub valid : IsValid s.server
  pub running : s.server.running ≡ false
  pub bare : s.server.cluster.pairs ≡ []
  pub silent : s.acceptor.listening ≡ false

abbrev pub socket_on : ℕ → ℕ → Socket
socket_on fd addr = record {
  fd = fd;
  attached = true;
  reading = true;
  bound_to = some addr;
  listening = false;
}

-- Between start() and stop(): datagrams of the address are read, and the expiry has a timer.
pub record IsServing (fd addr timer : ℕ) (s : UdpServer) : Type 0 where
  pub valid : IsValid s.server
  pub running : s.server.running ≡ true
  pub ready : HasLoops s.server.cluster
  pub listening : s.acceptor.listening ≡ true
  pub socket : s.acceptor.socket ≡ some (socket_on fd addr)
  pub called : s.acceptor.has_callback ≡ true
  pub checked : s.expired_checker ≡ timer

start-IsServing :
    (s : UdpServer) (addr fd timer : ℕ) (listens : Bool) (loops : List ℕ)
    → IsStopped s
    → Returns
        (IsServing fd addr timer)
        (start s addr loops (record { socket = some fd; binds = true; listens = listens }) timer)
unfolding start udp_listen_in_loop set_callback
start-IsServing s addr fd timer listens loops h = rw h.running (
    Returns-bind (start-HasLoops s.server.cluster loops h.bare) λ c ready. rw h.silent (
      returns (record {
        valid = running-IsValid s.server c h.valid;
        running = refl;
        ready = ready;
        listening = refl;
        socket = refl;
        called = refl;
        checked = refl;
      })))

-- The server has stopped: its socket is closed, its timer cancelled, and no connection that it had calls
-- it back.
pub record Stopped (fd : ℕ) (s s' : UdpServer) : Type 0 where
  pub stopped : IsStopped s'
  pub cleared : Cleared s.server s'.server
  pub closed : s'.acceptor.closed ≡ s.acceptor.closed ++ fd ∷ []
  pub cancelled : s'.cancelled ≡ cancel_checker s

stop-Stopped_udp :
    (s : UdpServer) (fd addr timer : ℕ)
    → IsServing fd addr timer s
    → Returns (Stopped fd s) (stop s)
unfolding stop Acceptor.stop_in_loop set_callback
stop-Stopped_udp s fd addr timer v =
    Returns-bind (clear_connections-Cleared s.server v.valid (can_stop s.server.cluster v.ready))
      λ server c. rw v.socket (
        returns (record {
          stopped = record {
            valid = c.valid;
            running = c.stopped;
            bare = c.threads;
            silent = refl;
          };
          cleared = c;
          closed = refl;
          cancelled = refl;
        }))
