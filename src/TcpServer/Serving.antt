-- ===== src/TcpServer/Serving.antt =====
-- What a server of src/net/tcp/TcpServer.cpp goes through: it starts.
use libsaf.Common.{
  ℕ, ◌≡◌, inl, inr, refl, ap, true, false, List, [], some, Returns, returns, Returns-bind,
  Returns-map, ltb→le, ltb, Bool-cases, ltb→lt, length,
}
use libsaf.EventLoopCluster
use libsaf.EventLoopCluster.{EventLoopCluster, Pair, all_stopped}
use libsaf.EventLoopCluster.Rotation.{start-IsRunning}
use libsaf.Server.{Server, find}
use libsaf.Server.Connections.{IsValid, HasLoops}
use libsaf.Server.Clear.{CanStop}
use libsaf.Acceptor.{Acceptor, Answers, Socket, set_callback, listen_in_loop}
use libsaf.TcpServer.{Link, TcpServer, start}

-- Every connection of the map has its link.
abbrev pub IsLinked : TcpServer → Type 0
IsLinked s =
    (key id : ℕ) → find s.server.connections key ≡ some id → (l : Link) × (s.links id ≡ some l)

-- Before start(), and after stop().
pub record IsStopped (s : TcpServer) : Type 0 where
  pub valid : IsValid s.server
  pub linked : IsLinked s
  pub running : s.server.running ≡ false
  pub bare : s.server.cluster.pairs ≡ []
  pub silent : s.acceptor.listening ≡ false

abbrev pub serving_socket : ℕ → ℕ → Socket
serving_socket fd addr = record {
  fd = fd;
  attached = true;
  reading = true;
  bound_to = some addr;
  listening = true;
}

-- Between start() and stop(), on an address and with a socket.
pub record IsServing (fd addr : ℕ) (s : TcpServer) : Type 0 where
  pub valid : IsValid s.server
  pub linked : IsLinked s
  pub running : s.server.running ≡ true
  pub ready : HasLoops s.server.cluster
  pub listening : s.acceptor.listening ≡ true
  pub socket : s.acceptor.socket ≡ some (serving_socket fd addr)
  pub called : s.acceptor.has_callback ≡ true

-- The system calls succeed.
abbrev pub succeed : ℕ → Answers
succeed fd = record { socket = some fd; binds = true; listens = true }

start_few :
    (c : EventLoopCluster) (loops : List ℕ)
    → c.pairs ≡ []
    → ltb 1 (length loops) ≡ false
    → Returns HasLoops (EventLoopCluster.start c loops)
unfolding EventLoopCluster.start all_stopped
start_few c loops bare few =
    let stopped : all_stopped c.pairs ≡ true = ap all_stopped bare in
    rw (stopped, few) (returns (inl (ltb→le _ _ few, refl)))

pub start-HasLoops :
    (c : EventLoopCluster) (loops : List ℕ)
    → c.pairs ≡ []
    → Returns HasLoops (EventLoopCluster.start c loops)
start-HasLoops c loops bare = elim (Bool-cases (ltb 1 (length loops))) [
  | inl many ↦ Returns-map (start-IsRunning loops c bare (ltb→lt _ _ many)) λ c' r. inr (loops, r)
  | inr few ↦ start_few c loops bare few
]

pub can_stop : (c : EventLoopCluster) → HasLoops c → CanStop c
can_stop c (inl (few, bare)) = inl bare
can_stop c (inr running) = inr running

-- The acceptor that listens.
record Opened (fd addr : ℕ) (a : Acceptor) : Type 0 where
  listening : a.listening ≡ true
  socket : a.socket ≡ some (serving_socket fd addr)
  called : a.has_callback ≡ true

listen_in_loop-Opened :
    (a : Acceptor) (fd addr : ℕ)
    → a.listening ≡ false
    → Returns (Opened fd addr) (listen_in_loop (set_callback a true) addr (succeed fd))
unfolding listen_in_loop set_callback
listen_in_loop-Opened a fd addr silent =
    rw silent (returns (record { listening = refl; socket = refl; called = refl }))

pub running-IsValid :
    (s : Server) (c : EventLoopCluster)
    → IsValid s
    → IsValid (record s { running = true; cluster = c })
running-IsValid s c v = record {
  distinct = v.distinct;
  known = λ key id e.
      let k = v.known key id e in
      record { peer = k.peer; found = k.found; keyed = k.keyed; bound = k.bound };
  fresh = v.fresh;
}

pub start-IsServing :
    (s : TcpServer) (addr fd : ℕ) (loops : List ℕ)
    → IsStopped s
    → Returns (IsServing fd addr) (start s addr loops (succeed fd))
unfolding start
start-IsServing s addr fd loops h = rw h.running (
    Returns-bind (start-HasLoops s.server.cluster loops h.bare) λ c ready.
      Returns-bind (listen_in_loop-Opened s.acceptor fd addr h.silent) λ a o. returns (record {
        valid = running-IsValid s.server c h.valid;
        linked = h.linked;
        running = refl;
        ready = ready;
        listening = o.listening;
        socket = o.socket;
        called = o.called;
      }))
