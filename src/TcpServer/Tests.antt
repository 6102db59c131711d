-- ===== src/TcpServer/Tests.antt =====
-- A server that starts with two loops, and the theorems there.
use libsaf.Common.{
  ℕ, ◌≡◌, refl, true, false, List, [], ◌∷◌, map, Option, none, some, Result, ok, fault, Returns,
  ◌==◌, if◌then◌else◌,
}
use libsaf.EventLoopCluster
use libsaf.EventLoopCluster.{ready, stop_all, all_stopped, stop_pair}
use libsaf.Server
use libsaf.Server.{Server, Peer, Posted, closes, find, unbind_default_callbacks}
use libsaf.Server.Connections.{IsValid}
use libsaf.TcpConnection.{connecting, connected}
use libsaf.Acceptor.{stop_in_loop, set_callback}
use libsaf.TcpServer.{Link, TcpServer, start, stop, close, unbind_and_close, handle_accepts}
use libsaf.TcpServer.Serving.{IsStopped, IsServing, serving_socket, succeed}
use libsaf.TcpServer.Accepting.{Accepted, start-Accepted}

abbrev nobody : Server
nobody = record {
  running = false;
  cluster = record { master = 10; thread_count = 1; counter = 0; pairs = [] };
  connections = [];
  peers = λ i. none;
  next = 0;
  posted = [];
}

nobody-IsValid : IsValid nobody
unfolding find
nobody-IsValid = record { distinct = tt; known = λ key id e. cc; fresh = λ id l. refl }

abbrev created : TcpServer
created = record {
  server = nobody;
  links = λ i. none;
  acceptor = record {
    listening = false;
    addr = 0;
    socket = none;
    has_callback = false;
    closed = [];
  };
}

created-IsStopped : IsStopped created
unfolding find
created-IsStopped = record {
  valid = nobody-IsValid;
  linked = λ key id e. cc;
  running = refl;
  bare = refl;
  silent = refl;
}

start-Accepted_example :
    Returns
      (λ s'.
        IsServing 3 80 s'
        × Returns
            (Accepted 3 80 ((4, 501) ∷ (5, 502) ∷ []) s')
            (handle_accepts s' ((4, 501) ∷ (5, 502) ∷ [])))
      (start created 80 (11 ∷ 12 ∷ []) (succeed 3))
start-Accepted_example =
    start-Accepted created 80 3 (11 ∷ 12 ∷ []) ((4, 501) ∷ (5, 502) ∷ []) created-IsStopped

-- Connection 0 is connected, and connection 1 is connecting.
abbrev first_peer : Peer
first_peer = record { key = 501; loop = 11; actived_time = 0; bound = true }

abbrev second_peer : Peer
second_peer = record { key = 502; loop = 12; actived_time = 0; bound = true }

abbrev first_link : Link
first_link = record { socket = 4; status = connected }

abbrev second_link : Link
second_link = record { socket = 5; status = connecting }

abbrev two : {V : Type 0} → V → V → ℕ → Option V
two a b i = if i == 0 then some a else if i == 1 then some b else none

abbrev serving : TcpServer
serving = record {
  server = record {
    running = true;
    cluster = record {
      master = 10;
      thread_count = 2;
      counter = 0;
      pairs = map ready (11 ∷ 12 ∷ []);
    };
    connections = (502, 1) ∷ (501, 0) ∷ [];
    peers = two first_peer second_peer;
    next = 2;
    posted = [];
  };
  links = two first_link second_link;
  acceptor = record {
    listening = true;
    addr = 80;
    socket = some (serving_socket 3 80);
    has_callback = true;
    closed = [];
  };
}

-- Only the connected one is closed.
closings : Result TcpServer → List Posted
closings (ok s) = s.server.posted
closings (fault f) = []

one_closed : closings (stop serving) ≡ record { loop = 11; functor = closes 0 } ∷ []
unfolding closings stop unbind_and_close close Server.close unbind_default_callbacks stop_in_loop
    set_callback EventLoopCluster.stop stop_all all_stopped stop_pair
one_closed = refl
