-- ===== src/Server.antt =====
-- src/net/Server.h and src/net/Server.cpp, and the map of connections that src/net/tcp/TcpServer.h and
-- src/net/udp/UdpServer.h declare alike: the connections of a server, and what it posts to the loops.
--
-- An address is a number, the key of the map. A connection is a number too, in the order in which the
-- server made them, and `peers` says what it is. `unordered_map` leaves the order of its entries open:
-- here the last that was put is the first. A posted functor names its loop; which loop runs next is
-- for the machine to choose. The server's own loop is the cluster's master.
pub mod Map
pub mod Connections
pub mod Listed
pub mod Clear
use libsaf.Common.{
  ℕ, ◌+◌, ◌≡◌, Bool, true, false, List, [], ◌∷◌, ◌++◌, Option, none, some, Result, ok, fault,
  null_pointer, or_fault, ◌>>=◌, ◌==◌, if◌then◌else◌,
}
use libsaf.EventLoopCluster
use libsaf.EventLoopCluster.{EventLoopCluster, get_next_loop}

abbrev pub Entries : Type 0
Entries = List (ℕ × ℕ)

unfoldable pub find : Entries → ℕ → Option ℕ
find [] key = none
find ((k, id) ∷ rest) key = let found = find rest key in if k == key then some id else found

unfoldable pub erase : Entries → ℕ → Entries
erase [] key = []
erase ((k, id) ∷ rest) key = if k == key then erase rest key else (k, id) ∷ erase rest key

-- `_connections[key] = conn`
abbrev pub put : Entries → ℕ → ℕ → Entries
put m key id = (key, id) ∷ erase m key

-- A connection, as the server sees it: `bound` while its close callback is the server's.
pub record Peer : Type 0 where
  pub key : ℕ
  pub loop : ℕ
  pub actived_time : ℕ
  pub bound : Bool

pub data Functor : Type 0 where
  establishes closes removes : ℕ → Functor
  reads : ℕ → List ℕ → Functor

pub record Posted : Type 0 where
  pub loop : ℕ
  pub functor : Functor

pub record Server : Type 0 where
  pub running : Bool
  pub cluster : EventLoopCluster
  pub connections : Entries
  pub peers : ℕ → Option Peer
  pub next : ℕ
  pub posted : List Posted

abbrev pub post : Server → ℕ → Functor → Server
post s loop f = record s { posted = s.posted ++ record { loop = loop; functor = f } ∷ [] }

abbrev pub set_peer : Server → ℕ → Peer → Server
set_peer s id p = record s { peers = λ i. if i == id then some p else s.peers i }

abbrev pub peer : Server → ℕ → Result Peer
peer s id = or_fault (s.peers id) null_pointer

unfoldable pub bind_default_callbacks : Server → ℕ → Peer → Server
bind_default_callbacks s id p = set_peer s id (record p { bound = true })

unfoldable pub unbind_default_callbacks : Server → ℕ → Peer → Server
unbind_default_callbacks s id p = set_peer s id (record p { bound = false })

-- notifyConnectionEstablished
unfoldable pub notify_connection_established : Server → ℕ → Peer → Server
unfolding bind_default_callbacks
notify_connection_established s id p = post (bind_default_callbacks s id p) p.loop (establishes id)

-- A new connection of the next loop, in the map and established.
unfoldable pub new_connection : Server → ℕ → ℕ → Result Server
new_connection s key now = do
  (next_loop, cluster) ← get_next_loop s.cluster
  loop ← or_fault next_loop null_pointer
  let p : Peer = record { key = key; loop = loop; actived_time = now; bound = false }
  let made = record (set_peer s s.next p) {
    cluster = cluster;
    connections = put s.connections key s.next;
    next = s.next + 1;
  }
  ok (notify_connection_established made s.next p)

-- onClosedInConnection, which the close callback calls
unfoldable pub on_closed_in_connection : Server → ℕ → Server
on_closed_in_connection s id = post s s.cluster.master (removes id)

-- closeInLoop of the connection, as far as the server sees it
unfoldable pub close_in_loop : Server → ℕ → Peer → Server
close_in_loop s id p = if p.bound then on_closed_in_connection s id else s

-- close() of a UdpConnection, called in the server's loop; TcpServer has that of a TcpConnection
unfoldable pub close : Server → ℕ → Peer → Server
close s id p =
    if p.loop == s.cluster.master then close_in_loop s id p else post s p.loop (closes id)

unfoldable pub remove_connection_in_loop : Server → ℕ → Result Server
remove_connection_in_loop s id = peer s id >>= λ p.
    ok (record (unbind_default_callbacks s id p) { connections = erase s.connections p.key })

-- A posted functor that its loop runs; `handleReadInLoop` of a connection notes the time.
unfoldable pub run_functor : Server → ℕ → Functor → Result Server
run_functor s now (establishes id) = ok s
run_functor s now (reads id bytes) =
    peer s id >>= λ p. ok (set_peer s id (record p { actived_time = now }))
run_functor s now (closes id) = peer s id >>= λ p. ok (close_in_loop s id p)
run_functor s now (removes id) = remove_connection_in_loop s id

-- The part of UdpServer's stop() that clears all connections and stops the cluster.
unfoldable pub unbind_and_close : Server → Entries → Result Server
unbind_and_close s [] = ok s
unbind_and_close s ((key, id) ∷ rest) = peer s id >>= λ p.
    unbind_and_close (close (unbind_default_callbacks s id p) id (record p { bound = false })) rest

unfoldable pub clear_connections : Server → Result Server
clear_connections s = do
  s' ← unbind_and_close s s.connections
  cluster ← EventLoopCluster.stop s'.cluster
  ok (record s' { running = false; connections = []; cluster = cluster })
