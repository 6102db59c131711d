-- ===== src/UdpServer.antt =====
-- src/net/udp/UdpServer.h and src/net/udp/UdpServer.cpp: one connection for each address that datagrams
-- come from, until it has been silent for 30 seconds.
pub mod Demux
pub mod Expiry
pub mod Removal
pub mod Receive
pub mod Life
pub mod Working
pub mod Run
mod Tests
use libsaf.Common.{
  zero, suc, get_elem?, ℕ, ◌+◌, ◌≡◌, Bool, true, false, not, List, [], ◌∷◌, ◌++◌, Option, none,
  some, Result, ok, ◌>>=◌, ltb, ◌==◌, if◌then◌else◌,
}
use libsaf.Buffer.{Buffer, retrieve_all_as_string}
use libsaf.EventLoopCluster
use libsaf.Server.{
  Posted, run_functor, Server, Peer, Entries, find, peer, post, reads, new_connection, close,
  remove_connection_in_loop, set_peer,
}

abbrev pub expired_time : ℕ
expired_time = 30000

-- The connection of an address: the one in the map, or a new one.
abbrev connection_of : Option ℕ → Server → ℕ → ℕ → Result (ℕ × Server)
connection_of (some id) s key now = ok (id, s)
connection_of none s key now = new_connection s key now >>= λ s'. ok (s.next, s')

-- The content of the acceptor's buffer goes to the connection, in its loop.
unfoldable pub deliver : Server → ℕ → List ℕ → Result Server
deliver s id bytes = peer s id >>= λ p. ok (post s p.loop (reads id bytes))

unfoldable pub recv_message_in_loop : Server → ℕ → Buffer → ℕ → Result (Buffer × Server)
recv_message_in_loop s key buffer now = do
  (id, s') ← connection_of (find s.connections key) s key now
  (bytes, rest) ← retrieve_all_as_string buffer
  s'' ← deliver s' id bytes
  ok (rest, s'')

unfoldable pub is_expired : Server → ℕ → ℕ → Result Bool
is_expired s now id = peer s id >>= λ p. ok (ltb (p.actived_time + expired_time) now)

-- The loop over the map: the entries that stay, and the connections that do not.
unfoldable pub split_expired : Server → ℕ → Entries → Result (Entries × List ℕ)
split_expired s now [] = ok ([], [])
split_expired s now ((key, id) ∷ rest) = do
  expired ← is_expired s now id
  (kept, deletes) ← split_expired s now rest
  ok (if expired then (kept, id ∷ deletes) else ((key, id) ∷ kept, deletes))

unfoldable pub close_all : Server → List ℕ → Result Server
close_all s [] = ok s
close_all s (id ∷ ids) = peer s id >>= λ p. close_all (close s id p) ids

unfoldable pub check_expired_in_loop : Server → ℕ → Result Server
check_expired_in_loop s now = do
  (kept, deletes) ← split_expired s now s.connections
  close_all (record s { connections = kept }) deletes

-- What happens to a server between start() and stop(): a datagram in the acceptor's buffer, the timer of
-- the expiry, and a posted functor, by its place, that its loop runs.
pub data Event : Type 0 where
  arrives : ℕ → Buffer → ℕ → Event
  expires : ℕ → Event
  runs : ℕ → ℕ → Event

abbrev pub remove_at : ℕ → List Posted → List Posted
remove_at i [] = []
remove_at zero (p ∷ ps) = ps
remove_at (suc i) (p ∷ ps) = p ∷ remove_at i ps

abbrev pub run_posted : Server → ℕ → Option Posted → Result Server
run_posted s now none = ok s
run_posted s now (some p) = run_functor s now p.functor

unfoldable pub step : Server → Event → Result Server
step s (arrives key buffer now) = recv_message_in_loop s key buffer now >>= λ r. ok r.1
step s (expires now) = check_expired_in_loop s now
step s (runs i now) =
    run_posted (record s { posted = remove_at i s.posted }) now (get_elem? s.posted i)

unfoldable pub run : Server → List Event → Result Server
run s [] = ok s
run s (e ∷ es) = step s e >>= λ s'. run s' es
