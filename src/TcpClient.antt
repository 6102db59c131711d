-- ===== src/TcpClient.antt =====
-- src/net/Client.h, src/net/Client.cpp, src/net/tcp/TcpClient.h and src/net/tcp/TcpClient.cpp: a
-- client with one connection, which its connector makes.
--
-- An address and a connection are numbers, a connection in the order in which they are made, and
-- `bound` holds of those whose close callback is the client's. Of the connector there are the
-- addresses it was told to connect to, how often it was told to disconnect, and `trying`, whether it
-- can still hand over a socket: it hands over one for each request, as src/net/tcp/TcpConnector.cpp
-- does. `closed` are the connections that the client has closed. All its connections are in its loop.
pub mod Reconnect
mod Tests
use libsaf.Common.{
  ℕ, ◌+◌, ◌≡◌, Bool, true, false, ◌&&◌, List, [], ◌∷◌, ◌++◌, Option, none, some, Result, ok, fault,
  assertion, assert, ◌>>=◌, ltb, ◌==◌, if◌then◌else◌,
}

pub data Functor : Type 0 where
  connects : ℕ → Functor
  disconnects reconnects : Functor

pub record TcpClient : Type 0 where
  pub connecting : Bool
  pub reconnect_delay : ℕ
  pub addr : ℕ
  pub connection : Option ℕ
  pub bound : ℕ → Bool
  pub next : ℕ
  pub has_callback : Bool
  pub trying : Bool
  pub requests : List ℕ
  pub cancels : ℕ
  pub established : List ℕ
  pub closed : List ℕ
  pub queued : List Functor

abbrev pub bind : Bool → TcpClient → ℕ → TcpClient
bind b c id = record c { bound = λ i. if i == id then b else c.bound i }

unfoldable pub bind_default_callbacks : TcpClient → ℕ → TcpClient
bind_default_callbacks c id = bind true c id

unfoldable pub unbind_default_callbacks : TcpClient → ℕ → TcpClient
unbind_default_callbacks c id = bind false c id

-- notifyConnectionEstablished, in the loop of the connection
unfoldable pub notify_connection_established : TcpClient → ℕ → TcpClient
unfolding bind_default_callbacks
notify_connection_established c id = record (bind_default_callbacks c id) {
  established = c.established ++ id ∷ [];
}

-- The functor of connect()
unfoldable pub connect_in_loop : TcpClient → ℕ → TcpClient
connect_in_loop c addr = record c {
  addr = addr;
  has_callback = true;
  trying = true;
  requests = c.requests ++ addr ∷ [];
}

abbrev pub drop_connection : TcpClient → Option ℕ → TcpClient
drop_connection c none = c
drop_connection c (some id) = record (unbind_default_callbacks c id) {
  closed = c.closed ++ id ∷ [];
  connection = none;
}

-- The functor of disconnect()
unfoldable pub disconnect_in_loop : TcpClient → TcpClient
disconnect_in_loop c =
    drop_connection (record c { trying = false; cancels = c.cancels + 1 }) c.connection

-- connect() in the loop's thread, or in another, where the functor is queued.
unfoldable pub connect : Bool → TcpClient → ℕ → TcpClient
connect in_thread c addr =
    let c' = record c { connecting = true } in
    if c.connecting
    then c
    else if in_thread
    then connect_in_loop c' addr
    else record c' { queued = c'.queued ++ connects addr ∷ [] }

unfoldable pub disconnect : Bool → TcpClient → TcpClient
disconnect in_thread c =
    let c' = record c { connecting = false } in
    if in_thread
    then disconnect_in_loop c'
    else record c' { queued = c'.queued ++ disconnects ∷ [] }

abbrev pub is_connection : Option ℕ → ℕ → Bool
is_connection none id = false
is_connection (some own) id = own == id

unfoldable pub remove_connection_in_loop : TcpClient → ℕ → Result TcpClient
remove_connection_in_loop c id =
    assert (is_connection c.connection id)
      (ok (record (unbind_default_callbacks c id) { connection = none }))

-- newConnectionInLoop, which takes the socket
unfoldable pub new_connection_in_loop : TcpClient → TcpClient
new_connection_in_loop c =
    notify_connection_established (record c { connection = some c.next; next = c.next + 1 }) c.next

-- onClosedInConnection, in the loop's thread
unfoldable pub on_closed_in_connection : TcpClient → ℕ → Result TcpClient
on_closed_in_connection c id = remove_connection_in_loop c id >>= λ c'. ok (
    if c'.connecting && ltb 0 c'.reconnect_delay
    then record c' { queued = c'.queued ++ reconnects ∷ [] }
    else c')

unfoldable pub run_functor : TcpClient → Functor → TcpClient
run_functor c (connects addr) = connect_in_loop c addr
run_functor c disconnects = disconnect_in_loop c
run_functor c reconnects = connect true c c.addr

-- What happens to a client: calls, a socket of its connector, the end of a connection, and the turn
-- of the next functor.
pub data Event : Type 0 where
  calls_connect : Bool → ℕ → Event
  calls_disconnect : Bool → Event
  connected runs : Event
  ends : ℕ → Event

abbrev pub run_next : TcpClient → List Functor → TcpClient
run_next c [] = c
run_next c (f ∷ fs) = run_functor (record c { queued = fs }) f

unfoldable pub hand_over : TcpClient → TcpClient
hand_over c =
    if c.has_callback && c.trying then new_connection_in_loop (record c { trying = false }) else c

unfoldable pub step : TcpClient → Event → Result TcpClient
step c (calls_connect in_thread addr) = ok (connect in_thread c addr)
step c (calls_disconnect in_thread) = ok (disconnect in_thread c)
step c connected = ok (hand_over c)
step c runs = ok (run_next c c.queued)
step c (ends id) = if c.bound id then on_closed_in_connection c id else ok c

unfoldable pub run : TcpClient → List Event → Result TcpClient
run c [] = ok c
run c (e ∷ es) = step c e >>= λ c'. run c' es
