-- ===== src/UdpServer/Tests.antt =====
-- A server with two connections that had the same address, and the theorems there.
use libsaf.Common.{
  ℕ_discrete, ap, List, ℕ, ◌≤◌, ◌≡◌, refl, sym, ap, ◌∙◌, arith, true, false, Bool-cases, inl, inr,
  [], ◌∷◌, Option, none, some, Returns, ◌==◌, ==→eq, ne→==, if◌then◌else◌,
}
use libsaf.Buffer.{Buffer, as_string}
use libsaf.Server.{Server, Peer, find, remove_connection_in_loop}
use libsaf.Server.Connections.{Known, IsValid}
use libsaf.UdpServer.{recv_message_in_loop, check_expired_in_loop}
use libsaf.UdpServer.Demux.{Delivered, recv_message_in_loop-Delivered}
use libsaf.Buffer.{Receive}
use libsaf.Buffer.Input.{IsBounded}
use libsaf.Acceptor.{Acceptor, Socket, udp_handle_read_in_loop}
use libsaf.UdpServer.Receive.{callback, Handled, udp_handle_read_in_loop-Handled}
use libsaf.UdpServer.{Event, arrives, expires, runs, run}
use libsaf.UdpServer.Working.{IsWorking}
use libsaf.UdpServer.Run.{run-IsWorking}
use libsaf.UdpServer.Expiry.{Checked, check_expired_in_loop-Checked}
use libsaf.UdpServer.Removal.{Orphaned, remove_connection_in_loop-Orphaned}

abbrev address : ℕ
address = 77

-- Connection 0 has left the map and waits to be removed; connection 1 has its address.
abbrev at_first : Peer
at_first = record { key = address; loop = 10; actived_time = 0; bound = true }

abbrev at_second : Peer
at_second = record { key = address; loop = 10; actived_time = 40000; bound = true }

abbrev known_peers : ℕ → Option Peer
known_peers i = if i == 0 then some at_first else if i == 1 then some at_second else none

abbrev serving : Server
serving = record {
  running = true;
  cluster = record { master = 10; thread_count = 1; counter = 0; pairs = [] };
  connections = (address, 1) ∷ [];
  peers = known_peers;
  next = 2;
  posted = [];
}

second_found : (key id : ℕ) → find serving.connections key ≡ some id → Known serving key id
unfolding find
second_found key id e = elim (Bool-cases (address == key)) [
  | inl same ↦
      let one : some 1 ≡ some id = sym (ap (λ b. if b then some 1 else none) same) ∙ e in
      let number : 1 ≡ id = cc in
      record {
        peer = at_second;
        found = ap known_peers (sym number);
        keyed = ==→eq address key same;
        bound = refl;
      }
  | inr other ↦ let no : none ≡ some id = sym (ap (λ b. if b then some 1 else none) other) ∙ e in cc
]

later_unknown : (id : ℕ) → 2 ≤ id → known_peers id ≡ none
later_unknown id l =
    rw
      (
        ne→== id 0 (λ e. absurd (omega (arith, e, l))),
        ne→== id 1 (λ e. absurd (omega (arith, e, l))),
      )
      refl

serving-IsValid : IsValid serving
unfolding find
serving-IsValid = record { distinct = (refl, tt); known = second_found; fresh = later_unknown }

-- Four bytes of a datagram, in the acceptor's buffer.
abbrev datagram : Buffer
datagram = record { bytes = 9 ∷ 8 ∷ 7 ∷ 6 ∷ 0 ∷ []; reader_index = 0; writer_index = 4 }

recv_message_in_loop-Delivered_example :
    Returns
      (Delivered serving address (as_string datagram))
      (recv_message_in_loop serving address datagram 50000)
recv_message_in_loop-Delivered_example =
    recv_message_in_loop-Delivered serving address 50000 datagram serving-IsValid
      (inl (omega arith, refl)) (record { ordered = omega arith; inside = omega arith })

check_expired_in_loop-Checked_example :
    Returns (Checked serving 80000) (check_expired_in_loop serving 80000)
check_expired_in_loop-Checked_example = check_expired_in_loop-Checked serving 80000 serving-IsValid

remove_connection_in_loop-Orphaned_example :
    Returns (Orphaned 1) (remove_connection_in_loop serving 0)
unfolding find
remove_connection_in_loop-Orphaned_example =
    remove_connection_in_loop-Orphaned serving 0 1 at_first serving-IsValid refl refl
      (λ e. absurd (omega (arith, e)))

abbrev socket : Socket
socket = record { fd = 6; attached = true; reading = true; bound_to = some 53; listening = false }

abbrev acceptor : Acceptor
acceptor = record {
  listening = true;
  addr = 53;
  socket = some socket;
  has_callback = true;
  closed = [];
}

abbrev no_bytes : Buffer
no_bytes = record { bytes = 0 ∷ 0 ∷ []; reader_index = 1; writer_index = 1 }

no_bytes-Empty : as_string no_bytes ≡ []
unfolding as_string
no_bytes-Empty = refl

-- `recvfrom` fails.
abbrev fails : Receive
fails n = none

fails-IsBounded : IsBounded fails
fails-IsBounded n got e = cc

udp_handle_read_in_loop-Handled_example :
    Returns
      (Handled serving none 99)
      (udp_handle_read_in_loop (callback 50000) acceptor no_bytes fails 99 serving)
udp_handle_read_in_loop-Handled_example =
    udp_handle_read_in_loop-Handled acceptor socket no_bytes fails 99 50000 serving refl refl
      (record { ordered = omega arith; inside = omega arith }) no_bytes-Empty fails-IsBounded
      serving-IsValid (inl (omega arith, refl))

serving-IsWorking : IsWorking serving
serving-IsWorking = record {
  valid = serving-IsValid;
  ready = inl (omega arith, refl);
  made = λ id l. elim (ℕ_discrete id 0) [
    | yes e ↦ (at_first, ap known_peers e)
    | no ne ↦ let one : id ≡ 1 = omega (arith, l, ne) in (at_second, ap known_peers one)
  ];
  about = tt;
}

-- A new address, the expiry of the old one, and what is posted then, in another order.
abbrev script : List Event
script = arrives 5 datagram 90000 ∷ expires 95000 ∷ runs 2 95001 ∷ runs 1 95001 ∷ runs 0 95002 ∷ []

run-IsWorking_example : Returns IsWorking (run serving script)
run-IsWorking_example =
    run-IsWorking serving script serving-IsWorking
      (record { ordered = omega arith; inside = omega arith }, tt)
