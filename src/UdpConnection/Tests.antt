-- ===== src/UdpConnection/Tests.antt =====
-- Runs of a connection on small inputs, and the theorems there.
use libsaf.Common.{ℕ, refl, arith, true, false, List, [], ◌∷◌, Returns}
use libsaf.Buffer.{Buffer, IsValid}
use libsaf.TcpConnection.{Written, wrote, failed, ewouldblock}
use libsaf.UdpConnection.{UdpConnection}
use libsaf.UdpConnection.Stream.{Sent, IsFlowing, writes}
use libsaf.UdpConnection.Script.{Event, sends, runs, run, submitted, run-Sent}
use libsaf.UdpConnection.Stall.{Stalled, takes_nothing, sends-Stalled}
use libsaf.UdpConnection.Stall

abbrev empty : Buffer
empty = record { bytes = []; reader_index = 0; writer_index = 0 }

abbrev idle : UdpConnection
idle = record {
  connecting = true;
  writing = false;
  sender_fd = 5;
  input = empty;
  output = empty;
  actived_time = 0;
  callbacks = record {
    on_connect_change = true;
    on_recv_message = true;
    on_write_complete = true;
    on_close = true;
  };
  queued = [];
  calls = [];
  sent = [];
}

empty-IsValid : IsValid empty
empty-IsValid = record { ordered = omega arith; inside = omega arith }

idle-IsFlowing : IsFlowing idle
unfolding writes
idle-IsFlowing = record {
  valid = empty-IsValid;
  sender = refl;
  idle = λ off. refl;
  busy = λ on. cc;
  queued = refl;
}

-- The kernel takes two bytes of three, then one of two, then the last.
abbrev three_then_one : List Event
three_then_one = sends 1 (2 ∷ 3 ∷ []) 1 ∷ sends 4 [] 7 ∷ runs 0 ∷ runs 7 ∷ []

run-Sent_example : Returns (Sent idle (submitted three_then_one)) (run idle three_then_one)
run-Sent_example = run-Sent idle three_then_one idle-IsFlowing

abbrev later_sends : List (List ℕ × Written)
later_sends = (3 ∷ [], wrote 3) ∷ (4 ∷ 5 ∷ [], wrote 5) ∷ []

sends-Stalled_example :
    Returns
      (Stalled idle (Stall.submitted ((1 ∷ 2 ∷ [], failed ewouldblock) ∷ later_sends)))
      (Stall.sends idle ((1 ∷ 2 ∷ [], failed ewouldblock) ∷ later_sends))
unfolding takes_nothing
sends-Stalled_example =
    sends-Stalled idle (1 ∷ 2 ∷ []) (failed ewouldblock) later_sends empty-IsValid refl
