-- ===== src/TcpConnection/Tests.antt =====
-- Runs of a connection on small inputs, and the theorems there.
use libsaf.Common.{
  ℕ, ◌≡◌, refl, arith, Bool, true, false, inl, inr, List, [], ◌∷◌, ◌++◌, none, some, Returns, ◌>>=◌,
  length,
}
use libsaf.Buffer.{Buffer, IsValid, as_string}
use libsaf.Poller.{Watched, new, added, no_events, ctl_add, insert}
use libsaf.Poller.Kernel.{replay, change}
use libsaf.Poller.Interest.{IsSynced}
use libsaf.TcpConnection.{
  Connection, Callbacks, Status, connecting, connected, disconnected, wrote, send_in_loop,
  handle_write_in_loop, close_in_loop, handle_close_in_loop, close, run_queued, shutdown,
  on_connect_established_in_loop,
}
use libsaf.TcpConnection.Stream.{
  IsLive, stream, Sent, accepted, is_direct, is_possible, send_in_loop-Sent,
}
use libsaf.TcpConnection.Flush.{Flushed, handle_write_in_loop-Flushed}
use libsaf.TcpConnection.Opening.{Opened, on_connect_established_in_loop-Opened}
use libsaf.TcpConnection.Closing.{Closed, close_calls, close_in_loop-Closed, close-twice}
use libsaf.TcpConnection.Shutdown.{flush, shutdown-forgotten}

abbrev buffered : List ℕ → Buffer
buffered bytes = record { bytes = bytes; reader_index = 0; writer_index = length bytes }

abbrev all_callbacks : Callbacks
all_callbacks = record {
  on_connect_change = true;
  on_recv_message = true;
  on_write_complete = true;
  on_close = true;
}

abbrev connection : Status → Watched → List ℕ → Connection
connection status socket output = record {
  status = status;
  socket = socket;
  shut = false;
  input = buffered [];
  output = buffered output;
  actived_time = 0;
  callbacks = all_callbacks;
  queued = [];
  calls = [];
  sent = [];
}

-- A socket of no loop, and one in loop 1 that waits for these events.
abbrev fresh : Watched
fresh = record {
  watcher = record { address = 640; fd = 5; events = no_events; status = new; looper = none };
  poller = record { fds = λ fd. none; controls = [] };
}

abbrev watching : Bool → Watched
watching write = record {
  watcher = record {
    address = 640;
    fd = 5;
    events = record { read = true; write = write };
    status = added;
    looper = some 1;
  };
  poller = record {
    fds = insert (λ fd. none) 5 (some 640);
    controls =
        record { operation = ctl_add; fd = 5; events = record { read = true; write = write } } ∷ [];
  };
}

fresh-IsSynced : IsSynced 1 fresh
unfolding replay
fresh-IsSynced = record {
  kernel = λ fd. none;
  replayed = refl;
  interest = refl;
  known = refl;
  idle = refl;
  place = inr (refl, refl);
}

watching-IsSynced : (write : Bool) → IsSynced 1 (watching write)
unfolding replay
watching-IsSynced write = record {
  kernel = change (λ fd. none) 5 (some (record { read = true; write = write }));
  replayed = refl;
  interest = refl;
  known = refl;
  idle = refl;
  place = inl refl;
}

-- Nothing waits in the first; three bytes wait in the second.
abbrev quiet : Connection
quiet = connection connected (watching false) []

abbrev busy : Connection
busy = connection connected (watching true) (1 ∷ 2 ∷ 3 ∷ [])

buffered-IsValid : (bytes : List ℕ) → IsValid (buffered bytes)
buffered-IsValid bytes = record { ordered = omega arith; inside = omega arith }

quiet-IsLive : IsLive 1 quiet
quiet-IsLive = record {
  synced = watching-IsSynced false;
  looper = refl;
  output = buffered-IsValid [];
}

busy-IsLive : IsLive 1 busy
busy-IsLive = record { synced = watching-IsSynced true; looper = refl; output = buffered-IsValid _ }

on_connect_established_in_loop-Opened_example :
    Returns (Opened 1) (on_connect_established_in_loop 1 (connection connecting fresh []))
on_connect_established_in_loop-Opened_example =
    on_connect_established_in_loop-Opened 1 (connection connecting fresh []) fresh-IsSynced
      (buffered-IsValid [])

-- The kernel takes two of three bytes.
send_in_loop-Sent_example :
    Returns
      (Sent 1 quiet (accepted (is_direct quiet) (7 ∷ 8 ∷ 9 ∷ []) (wrote 2)))
      (send_in_loop 1 quiet (7 ∷ 8 ∷ 9 ∷ []) (wrote 2))
unfolding is_possible
send_in_loop-Sent_example =
    send_in_loop-Sent 1 quiet (7 ∷ 8 ∷ 9 ∷ []) (wrote 2) quiet-IsLive (inl refl) refl

handle_write_in_loop-Flushed_example :
    Returns (Flushed 1 busy 2) (handle_write_in_loop 1 busy (wrote 2))
unfolding is_possible as_string
handle_write_in_loop-Flushed_example =
    handle_write_in_loop-Flushed 1 busy (wrote 2) busy-IsLive refl refl

close_in_loop-Closed_example : Returns (Closed 1 busy) (close_in_loop 1 busy)
close_in_loop-Closed_example = close_in_loop-Closed 1 busy busy-IsLive

close-twice_example :
    Returns
      (λ c. (c.status ≡ disconnected) × (c.calls ≡ ([] ++ close_calls busy) ++ close_calls busy))
      (close 1 false busy >>= λ c₁. handle_close_in_loop 1 c₁ >>= run_queued 1)
close-twice_example = close-twice 1 busy busy-IsLive refl refl

shutdown-forgotten_example :
    Returns
      (λ c. (c.shut ≡ false) × (stream c ≡ stream busy))
      (shutdown 1 true busy >>= flush 1 (2 ∷ 4 ∷ []))
shutdown-forgotten_example = shutdown-forgotten 1 busy (2 ∷ 4 ∷ []) busy-IsLive refl refl
