-- ===== src/TcpConnector/Tests.antt =====
-- Tries to connect, and the theorems there.
use libsaf.Common.{refl, true, false, [], ◌∷◌, none, some, inl, inr, ok, Returns}
use libsaf.Poller.{IoFd, new, added, no_events, Events, ctl_add, insert}
use libsaf.Poller.Dispatch.{Flags, no_flags, handle_event}
use libsaf.Poller.Kernel.{replay, change}
use libsaf.Poller.Interest.{IsSynced}
use libsaf.TcpConnector.{
  Connector, disconnected, connecting, watched, einprogress, connect_in_loop, handlers,
}
use libsaf.TcpConnector.Refusing.{handle_event-Refused, Refused}
use libsaf.TcpConnector.Connecting.{Waits, After, connect_in_loop-After}

abbrev fresh : IoFd
fresh = record { address = 640; fd = 5; events = no_events; status = new; looper = none }

abbrev idle : Connector
idle = record {
  stopping = false;
  status = disconnected;
  socket = none;
  poller = record { fds = λ fd. none; controls = [] };
  socket_error = 0;
  reconnect_delay = 3;
  has_callback = true;
  retries = 0;
  queued = 0;
  connected_calls = 0;
}

fresh-IsSynced : IsSynced 1 (watched idle fresh)
unfolding replay
fresh-IsSynced = record {
  kernel = λ fd. none;
  replayed = refl;
  interest = refl;
  known = refl;
  idle = refl;
  place = inr (refl, refl);
}

connect_in_loop-After_example :
    Returns (After 1 idle fresh einprogress) (connect_in_loop 1 idle fresh einprogress)
connect_in_loop-After_example =
    connect_in_loop-After 1 idle fresh einprogress refl refl fresh-IsSynced refl

abbrev writes : Events
writes = record { read = false; write = true }

abbrev writer : IoFd
writer = record { address = 640; fd = 5; events = writes; status = added; looper = some 1 }

-- A connector whose socket has been refused, ECONNREFUSED.
abbrev refused : Connector
refused = record idle {
  status = connecting;
  socket = some writer;
  socket_error = 111;
  poller = record {
    fds = insert (λ fd. none) 5 (some 640);
    controls = record { operation = ctl_add; fd = 5; events = writes } ∷ [];
  };
}

refused-Waits : Waits 1 refused
unfolding replay
refused-Waits = record {
  status = refl;
  watcher = writer;
  socket = refl;
  synced = record {
    kernel = change (λ fd. none) 5 (some writes);
    replayed = refl;
    interest = refl;
    known = refl;
    idle = refl;
    place = inl refl;
  };
  looper = refl;
  writes = refl;
}

-- The error and the write flag, and no hang-up.
abbrev broken : Flags
broken = record no_flags { pollerr = true; pollout = true }

handle_event-Refused_example :
    Returns (Refused refused false) (handle_event (handlers 1 true) broken (ok refused)).world
handle_event-Refused_example = handle_event-Refused 1 true refused broken refused-Waits refl refl

-- The same with a hang-up: the close handler alone.
abbrev hung_up : Flags
hung_up = record broken { pollhup = true }

hung_up_waits :
    Returns (Refused refused true) (handle_event (handlers 1 true) hung_up (ok refused)).world
hung_up_waits = handle_event-Refused 1 true refused hung_up refused-Waits refl refl
