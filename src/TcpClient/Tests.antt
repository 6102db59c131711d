-- ===== src/TcpClient/Tests.antt =====
-- A client with a delay for reconnecting, and the theorem when its connection ends.
use libsaf.Common.{refl, sym, true, false, [], ◌∷◌, some, ◌==◌, ne→==, Returns, if◌then◌else◌}
use libsaf.TcpClient.{TcpClient, calls_connect, connected, runs, ends, run}
use libsaf.TcpClient.Reconnect.{IsConnected, Lost, ends-Lost_forever}

abbrev talking : TcpClient
talking = record {
  connecting = true;
  reconnect_delay = 3;
  addr = 8080;
  connection = some 0;
  bound = λ i. if i == 0 then true else false;
  next = 1;
  has_callback = true;
  trying = false;
  requests = 8080 ∷ [];
  cancels = 0;
  established = 0 ∷ [];
  closed = [];
  queued = [];
}

talking-IsConnected : IsConnected talking 0
talking-IsConnected = record {
  connecting = refl;
  connection = refl;
  bound = refl;
  alone = λ i ne. rw (ne→== i 0 (λ e. ne (sym e))) refl;
  still = refl;
  idle = refl;
}

-- The queued functor runs, and the user calls connect() too.
ends-Lost_forever_example :
    Returns
      (Lost (8080 ∷ []) (0 ∷ []))
      (run talking (ends 0 ∷ runs ∷ calls_connect false 8080 ∷ connected ∷ []))
ends-Lost_forever_example =
    ends-Lost_forever talking 0 (runs ∷ calls_connect false 8080 ∷ connected ∷ [])
      talking-IsConnected tt
