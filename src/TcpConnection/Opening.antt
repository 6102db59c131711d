-- ===== src/TcpConnection/Opening.antt =====
-- onConnectEstablishedInLoop of src/net/tcp/TcpConnection.cpp.
use libsaf.Common.{ℕ, ◌≡◌, refl, ap, ◌∙◌, Bool, true, false, Returns, returns, Returns-bind}
use libsaf.Buffer.{IsValid}
use libsaf.Poller.{is_reading}
use libsaf.Poller.Session.{attach_in_loop-Attached}
use libsaf.Poller.Interest.{IsSynced, enable_read_in_loop-Moved}
use libsaf.TcpConnection.{
  Connection, connected, called, connect_change, on_connect_established_in_loop,
}
use libsaf.TcpConnection.Stream.{IsLive}

-- Live, connected, and reading.
pub record Opened (here : ℕ) (c : Connection) : Type 0 where
  pub live : IsLive here c
  pub status : c.status ≡ connected
  pub reads : is_reading c.socket.watcher ≡ true

called-Opened :
    (here : ℕ) (set : Bool) (c : Connection)
    → Opened here c
    → Opened here (called set connect_change c)
called-Opened here true c o = record {
  live = record { synced = o.live.synced; looper = o.live.looper; output = o.live.output };
  status = o.status;
  reads = o.reads;
}
called-Opened here false c o = o

-- onConnectEstablishedInLoop does not fault on a connection whose socket is in step with its poller
-- and whose output buffer is valid: the connection is then connected, in the loop of the thread, still
-- in step with the poller and the kernel, and waits for its read event.
pub on_connect_established_in_loop-Opened :
    (here : ℕ) (c : Connection)
    → IsSynced here c.socket
    → IsValid c.output
    → Returns (Opened here) (on_connect_established_in_loop here c)
unfolding on_connect_established_in_loop
on_connect_established_in_loop-Opened here c v out =
    Returns-bind (attach_in_loop-Attached here c.socket v) λ s a.
      Returns-bind (enable_read_in_loop-Moved here s a.synced a.looper) λ s' m. returns (
        called-Opened here c.callbacks.on_connect_change _ (record {
          live = record { synced = m.synced; looper = m.looper ∙ a.looper; output = out };
          status = refl;
          reads = ap (λ e. e.read) m.events;
        }))
