-- ===== src/TcpConnection/Flush.antt =====
-- handleWriteInLoop of src/net/tcp/TcpConnection.cpp: how the output buffer drains.
use libsaf.Common.{
  ℕ, ◌+◌, ◌≤◌, ◌<◌, ◌≡◌, refl, sym, ap, subst, ◌∙◌, arith, Bool, true, false, inl, inr, ◌++◌,
  append_assoc, Returns, returns, Returns-bind, Returns-inv, Returns-if, ltb, ◌<◌, ◌==◌, length,
  take, length-take, length-append, take-append-drop,
}
use libsaf.Buffer.{readable_bytes, as_string}
use libsaf.Buffer.Content.{length-as_string}
use libsaf.Buffer.Consume.{retrieve-Retrieved}
use libsaf.Poller.{is_writing}
use libsaf.Poller.Interest.{disable_write_in_loop-Moved}
use libsaf.TcpConnection.{
  Connection, Written, wrote, failed, called, write_complete, write_stopped, write_written,
  handle_write_in_loop,
}
use libsaf.TcpConnection.Stream.{IsLive, stream, is_possible, IsArmed}

-- What handleWriteInLoop does: the stream is the same, and the output buffer is armed if the write
-- succeeded.
pub record Flushed (here : ℕ) (c : Connection) (n : ℕ) (c' : Connection) : Type 0 where
  pub live : IsLive here c'
  pub stream : stream c' ≡ stream c
  pub sent : length c'.sent ≡ length c.sent + n
  pub shut : c'.shut ≡ c.shut
  pub armed : 0 < n → IsArmed c'
  pub disarmed : n ≡ 0 → is_writing c'.socket.watcher ≡ false

-- The bytes that an answer took.
abbrev pub count : Written → ℕ
count (wrote n) = n
count (failed _) = 0

-- A write event that the connection waits for.
module _ (here : ℕ) (c : Connection) (v : IsLive here c)
    (on : is_writing c.socket.watcher ≡ true) where
  stopped-Flushed : Returns (Flushed here c 0) (write_stopped here c)
  unfolding write_stopped
  stopped-Flushed =
      let (s, e, m) = Returns-inv (disable_write_in_loop-Moved here c.socket v.synced v.looper) in
      rw e (
        returns (record {
          live = record { synced = m.synced; looper = m.looper ∙ v.looper; output = v.output };
          stream = refl;
          sent = omega arith;
          shut = refl;
          armed = λ p. absurd (omega arith);
          disarmed = λ p. ap (λ e. e.write) m.events;
        }))

  called-Flushed :
      (set : Bool) (n : ℕ) (c' : Connection)
      → Flushed here c n c'
      → Flushed here c n (called set write_complete c')
  called-Flushed true n c' f = record {
    live = record { synced = f.live.synced; looper = f.live.looper; output = f.live.output };
    stream = f.stream;
    sent = f.sent;
    shut = f.shut;
    armed = f.armed;
    disarmed = f.disarmed;
  }
  called-Flushed false n c' f = f

  wrote-Flushed :
      (n : ℕ)
      → n ≤ readable_bytes c.output
      → Returns (Flushed here c n) (write_written here c (wrote n))
  unfolding write_written
  wrote-Flushed n le =
      Returns-if (ltb 0 n)
        (λ some_bytes. Returns-bind (retrieve-Retrieved c.output n v.output le) λ out r.
          let whole : (c.sent ++ take n (as_string c.output)) ++ as_string out ≡ stream c =
            append_assoc c.sent (take n (as_string c.output)) (as_string out)
            ∙ ap (λ xs. c.sent ++ (take n (as_string c.output) ++ xs)) r.content
            ∙ ap (λ xs. c.sent ++ xs) (take-append-drop n (as_string c.output)) in
          let count : length (c.sent ++ take n (as_string c.output)) ≡ length c.sent + n =
            length-append c.sent (take n (as_string c.output))
            ∙ ap (λ k. length c.sent + k)
                (length-take n (as_string c.output)
                  ∙ omega (arith, le, length-as_string c.output v.output)) in
          Returns-if (readable_bytes out == 0)
            (λ empty.
              let (s, e, m) =
                Returns-inv (disable_write_in_loop-Moved here c.socket v.synced v.looper) in
              rw e (
                returns (
                  called-Flushed c.callbacks.on_write_complete n _ (record {
                    live = record {
                      synced = m.synced;
                      looper = m.looper ∙ v.looper;
                      output = r.valid;
                    };
                    stream = whole;
                    sent = count;
                    shut = refl;
                    armed = λ p. inl (ground arith);
                    disarmed = λ z. absurd (ground arith);
                  }))))
            (λ more. returns (record {
              live = record { synced = v.synced; looper = v.looper; output = r.valid };
              stream = whole;
              sent = count;
              shut = refl;
              armed = λ p. inr on;
              disarmed = λ z. absurd (ground arith);
            })))
        (λ none_taken.
          let z : n ≡ 0 = ground arith in
          subst (λ k. Returns (Flushed here c k) (write_stopped here c)) (sym z) stopped-Flushed)

  write_written-Flushed :
      (w : Written)
      → is_possible (as_string c.output) w ≡ true
      → Returns (Flushed here c (count w)) (write_written here c w)
  unfolding write_written is_possible
  write_written-Flushed (wrote n) p =
      wrote-Flushed n (ground (arith, length-as_string c.output v.output))
  write_written-Flushed (failed e) p = stopped-Flushed

-- handleWriteInLoop, when the connection waits for its write event and `write` takes at most what
-- waits in the buffer, does not fault: as many bytes as `write` took have moved from the front of the
-- buffer to the bytes sent, in order. If it took some, what still waits keeps its write event; if it
-- took none, for whatever error, EWOULDBLOCK too, the write event is off, though bytes wait.
pub handle_write_in_loop-Flushed :
    (here : ℕ) (c : Connection) (w : Written)
    → IsLive here c
    → is_writing c.socket.watcher ≡ true
    → is_possible (as_string c.output) w ≡ true
    → Returns (Flushed here c (count w)) (handle_write_in_loop here c w)
unfolding handle_write_in_loop
handle_write_in_loop-Flushed here c w v on p =
    Returns-if (is_writing c.socket.watcher) (λ q. write_written-Flushed here c v on w p)
      (λ off. absurd (ground arith))
