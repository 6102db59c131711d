-- ===== src/TcpConnection/Stream.antt =====
-- sendInLoop of src/net/tcp/TcpConnection.cpp: the bytes that the kernel has
-- taken and the bytes that wait in the output buffer are one stream.
use libsaf.Common.{
  ℕ, ◌-◌, ◌≤◌, ◌≡◌, ◌⊎◌, sym, ap, ◌∙◌, arith, Bool, true, false, not, ◌&&◌, Bool-cases, inl, inr,
  some, List, [], ◌∷◌, ◌++◌, append_assoc, append-nil, Returns, returns, Returns-bind, Returns-map,
  Returns-inv, Returns-if, ltb, leb, leb→le, ◌==◌, if◌then◌else◌, length, take, drop,
  take-append-drop, take-all,
}
use libsaf.Buffer.{readable_bytes, as_string, IsValid}
use libsaf.Buffer.Content.{append-Appended}
use libsaf.Poller.{is_writing}
use libsaf.Poller.Interest.{IsSynced, enable_write_in_loop-Moved}
use libsaf.TcpConnection.{
  Connection, Written, wrote, failed, Errno, is_fault_error, queue, write_complete_functor,
  buffer_rest, remaining, send_written, send_in_loop,
}

-- The connection is in the loop of this thread, in step with its poller, and its buffer is valid.
pub record IsLive (here : ℕ) (c : Connection) : Type 0 where
  pub synced : IsSynced here c.socket
  pub looper : c.socket.watcher.looper ≡ some here
  pub output : IsValid c.output

-- Every byte that was sent, in order.
abbrev pub stream : Connection → List ℕ
stream c = c.sent ++ as_string c.output

-- `write` takes at most what it is given.
unfoldable pub is_possible : List ℕ → Written → Bool
is_possible src (wrote n) = leb n (length src)
is_possible src (failed _) = true

-- The bytes that sendInLoop drops: a direct `write` has failed because the peer is gone.
unfoldable pub accepted : Bool → List ℕ → Written → List ℕ
accepted true src (failed e) = if is_fault_error e then [] else src
accepted _ src w = src

-- Nothing waits in the buffer unless the watcher asks for write events.
abbrev pub IsArmed : Connection → Type 0
IsArmed c = readable_bytes c.output ≡ 0 ⊎ is_writing c.socket.watcher ≡ true

-- What sending does: the stream grows by `src`, and the connection stays live and armed.
pub record Sent (here : ℕ) (c : Connection) (src : List ℕ) (c' : Connection) : Type 0 where
  pub live : IsLive here c'
  pub stream : stream c' ≡ stream c ++ src
  pub armed : IsArmed c'

module _ (here : ℕ) (c : Connection) (v : IsLive here c) where
  buffer_rest-Sent : (rest : List ℕ) → Returns (Sent here c rest) (buffer_rest here c rest)
  unfolding buffer_rest
  buffer_rest-Sent rest = Returns-bind (append-Appended c.output rest v.output) λ out a.
      let grown : c.sent ++ as_string out ≡ stream c ++ rest =
        ap (λ xs. c.sent ++ xs) a.content ∙ sym (append_assoc c.sent (as_string c.output) rest) in
      Returns-if (not (is_writing c.socket.watcher))
        (λ p.
          let (s, e, m) =
            Returns-inv (enable_write_in_loop-Moved here c.socket v.synced v.looper) in
          rw e (
            returns (record {
              live = record { synced = m.synced; looper = m.looper ∙ v.looper; output = a.valid };
              stream = grown;
              armed = inr (ap (λ e. e.write) m.events);
            })))
        (λ p. returns (record {
          live = record { synced = v.synced; looper = v.looper; output = a.valid };
          stream = grown;
          armed = inr (ground arith);
        }))

  remaining-Sent : (rest : List ℕ) → IsArmed c → Returns (Sent here c rest) (remaining here c rest)
  unfolding remaining
  remaining-Sent rest armed =
      Returns-if (ltb 0 (length rest)) (λ p. buffer_rest-Sent rest)
        (λ p. returns (record { live = v; stream = nothing rest p; armed = armed }))
    where
      nothing : (rest : List ℕ) → ltb 0 (length rest) ≡ false → stream c ≡ stream c ++ rest
      nothing [] p = sym (append-nil (stream c))
      nothing (x ∷ xs) p = absurd (ground arith)

pub taken-IsLive :
    (here : ℕ) (c : Connection) (src : List ℕ)
    → IsLive here c
    → IsLive here (record c { sent = c.sent ++ src })
taken-IsLive here c src v = record { synced = v.synced; looper = v.looper; output = v.output }

module _ (here : ℕ) (c : Connection) (v : IsLive here c) (empty : readable_bytes c.output ≡ 0) where
  as_string-empty : as_string c.output ≡ []
  unfolding as_string
  as_string-empty = rw empty

  -- Bytes that go past an empty buffer
  past : (src : List ℕ) → (c.sent ++ src) ++ as_string c.output ≡ stream c ++ src
  past src = rw (as_string-empty, append-nil (c.sent ++ src), append-nil c.sent)

  written-Sent :
      (src : List ℕ) (n : ℕ)
      → n ≤ length src
      → Returns (Sent here c src) (send_written here c src (wrote n))
  unfolding send_written
  written-Sent src n le =
      Returns-if (length src - n == 0)
        (λ all.
          let whole : take n src ≡ src = take-all n src (ground arith) in
          let through : (c.sent ++ take n src) ++ as_string c.output ≡ stream c ++ src =
            past (take n src) ∙ ap (λ xs. stream c ++ xs) whole in
          returns (complete c.callbacks.on_write_complete (take n src) through))
        (λ part.
          let c' = record c { sent = c.sent ++ take n src } in
          let through : stream c' ++ drop n src ≡ stream c ++ src =
            ap (λ xs. xs ++ drop n src) (past (take n src))
            ∙ append_assoc (stream c) (take n src) (drop n src)
            ∙ ap (λ xs. stream c ++ xs) (take-append-drop n src) in
          Returns-map
            (remaining-Sent here c' (taken-IsLive here c (take n src) v) (drop n src) (inl empty))
            λ c'' s. record { live = s.live; stream = s.stream ∙ through; armed = s.armed })
    where
      complete :
          (on : Bool) (front : List ℕ)
          → (c.sent ++ front) ++ as_string c.output ≡ stream c ++ src
          → Sent here c src (
              if on
              then queue (record c { sent = c.sent ++ front }) write_complete_functor
              else record c { sent = c.sent ++ front })
      complete true front e = record {
        live = record { synced = v.synced; looper = v.looper; output = v.output };
        stream = e;
        armed = inl empty;
      }
      complete false front e = record {
        live = record { synced = v.synced; looper = v.looper; output = v.output };
        stream = e;
        armed = inl empty;
      }

  send_written-Sent :
      (src : List ℕ) (w : Written)
      → is_possible src w ≡ true
      → Returns (Sent here c (accepted true src w)) (send_written here c src w)
  unfolding is_possible accepted send_written
  send_written-Sent src (wrote n) p = written-Sent src n (leb→le n (length src) p)
  send_written-Sent src (failed e) p = failed_at src e (Bool-cases (is_fault_error e))
    where
      failed_at :
          (src : List ℕ) (e : Errno)
          → (is_fault_error e ≡ true) ⊎ (is_fault_error e ≡ false)
          → Returns
              (Sent here c (if is_fault_error e then [] else src))
              (send_written here c src (failed e))
      failed_at src e (inl gone) =
          rw gone
            (returns (record { live = v; stream = sym (append-nil (stream c)); armed = inl empty }))
      failed_at src e (inr wait) = rw wait (remaining-Sent here c v src (inl empty))

-- Whether sendInLoop calls `write` itself: nothing waits.
abbrev pub is_direct : Connection → Bool
is_direct c = not (is_writing c.socket.watcher) && readable_bytes c.output == 0

-- sendInLoop on a connection that is live and armed does not fault: it adds the bytes to the end of
-- the stream of bytes sent and waiting, whatever part of them `write` took, and what waits has its
-- write event enabled. It drops the bytes only when its own `write` failed with EPIPE or ECONNRESET.
pub send_in_loop-Sent :
    (here : ℕ) (c : Connection) (src : List ℕ) (w : Written)
    → IsLive here c
    → IsArmed c
    → is_possible src w ≡ true
    → Returns (Sent here c (accepted (is_direct c) src w)) (send_in_loop here c src w)
unfolding send_in_loop accepted
send_in_loop-Sent here c src w v armed p = elim (Bool-cases (is_direct c)) [
  | inl direct ↦ rw direct (send_written-Sent here c v (ground arith) src w p)
  | inr waits ↦ rw waits (remaining-Sent here c v src armed)
]
