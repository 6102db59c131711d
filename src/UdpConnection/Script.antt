-- ===== src/UdpConnection/Script.antt =====
-- Whole runs of src/net/udp/UdpConnection.cpp: sends, and the functors that its loop runs, while `sendto`
-- takes at least one byte of what it is given.
use libsaf.Common.{
  ℕ, suc, ◌+◌, min, ◌<◌, ◌≡◌, refl, sym, ap, ◌∙◌, arith, true, false, not, List, [], ◌∷◌, ◌++◌,
  append_assoc, append-nil, Result, ok, ◌>>=◌, Returns, returns, Returns-bind, Returns-map,
  Returns-if, if◌then◌else◌, length, length-append,
}
use libsaf.Buffer.{readable_bytes, as_string}
use libsaf.Buffer.Content.{length-as_string, append-Appended}
use libsaf.TcpConnection.{Written, wrote, connect_change, closed}
use libsaf.UdpConnection.{
  UdpConnection, Functor, close_functor, write_functor, close_in_loop, send_in_loop, run_functor,
}
use libsaf.UdpConnection.Stream.{
  concat, stream, called-Sent, writes, IsFlowing, is_progress, Sent, handle_write_in_loop-Sent,
}

-- `sendto` takes `k` bytes and one more, or all.
abbrev pub some_of : ℕ → ℕ → Written
some_of k n = wrote (min (suc k) n)

-- A send of at least one byte, or the first functor that waits.
pub data Event : Type 0 where
  sends : ℕ → List ℕ → ℕ → Event
  runs : ℕ → Event

abbrev run_first : UdpConnection → List Functor → ℕ → Result UdpConnection
run_first c [] k = ok c
run_first c (f ∷ fs) k =
    run_functor (record c { queued = fs }) f (some_of k (readable_bytes c.output))

unfoldable pub step : UdpConnection → Event → Result UdpConnection
step c (sends b bytes k) =
    send_in_loop c (b ∷ bytes) (some_of k (readable_bytes c.output + length (b ∷ bytes)))
step c (runs k) = run_first c c.queued k

unfoldable pub run : UdpConnection → List Event → Result UdpConnection
run c [] = ok c
run c (e ∷ es) = step c e >>= λ c'. run c' es

unfoldable pub submitted : List Event → List ℕ
submitted [] = []
submitted (sends b bytes k ∷ es) = b ∷ bytes ++ submitted es
submitted (runs k ∷ es) = submitted es

abbrev step_bytes : Event → List ℕ
step_bytes (sends b bytes k) = b ∷ bytes
step_bytes (runs k) = []

progress :
    (c : UdpConnection) (k n : ℕ)
    → n ≡ readable_bytes c.output
    → 0 < n
    → is_progress c (some_of k n) ≡ true
unfolding is_progress
progress c k n e pos = ground arith

module _ (c : UdpConnection) (v : IsFlowing c) where
  send_in_loop-Sent :
      (b : ℕ) (bytes : List ℕ) (k : ℕ)
      → Returns
          (Sent c (b ∷ bytes))
          (send_in_loop c (b ∷ bytes) (some_of k (readable_bytes c.output + length (b ∷ bytes))))
  unfolding send_in_loop stream
  send_in_loop-Sent b bytes k = Returns-bind (append-Appended c.output (b ∷ bytes) v.valid) λ out a.
      let grown : concat c.sent ++ as_string out
          ≡ (concat c.sent ++ as_string c.output) ++ b ∷ bytes =
        ap (λ xs. concat c.sent ++ xs) a.content
        ∙ sym (append_assoc (concat c.sent) (as_string c.output) (b ∷ bytes)) in
      let total : readable_bytes c.output + length (b ∷ bytes) ≡ readable_bytes out = omega (
        arith,
        length-as_string c.output v.valid,
        length-as_string out a.valid,
        ap length a.content,
        length-append (as_string c.output) (b ∷ bytes),
      ) in
      let c₂ = record c { writing = true; output = out } in
      Returns-if (not c.writing)
        (λ p.
          let off : c.writing ≡ false = ground arith in
          let alone : writes c.queued ≡ 0 = v.queued ∙ ap (λ w. if w then 1 else 0) off in
          Returns-map
            (handle_write_in_loop-Sent c₂ a.valid v.sender alone _ refl
              (progress c₂ k _ total (omega arith)))
            λ c' s. record {
              flowing = s.flowing;
              stream = s.stream ∙ append-nil (concat c.sent ++ as_string out) ∙ grown;
            })
        (λ p.
          let on : c.writing ≡ true = ground arith in
          returns (record {
            flowing = record {
              valid = a.valid;
              sender = v.sender;
              idle = λ off. cc;
              busy = λ q. omega (arith, total);
              queued = v.queued;
            };
            stream = grown;
          }))

  close-Sent :
      (fs : List Functor)
      → writes fs ≡ writes c.queued
      → Sent c [] (close_in_loop (record c { queued = fs }))
  unfolding close_in_loop stream
  close-Sent fs e = called-Sent c.callbacks.on_close closed c _ [] (
      called-Sent c.callbacks.on_connect_change connect_change c _ [] (record {
        flowing = record {
          valid = v.valid;
          sender = v.sender;
          idle = v.idle;
          busy = v.busy;
          queued = e ∙ v.queued;
        };
        stream = sym (append-nil (concat c.sent ++ as_string c.output));
      }))

  run_first-Sent :
      (fs : List Functor) → c.queued ≡ fs → (k : ℕ) → Returns (Sent c []) (run_first c fs k)
  unfolding run_functor writes
  run_first-Sent [] e k = returns (record { flowing = v; stream = sym (append-nil (stream c)) })
  run_first-Sent (close_functor ∷ fs) e k = returns (close-Sent fs (sym (ap writes e)))
  run_first-Sent (write_functor ∷ fs) e k =
      let waiting : suc (writes fs) ≡ (if c.writing then 1 else 0) = sym (ap writes e) ∙ v.queued in
      let on : c.writing ≡ true = ground arith in
      let alone : writes fs ≡ 0 = ground arith in
      let c' = record c { queued = fs } in
      Returns-map
        (handle_write_in_loop-Sent c' v.valid v.sender alone _ on
          (progress c' k _ refl (v.busy on)))
        λ c'' s. record { flowing = s.flowing; stream = unfold stream in s.stream }

step-Sent :
    (c : UdpConnection) (e : Event) → IsFlowing c → Returns (Sent c (step_bytes e)) (step c e)
unfolding step
step-Sent c (sends b bytes k) v = send_in_loop-Sent c v b bytes k
step-Sent c (runs k) v = run_first-Sent c v c.queued refl k

submitted-step : (e : Event) (es : List Event) → submitted (e ∷ es) ≡ step_bytes e ++ submitted es
unfolding submitted
submitted-step (sends b bytes k) es = refl
submitted-step (runs k) es = refl

-- While each `sendto` takes at least a byte, any sends of at least a byte to a flowing connection and
-- any runs of its functors, in any order, do not fault: the bytes of the datagrams, in order, and those
-- that wait in the buffer are all that were submitted; and where some wait, one call of
-- handleWriteInLoop waits to send them.
pub run-Sent :
    (c : UdpConnection) (es : List Event) → IsFlowing c → Returns (Sent c (submitted es)) (run c es)
unfolding run
run-Sent c [] v =
    returns (record { flowing = v; stream = unfold submitted in sym (append-nil (stream c)) })
run-Sent c (e ∷ es) v = Returns-bind (step-Sent c e v) λ c₁ s.
    Returns-map (run-Sent c₁ es s.flowing) λ c₂ r. record {
      flowing = r.flowing;
      stream =
          r.stream
          ∙ ap (λ xs. xs ++ submitted es) s.stream
          ∙ append_assoc (stream c) (step_bytes e) (submitted es)
          ∙ ap (λ xs. stream c ++ xs) (sym (submitted-step e es));
    }
