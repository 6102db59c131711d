-- ===== src/UdpConnection/Stream.antt =====
-- sendInLoop and handleWriteInLoop of src/net/udp/UdpConnection.cpp: how the output buffer drains, and
-- how it stops.
use libsaf.Common.{
  ℕ, suc, ◌≤◌, ◌<◌, ◌≡◌, refl, sym, ap, ◌∙◌, arith, Bool, true, false, ◌&&◌, List, [], ◌∷◌, ◌++◌,
  append_assoc, append-nil, Returns, returns, Returns-bind, Returns-if, ltb, leb, ◌==◌, ==→eq,
  if◌then◌else◌, take, take-append-drop,
}
use libsaf.Buffer.{readable_bytes, as_string, IsValid}
use libsaf.Buffer.Consume.{retrieve-Retrieved}
use libsaf.TcpConnection.{Call, Written, wrote, failed, write_complete}
use libsaf.UdpConnection.{
  UdpConnection, Functor, close_functor, write_functor, called, sent_some, write_answered,
  handle_write_in_loop,
}

unfoldable pub concat : List (List ℕ) → List ℕ
concat [] = []
concat (d ∷ ds) = d ++ concat ds

-- Every byte that was sent, in order.
unfoldable pub stream : UdpConnection → List ℕ
stream c = concat c.sent ++ as_string c.output

concat-snoc : (ds : List (List ℕ)) (d : List ℕ) → concat (ds ++ d ∷ []) ≡ concat ds ++ d
unfolding concat
concat-snoc [] d = append-nil d
concat-snoc (e ∷ ds) d = ap (λ xs. e ++ xs) (concat-snoc ds d) ∙ sym (append_assoc e (concat ds) d)

-- The calls of handleWriteInLoop that wait in the loop.
unfoldable pub writes : List Functor → ℕ
writes [] = 0
writes (close_functor ∷ fs) = writes fs
writes (write_functor ∷ fs) = suc (writes fs)

writes-snoc : (fs : List Functor) → writes (fs ++ write_functor ∷ []) ≡ suc (writes fs)
unfolding writes
writes-snoc [] = refl
writes-snoc (close_functor ∷ fs) = writes-snoc fs
writes-snoc (write_functor ∷ fs) = ap suc (writes-snoc fs)

-- A connection with a descriptor to send by, whose buffer is empty unless exactly one call of
-- handleWriteInLoop waits, which will send it.
pub record IsFlowing (c : UdpConnection) : Type 0 where
  pub valid : IsValid c.output
  pub sender : (c.sender_fd == 0) ≡ false
  pub idle : c.writing ≡ false → readable_bytes c.output ≡ 0
  pub busy : c.writing ≡ true → 0 < readable_bytes c.output
  pub queued : writes c.queued ≡ (if c.writing then 1 else 0)

-- `sendto` takes some of what it is given.
unfoldable pub is_progress : UdpConnection → Written → Bool
is_progress c (wrote n) = ltb 0 n && leb n (readable_bytes c.output)
is_progress c (failed e) = false

-- Flowing, with the stream `bytes` longer.
pub record Sent (c : UdpConnection) (bytes : List ℕ) (c' : UdpConnection) : Type 0 where
  pub flowing : IsFlowing c'
  pub stream : stream c' ≡ stream c ++ bytes

pub called-Sent :
    (set : Bool) (call : Call) (c c' : UdpConnection) (bytes : List ℕ)
    → Sent c bytes c'
    → Sent c bytes (called set call c')
unfolding stream
called-Sent true call c c' bytes s = record {
  flowing = record {
    valid = s.flowing.valid;
    sender = s.flowing.sender;
    idle = s.flowing.idle;
    busy = s.flowing.busy;
    queued = s.flowing.queued;
  };
  stream = s.stream;
}
called-Sent false call c c' bytes s = s

module _ (c : UdpConnection) (v : IsValid c.output) (bound : (c.sender_fd == 0) ≡ false)
    (alone : writes c.queued ≡ 0) where
  sent_some-Sent :
      (n : ℕ) → n ≤ readable_bytes c.output → c.writing ≡ true → Returns (Sent c []) (sent_some c n)
  unfolding sent_some stream
  sent_some-Sent n le on = Returns-bind (retrieve-Retrieved c.output n v le) λ out r.
      let front = take n (as_string c.output) in
      let whole : concat (c.sent ++ front ∷ []) ++ as_string out
          ≡ (concat c.sent ++ as_string c.output) ++ [] =
        ap (λ xs. xs ++ as_string out) (concat-snoc c.sent front)
        ∙ append_assoc (concat c.sent) front (as_string out)
        ∙ ap (λ xs. concat c.sent ++ (front ++ xs)) r.content
        ∙ ap (λ xs. concat c.sent ++ xs) (take-append-drop n (as_string c.output))
        ∙ sym (append-nil (concat c.sent ++ as_string c.output)) in
      Returns-if (readable_bytes out == 0)
        (λ empty. returns (
          called-Sent c.callbacks.on_write_complete write_complete c _ [] (record {
            flowing = record {
              valid = r.valid;
              sender = bound;
              idle = λ off. ==→eq _ _ empty;
              busy = λ p. cc;
              queued = alone;
            };
            stream = whole;
          })))
        (λ more. returns (record {
          flowing = record {
            valid = r.valid;
            sender = bound;
            idle = λ off. cc;
            busy = λ p. ground arith;
            queued = writes-snoc c.queued ∙ ap suc alone ∙ rw on refl;
          };
          stream = whole;
        }))

  -- handleWriteInLoop of a connection that is writing, with a descriptor to send by, and whose
  -- `sendto` takes some of what waits, keeps the stream: what was taken is the next datagram.
  pub handle_write_in_loop-Sent :
      (w : Written)
      → c.writing ≡ true
      → is_progress c w ≡ true
      → Returns (Sent c []) (handle_write_in_loop c w)
  unfolding handle_write_in_loop write_answered is_progress
  handle_write_in_loop-Sent (wrote n) on p =
      Returns-if (c.sender_fd == 0) (λ q. cc)
        (λ q.
          Returns-if (ltb 0 n) (λ some. sent_some-Sent n (ground arith) on)
            (λ none. absurd (ground arith)))
  handle_write_in_loop-Sent (failed e) on p = cc
