-- ===== src/UdpConnection/Stall.antt =====
-- What becomes of a connection of src/net/udp/UdpConnection.cpp after a `sendto` that took nothing.
use libsaf.Common.{
  ℕ, ◌≡◌, refl, sym, ap, subst, ◌∙◌, arith, Bool, true, false, not, List, [], ◌∷◌, ◌++◌,
  append_assoc, append-nil, Result, ok, ◌>>=◌, Returns, returns, Returns-bind, Returns-if, ◌==◌,
}
use libsaf.Buffer.{as_string, IsValid}
use libsaf.Buffer.Content.{append-Appended}
use libsaf.TcpConnection.{Written, wrote, failed}
use libsaf.UdpConnection.{UdpConnection, write_answered, handle_write_in_loop, send_in_loop}

-- `sendto` takes nothing: it fails, or the datagram is empty.
unfoldable pub takes_nothing : Written → Bool
takes_nothing (wrote n) = n == 0
takes_nothing (failed e) = true

-- Marked as writing; nothing was sent and no functor was queued since `c`.
pub record Stalled (c : UdpConnection) (bytes : List ℕ) (c' : UdpConnection) : Type 0 where
  pub valid : IsValid c'.output
  pub writing : c'.writing ≡ true
  pub queued : c'.queued ≡ c.queued
  pub sent : c'.sent ≡ c.sent
  pub output : as_string c'.output ≡ as_string c.output ++ bytes

unfoldable pub sends : UdpConnection → List (List ℕ × Written) → Result UdpConnection
sends c [] = ok c
sends c ((bytes, w) ∷ rest) = send_in_loop c bytes w >>= λ c'. sends c' rest

unfoldable pub submitted : List (List ℕ × Written) → List ℕ
submitted [] = []
submitted ((bytes, w) ∷ rest) = bytes ++ submitted rest

failed_write :
    (c : UdpConnection) (w : Written) → takes_nothing w ≡ true → handle_write_in_loop c w ≡ ok c
unfolding handle_write_in_loop write_answered takes_nothing
failed_write c (wrote n) h = ground arith
failed_write c (failed e) h = ground arith

send-Stalled :
    (c : UdpConnection) (bytes : List ℕ) (w : Written)
    → IsValid c.output
    → (c.writing ≡ false → takes_nothing w ≡ true)
    → Returns (Stalled c bytes) (send_in_loop c bytes w)
unfolding send_in_loop
send-Stalled c bytes w v h = Returns-bind (append-Appended c.output bytes v) λ out a.
    Returns-if (not c.writing)
      (λ p.
        let off : c.writing ≡ false = ground arith in
        rw (failed_write (record c { writing = true; output = out }) w (h off)) (
          returns (record {
            valid = a.valid;
            writing = refl;
            queued = refl;
            sent = refl;
            output = a.content;
          })))
      (λ p.
        let on : c.writing ≡ true = ground arith in
        returns (record {
          valid = a.valid;
          writing = on;
          queued = refl;
          sent = refl;
          output = a.content;
        }))

after-Stalled :
    (c : UdpConnection) (done : List ℕ) (c₁ : UdpConnection) (rest : List (List ℕ × Written))
    → Stalled c done c₁
    → Returns (Stalled c (done ++ submitted rest)) (sends c₁ rest)
unfolding sends submitted
after-Stalled c done c₁ [] s = returns (record {
  valid = s.valid;
  writing = s.writing;
  queued = s.queued;
  sent = s.sent;
  output = s.output ∙ ap (λ xs. as_string c.output ++ xs) (sym (append-nil done));
})
after-Stalled c done c₁ ((bytes, w) ∷ rest) s =
    Returns-bind (send-Stalled c₁ bytes w s.valid (λ off. cc)) λ c₂ r.
      subst (λ xs. Returns (Stalled c xs) (sends c₂ rest))
        (append_assoc done bytes (submitted rest))
        (after-Stalled c (done ++ bytes) c₂ rest (record {
          valid = r.valid;
          writing = r.writing;
          queued = r.queued ∙ s.queued;
          sent = r.sent ∙ s.sent;
          output =
              r.output
              ∙ ap (λ xs. xs ++ bytes) s.output
              ∙ append_assoc (as_string c.output) done bytes;
        }))

-- If the `sendto` that a send calls takes nothing, for whatever error or because the datagram is empty,
-- no send after it sends anything, whatever `sendto` would answer, and none queues handleWriteInLoop:
-- the connection stays marked as writing, and all the bytes stay in its output buffer.
pub sends-Stalled :
    (c : UdpConnection) (bytes : List ℕ) (w : Written) (rest : List (List ℕ × Written))
    → IsValid c.output
    → takes_nothing w ≡ true
    → Returns (Stalled c (submitted ((bytes, w) ∷ rest))) (sends c ((bytes, w) ∷ rest))
unfolding sends submitted
sends-Stalled c bytes w rest v h =
    Returns-bind (send-Stalled c bytes w v (λ off. h)) λ c₁ s. after-Stalled c bytes c₁ rest s
