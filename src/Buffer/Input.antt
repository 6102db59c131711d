-- ===== src/Buffer/Input.antt =====
-- src/net/Buffer.cpp: what the buffer holds after it has read from a socket.
use native.Mathlib.Nat.{le_trans}
use libsaf.Common.{
  ℕ, ◌+◌, ◌-◌, ◌≤◌, ◌<◌, ◌≡◌, refl, ap, subst, ◌∙◌, List, ◌++◌, append_assoc, arith, Bool-cases,
  inl, inr, Returns, returns, Returns-bind, Returns-map, Returns-inv, leb, le→ltb, length, take,
  drop, take-append-drop, length-take, Option, none, some,
}
use libsaf.Buffer.{
  Buffer, writable_bytes, as_string, write, read_fd, read_fd_received, read_spilled, read_fd_limit,
  extra_buffer_len, Receive, read_from, read_from_limit, received, IsValid,
}
use libsaf.Buffer.Content.{
  Appended, HasRoom, write-Appended, append-Appended, ensure_writable_bytes-HasRoom,
}

-- What the system promises of such a call: it fills no more than it was given.
abbrev pub IsBounded : Receive → Type 0
IsBounded receive = (n : ℕ) (got : List ℕ) → receive n ≡ some got → length got ≤ n

-- After a call that got `got`, the buffer holds its old content and then those bytes; after an
-- error it holds its old content.
abbrev pub Received : Buffer → Option (List ℕ) → Option ℕ × Buffer → Type 0
Received b none r = (r.0 ≡ none) × IsValid r.1 × (as_string r.1 ≡ as_string b)
Received b (some got) r = (r.0 ≡ some (length got)) × Appended b got r.1

module _ (b : Buffer) (got : List ℕ) (v : IsValid b) (more : writable_bytes b < length got) where
  abbrev front : List ℕ
  front = take (writable_bytes b) got

  -- The writable part is filled to the end of the vector.
  filled-Appended : Appended b front (record (write b front) { writer_index = length b.bytes })
  filled-Appended =
      let size : length front ≡ writable_bytes b = rw length-take (omega arith) in
      let full : b.writer_index + length front ≡ length b.bytes = omega (arith, size, v.inside) in
      subst (λ n. Appended b front (record (write b front) { writer_index = n })) full
        (write-Appended b front v (omega (arith, size)))

  read_spilled-Appended :
      length got - writable_bytes b ≤ extra_buffer_len
      → Returns (Appended b got) (read_spilled b got)
  unfolding read_spilled
  read_spilled-Appended fits =
      let w = filled-Appended in
      rw (le→ltb _ _ fits) (
        Returns-map (append-Appended _ (drop (writable_bytes b) got) w.valid) λ c x. record {
          valid = x.valid;
          content =
              x.content
              ∙ ap (λ ys. ys ++ drop (writable_bytes b) got) w.content
              ∙ append_assoc (as_string b) front (drop (writable_bytes b) got)
              ∙ ap (λ ys. as_string b ++ ys) (take-append-drop (writable_bytes b) got);
        })

read_fd_received-Received :
    (b : Buffer) (r : Option (List ℕ))
    → IsValid b
    → ((got : List ℕ) → r ≡ some got → length got ≤ read_fd_limit b)
    → Returns (Received b r) (read_fd_received b r)
unfolding read_fd_received
read_fd_received-Received b none v h = returns (refl, v, refl)
read_fd_received-Received b (some got) v h =
    elim (Bool-cases (leb (length got) (writable_bytes b))) [
      | inl e ↦ rw e (returns (refl, write-Appended b got v (ground arith)))
      | inr e ↦
          let fits : length got - writable_bytes b ≤ extra_buffer_len =
            ground (arith, h got refl) in
          let (c, s, x) = Returns-inv (read_spilled-Appended b got v (ground arith) fits) in
          rw (e, s) (returns (refl, x))
    ]

-- With a `readv` that fills no more than it was given, `readFd` on a valid buffer never faults, and
-- it leaves the buffer valid. It returns `readv`'s result. Exactly the bytes that were read stand
-- behind the old content, whether or not they needed the extra buffer; an error adds nothing.
pub read_fd-Received :
    (b : Buffer) (readv : Receive)
    → IsValid b
    → IsBounded readv
    → Returns (Received b (readv (read_fd_limit b))) (read_fd b readv)
unfolding read_fd
read_fd-Received b readv v h =
    read_fd_received-Received b (readv (read_fd_limit b)) v (h (read_fd_limit b))

received-Received :
    (b c : Buffer) (r : Option (List ℕ))
    → HasRoom b read_from_limit c
    → ((got : List ℕ) → r ≡ some got → length got ≤ read_from_limit)
    → Received b r (received c r)
received-Received b c none x h = (refl, x.valid, x.same)
received-Received b c (some got) x h =
    let w = write-Appended c got x.valid (le_trans (h got refl) x.room) in
    (refl, record { valid = w.valid; content = w.content ∙ ap (λ ys. ys ++ got) x.same })

-- With a `recvfrom` that fills no more than it was given, `readFrom` on a valid buffer never faults,
-- and it leaves the buffer valid. It returns `recvfrom`'s result. Exactly the bytes that were
-- received stand behind the old content; an error adds nothing.
pub read_from-Received :
    (b : Buffer) (recvfrom : Receive)
    → IsValid b
    → IsBounded recvfrom
    → Returns (Received b (recvfrom read_from_limit)) (read_from b recvfrom)
unfolding read_from
read_from-Received b recvfrom v h =
    Returns-bind (ensure_writable_bytes-HasRoom b read_from_limit v)
      λ c x. returns (received-Received b c (recvfrom read_from_limit) x (h read_from_limit))
