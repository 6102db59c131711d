-- ===== src/Buffer.antt =====
-- src/net/Buffer.h and src/net/Buffer.cpp: the byte buffer with a reader and a writer index.
--
-- The vector is a list of bytes, its size the list's length. Sizes are exact numbers: a vector is
-- far shorter than 2^64, so `size_t` does not wrap. An assertion that fails is a fault, as in a
-- build with assertions. `readv` and `recvfrom` are the bytes that they deliver, or their error.
pub mod Content
pub mod Consume
pub mod Queue
pub mod Input
pub mod Integers
mod Tests
use libsaf.Common.{
  ℕ, ◌+◌, ◌-◌, ◌*◌, ◌≤◌, ◌<◌, List, [], ◌++◌, Option, none, some, Result, ok, fault, out_of_bounds,
  assert, map_result, ◌>>=◌, ltb, leb, ◌==◌, if◌then◌else◌, length, take, drop, replicate,
}

pub record Buffer : Type 0 where
  pub bytes : List ℕ
  pub reader_index : ℕ
  pub writer_index : ℕ

abbrev pub cheap_prepend : ℕ
cheap_prepend = 0

abbrev pub initial_size : ℕ
initial_size = 1024

abbrev pub extra_buffer_len : ℕ
extra_buffer_len = 65536

unfoldable pub new : ℕ → Buffer
new size = record {
  bytes = replicate (cheap_prepend + size) 0;
  reader_index = cheap_prepend;
  writer_index = cheap_prepend;
}

abbrev pub readable_bytes : Buffer → ℕ
readable_bytes b = b.writer_index - b.reader_index

abbrev pub writable_bytes : Buffer → ℕ
writable_bytes b = length b.bytes - b.writer_index

abbrev pub prependable_bytes : Buffer → ℕ
prependable_bytes b = b.reader_index

unfoldable pub retrieve_all : Buffer → Buffer
retrieve_all b = record b { reader_index = cheap_prepend; writer_index = cheap_prepend }

unfoldable pub retrieve : Buffer → ℕ → Result Buffer
retrieve b len = assert (leb len (readable_bytes b)) (
    ok (
      if ltb len (readable_bytes b)
      then record b { reader_index = b.reader_index + len }
      else retrieve_all b))

-- The `len` bytes from `peek()` on.
abbrev pub peek : Buffer → ℕ → List ℕ
peek b len = take len (drop b.reader_index b.bytes)

unfoldable pub as_string : Buffer → List ℕ
as_string b = peek b (readable_bytes b)

unfoldable pub retrieve_as_string : Buffer → ℕ → Result (List ℕ × Buffer)
retrieve_as_string b len =
    assert (leb len (readable_bytes b)) (map_result (λ b'. (peek b len, b')) (retrieve b len))

unfoldable pub retrieve_all_as_string : Buffer → Result (List ℕ × Buffer)
retrieve_all_as_string b = retrieve_as_string b (readable_bytes b)

-- NetString.h: a view of bytes that it does not own, here as an offset into the buffer's vector.
pub record NetString : Type 0 where
  pub start : ℕ
  pub size : ℕ

-- What a view shows of the buffer as it is now.
unfoldable pub to_string : Buffer → NetString → List ℕ
to_string b s = take s.size (drop s.start b.bytes)

unfoldable pub retrieve_all_as_net_string : Buffer → NetString × Buffer
retrieve_all_as_net_string b =
    (record { start = b.reader_index; size = readable_bytes b }, retrieve_all b)

unfoldable pub retrieve_as_net_string : Buffer → ℕ → Result (NetString × Buffer)
retrieve_as_net_string b len =
    assert (leb len (readable_bytes b))
      (map_result (λ b'. (record { start = b.reader_index; size = len }, b')) (retrieve b len))

-- `vector::resize`: new elements are zero.
resize : List ℕ → ℕ → List ℕ
resize xs n = take n xs ++ replicate (n - length xs) 0

-- `std::copy` to the place `at`.
abbrev pub write_at : List ℕ → ℕ → List ℕ → List ℕ
write_at xs at src = take at xs ++ src ++ drop (at + length src) xs

unfoldable pub make_space : Buffer → ℕ → Result Buffer
unfolding resize
make_space b len =
    let readable = readable_bytes b in
    let grown = record b { bytes = resize b.bytes (b.writer_index + len) } in
    let moved = record b {
      bytes = write_at b.bytes cheap_prepend (peek b readable);
      reader_index = cheap_prepend;
      writer_index = cheap_prepend + readable;
    } in
    if ltb (writable_bytes b + prependable_bytes b) (len + cheap_prepend)
    then ok grown
    else assert (ltb cheap_prepend b.reader_index)
        (assert (readable == readable_bytes moved) (ok moved))

unfoldable pub ensure_writable_bytes : Buffer → ℕ → Result Buffer
ensure_writable_bytes b len = do
  b' ← if ltb (writable_bytes b) len then make_space b len else ok b
  assert (leb len (writable_bytes b')) (ok b')

-- `std::copy` to `beginWrite()`, and the writer's step.
abbrev pub write : Buffer → List ℕ → Buffer
write b src = record b {
  bytes = write_at b.bytes b.writer_index src;
  writer_index = b.writer_index + length src;
}

unfoldable pub append : Buffer → List ℕ → Result Buffer
append b src = do b' ← ensure_writable_bytes b (length src); ok (write b' src)

-- The most that `readv` is asked for: the extra buffer is used only beside a small writable part.
abbrev pub read_fd_limit : Buffer → ℕ
read_fd_limit b =
    writable_bytes b + (if ltb (writable_bytes b) extra_buffer_len then extra_buffer_len else 0)

-- The bytes past the writable part, out of the extra buffer.
unfoldable pub read_spilled : Buffer → List ℕ → Result Buffer
read_spilled b got =
    let writable = writable_bytes b in
    let filled = record b {
      bytes = write_at b.bytes b.writer_index (take writable got);
      writer_index = length b.bytes;
    } in
    if ltb extra_buffer_len (length got - writable)
    then fault out_of_bounds
    else append filled (drop writable got)

-- A system call that fills at most so many bytes; `none` is -1, its error.
abbrev pub Receive : Type 0
Receive = ℕ → Option (List ℕ)

unfoldable pub read_fd_received : Buffer → Option (List ℕ) → Result (Option ℕ × Buffer)
unfolding read_spilled
read_fd_received b none = ok (none, b)
read_fd_received b (some got) =
    map_result (λ c. (some (length got), c))
      (if leb (length got) (writable_bytes b) then ok (write b got) else read_spilled b got)

-- `readv` fills the writable part first and then the extra buffer. The result is its own.
unfoldable pub read_fd : Buffer → Receive → Result (Option ℕ × Buffer)
unfolding read_fd_received
read_fd b readv = read_fd_received b (readv (read_fd_limit b))

abbrev received : Buffer → Option (List ℕ) → Option ℕ × Buffer
received b none = (none, b)
received b (some src) = (some (length src), write b src)

abbrev pub read_from_limit : ℕ
read_from_limit = 65536

unfoldable pub read_from : Buffer → Receive → Result (Option ℕ × Buffer)
read_from b recvfrom = do
  b' ← ensure_writable_bytes b read_from_limit
  ok (received b' (recvfrom read_from_limit))

-- reader index ≤ writer index ≤ size
pub record IsValid (b : Buffer) : Type 0 where
  pub ordered : b.reader_index ≤ b.writer_index
  pub inside : b.writer_index ≤ length b.bytes
