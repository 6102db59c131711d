-- ===== src/UnpackHandler.antt =====
-- src/net/handler/UnpackHandler.h and src/net/handler/UnpackHandler.cpp: a package out of a buffer.
--
-- The package is a view of the buffer's bytes. The handler's failure is `none`. The size is the bit
-- pattern of a signed integer: it is positive if it is neither 0 nor 2 ^ 31 or more.
pub mod Packages
mod Tests
use libsaf.Common.{
  ℕ, ◌+◌, ◌^◌, ◌≡◌, Bool, true, false, ◌&&◌, Option, none, some, Result, ok, ◌>>=◌, ltb, leb,
  if◌then◌else◌,
}
use libsaf.Buffer.{Buffer, readable_bytes, retrieve, NetString}
use libsaf.Buffer.Integers.{Endian, peek_int32}

abbrev pub header_bits : ℕ
header_bits = 32

abbrev pub is_positive : ℕ → Bool
is_positive size = ltb 0 size && ltb size (2 ^ 31)

unfoldable pub unpack : Buffer → ℕ → Result (Option NetString × Buffer)
unpack b size = do
  b₁ ← retrieve b header_bits
  b₂ ← retrieve b₁ size
  ok (some (record { start = b₁.reader_index; size = size }), b₂)

unfoldable pub unpack_sized : Buffer → ℕ → Result (Option NetString × Buffer)
unpack_sized b size =
    if is_positive size && leb (size + header_bits) (readable_bytes b)
    then unpack b size
    else ok (none, b)

module _ (machine : Endian) where
  unfoldable pub process : Buffer → Result (Option NetString × Buffer)
  process b =
      if ltb header_bits (readable_bytes b)
      then (peek_int32 machine b >>= λ size. unpack_sized b size)
      else ok (none, b)
