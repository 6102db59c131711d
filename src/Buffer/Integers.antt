-- ===== src/Buffer/Integers.antt =====
-- src/net/NetUtils.h and the integers of src/net/Buffer.h: network byte order, `appendInt*`, `peekInt*` and
-- `readInt*`.
--
-- An integer of `w` bytes is its bit pattern, a number below 256 ^ w: the conversions between the
-- signed and the unsigned type keep the pattern. The byte order of the machine and the functions of
-- endian.h are a parameter, `Endian`.
pub mod Roundtrip
pub mod Little
use libsaf.Common.{
  ℕ, zero, suc, ◌+◌, ◌*◌, ◌/◌, ◌%◌, ◌^◌, ◌<◌, ◌≡◌, List, [], ◌∷◌, reverse, Result, ok, assert,
  ◌>>=◌, map_result, leb, length,
}
use libsaf.Buffer.{Buffer, readable_bytes, peek, retrieve, append}

-- The base 256 digits of an integer, the lowest first and the highest first: the second is the
-- format on the wire.
unfoldable pub little_endian : ℕ → ℕ → List ℕ
little_endian zero x = []
little_endian (suc w) x = x % 256 ∷ little_endian w (x / 256)

unfoldable pub big_endian : ℕ → ℕ → List ℕ
unfolding little_endian
big_endian w x = reverse (little_endian w x)

-- A machine: the image of an integer in memory, and endian.h.
pub record Endian : Type 0 where
  -- the bytes of an integer of so many bytes in memory, and the integer that bytes are
  pub to_memory : ℕ → ℕ → List ℕ
  pub of_memory : List ℕ → ℕ
  -- htobe16, htobe32, htobe64 and be16toh, be32toh, be64toh, by the width in bytes
  pub htobe : ℕ → ℕ → ℕ
  pub betoh : ℕ → ℕ → ℕ
  pub of_memory-to_memory : (w x : ℕ) → x < 256 ^ w → of_memory (to_memory w x) ≡ x
  pub htobe-lt : (w x : ℕ) → x < 256 ^ w → htobe w x < 256 ^ w
  pub betoh-htobe : (w x : ℕ) → x < 256 ^ w → betoh w (htobe w x) ≡ x
  pub to_memory-byte : (x : ℕ) → x < 256 → to_memory 1 x ≡ x ∷ []
  pub to_memory-htobe : (w x : ℕ) → x < 256 ^ w → to_memory w (htobe w x) ≡ big_endian w x

-- The integer types of the interface, and their sizes.
pub data Width : Type 0 where
  int8 int16 int32 int64 : Width

abbrev pub size_of : Width → ℕ
size_of int8 = 1
size_of int16 = 2
size_of int32 = 4
size_of int64 = 8

module _ (machine : Endian) where
  open machine use {to_memory, of_memory, htobe, betoh}

  unfoldable pub host_to_network : ℕ → ℕ → ℕ
  host_to_network w host = htobe w host

  unfoldable pub network_to_host : ℕ → ℕ → ℕ
  network_to_host w net = betoh w net

  -- appendInt8, appendInt16, appendInt32 and appendInt64
  unfoldable pub append_int8 : Buffer → ℕ → Result Buffer
  append_int8 b x = append b (to_memory 1 x)

  unfoldable pub append_int16 : Buffer → ℕ → Result Buffer
  append_int16 b x = append b (to_memory 2 (host_to_network 2 x))

  unfoldable pub append_int32 : Buffer → ℕ → Result Buffer
  append_int32 b x = append b (to_memory 4 (host_to_network 4 x))

  unfoldable pub append_int64 : Buffer → ℕ → Result Buffer
  append_int64 b x = append b (to_memory 8 (host_to_network 8 x))

  -- peekInt8, peekInt16, peekInt32 and peekInt64
  unfoldable pub peek_int8 : Buffer → Result ℕ
  peek_int8 b = assert (leb 1 (readable_bytes b)) (ok (of_memory (peek b 1)))

  unfoldable pub peek_int16 : Buffer → Result ℕ
  peek_int16 b = assert (leb 2 (readable_bytes b)) (ok (network_to_host 2 (of_memory (peek b 2))))

  unfoldable pub peek_int32 : Buffer → Result ℕ
  peek_int32 b = assert (leb 4 (readable_bytes b)) (ok (network_to_host 4 (of_memory (peek b 4))))

  unfoldable pub peek_int64 : Buffer → Result ℕ
  peek_int64 b = assert (leb 8 (readable_bytes b)) (ok (network_to_host 8 (of_memory (peek b 8))))

  -- readInt8, readInt16, readInt32 and readInt64: `retrieve<64>` and so on, bits for bytes
  unfoldable pub read_int8 : Buffer → Result (ℕ × Buffer)
  read_int8 b = peek_int8 b >>= λ x. map_result (λ c. (x, c)) (retrieve b 8)

  unfoldable pub read_int16 : Buffer → Result (ℕ × Buffer)
  read_int16 b = peek_int16 b >>= λ x. map_result (λ c. (x, c)) (retrieve b 16)

  unfoldable pub read_int32 : Buffer → Result (ℕ × Buffer)
  read_int32 b = peek_int32 b >>= λ x. map_result (λ c. (x, c)) (retrieve b 32)

  unfoldable pub read_int64 : Buffer → Result (ℕ × Buffer)
  read_int64 b = peek_int64 b >>= λ x. map_result (λ c. (x, c)) (retrieve b 64)

  -- The methods by their type.
  unfoldable pub append_int : Width → Buffer → ℕ → Result Buffer
  append_int int8 = append_int8
  append_int int16 = append_int16
  append_int int32 = append_int32
  append_int int64 = append_int64

  unfoldable pub peek_int : Width → Buffer → Result ℕ
  peek_int int8 = peek_int8
  peek_int int16 = peek_int16
  peek_int int32 = peek_int32
  peek_int int64 = peek_int64

  unfoldable pub read_int : Width → Buffer → Result (ℕ × Buffer)
  read_int int8 = read_int8
  read_int int16 = read_int16
  read_int int32 = read_int32
  read_int int64 = read_int64
