-- ===== src/Buffer/Integers/Roundtrip.antt =====
-- What the integer methods of src/net/Buffer.h write and read: the wire format, the round trip through
-- `peekInt*`, and how many bytes `readInt*` takes.
use libsaf.Common.{
  ℕ, zero, suc, ◌+◌, ◌*◌, ◌/◌, ◌^◌, ◌≤◌, ◌<◌, ◌≡◌, refl, sym, ap, ◌∙◌, List, [], ◌∷◌, ◌++◌, arith,
  ok, fault, assertion, Returns, returns, Returns-inv, map_result, ◌>>=◌, le→leb, length, take,
  drop, take-append, drop-append, drop-drop, length-reverse, length-append,
}
use libsaf.Buffer.{Buffer, readable_bytes, peek, as_string, retrieve, append, IsValid}
use libsaf.Buffer.Content.{Appended, append-Appended, length-as_string}
use libsaf.Buffer.Consume.{retrieve-Retrieved, retrieve-fault, peek-take}
use libsaf.Buffer.Integers.{
  little_endian, big_endian, Endian, Width, int8, int16, int32, int64, size_of, host_to_network,
  network_to_host, append_int, append_int8, append_int16, append_int32, append_int64, peek_int,
  peek_int8, peek_int16, peek_int32, peek_int64, read_int, read_int8, read_int16, read_int32,
  read_int64,
}

pub length-little_endian : (w x : ℕ) → length (little_endian w x) ≡ w
unfolding little_endian
length-little_endian zero x = refl
length-little_endian (suc w) x = ap suc (length-little_endian w (x / 256))

pub length-big_endian : (w x : ℕ) → length (big_endian w x) ≡ w
unfolding big_endian
length-big_endian w x = length-reverse (little_endian w x) ∙ length-little_endian w x

big_endian-byte : (x : ℕ) → x < 256 → big_endian 1 x ≡ x ∷ []
unfolding big_endian little_endian
big_endian-byte x h = ap (λ y. y ∷ []) (omega arith)

module _ (machine : Endian) where
  open machine use {to_memory, of_memory, htobe, betoh}

  append_int-as_append :
      (w : Width) (b : Buffer) (x : ℕ)
      → x < 256 ^ size_of w
      → append_int machine w b x ≡ append b (big_endian (size_of w) x)
  unfolding append_int append_int8 append_int16 append_int32 append_int64 host_to_network
  append_int-as_append int8 b x h =
      ap (append b) (machine.to_memory-byte x (omega arith) ∙ sym (big_endian-byte x (omega arith)))
  append_int-as_append int16 b x h = ap (append b) (machine.to_memory-htobe 2 x h)
  append_int-as_append int32 b x h = ap (append b) (machine.to_memory-htobe 4 x h)
  append_int-as_append int64 b x h = ap (append b) (machine.to_memory-htobe 8 x h)

  -- The integer methods write the big-endian bytes of an integer of their width behind the content of
  -- a valid buffer, on any machine, and keep the buffer valid.
  pub append_int-Appended :
      (w : Width) (b : Buffer) (x : ℕ)
      → IsValid b
      → x < 256 ^ size_of w
      → Returns (Appended b (big_endian (size_of w) x)) (append_int machine w b x)
  append_int-Appended w b x v h =
      rw (append_int-as_append w b x h) (append-Appended b (big_endian (size_of w) x) v)

  module _ (b : Buffer) (w x : ℕ) (rest : List ℕ) (v : IsValid b)
      (e : as_string b ≡ big_endian w x ++ rest) where
    there : w ≤ readable_bytes b
    there = omega (
      arith,
      length-as_string b v,
      ap length e,
      length-append (big_endian w x) rest,
      length-big_endian w x,
    )

    wire : peek b w ≡ big_endian w x
    wire =
        peek-take b w there
        ∙ ap (take w) e
        ∙ take-append w (big_endian w x) rest (sym (length-big_endian w x))

    module _ (h : x < 256 ^ w) where
      decoded : betoh w (of_memory (peek b w)) ≡ x
      decoded =
          ap (λ ys. betoh w (of_memory ys)) (wire ∙ sym (machine.to_memory-htobe w x h))
          ∙ ap (betoh w) (machine.of_memory-to_memory w (htobe w x) (machine.htobe-lt w x h))
          ∙ machine.betoh-htobe w x h

  peek_int-decodes :
      (w : Width) (b : Buffer) (x : ℕ) (rest : List ℕ)
      → IsValid b
      → as_string b ≡ big_endian (size_of w) x ++ rest
      → x < 256 ^ size_of w
      → peek_int machine w b ≡ ok x
  unfolding peek_int peek_int8 peek_int16 peek_int32 peek_int64 network_to_host
  peek_int-decodes int8 b x rest v e h =
      let byte = machine.to_memory-byte x h in
      let seen = wire b 1 x rest v e ∙ big_endian-byte x h ∙ sym byte in
      rw (le→leb _ _ (there b 1 x rest v e))
        (ap ok (ap of_memory seen ∙ machine.of_memory-to_memory 1 x h))
  peek_int-decodes int16 b x rest v e h =
      rw (le→leb _ _ (there b 2 x rest v e)) (ap ok (decoded b 2 x rest v e h))
  peek_int-decodes int32 b x rest v e h =
      rw (le→leb _ _ (there b 4 x rest v e)) (ap ok (decoded b 4 x rest v e h))
  peek_int-decodes int64 b x rest v e h =
      rw (le→leb _ _ (there b 8 x rest v e)) (ap ok (decoded b 8 x rest v e h))

  -- An integer that is written into a valid and empty buffer is peeked back, whatever is appended after it,
  -- on any machine and for each of the four types.
  pub peek_int-append_int :
      (w : Width) (b : Buffer) (x : ℕ) (more : List ℕ)
      → IsValid b
      → as_string b ≡ []
      → x < 256 ^ size_of w
      → (append_int machine w b x >>= λ c. append c more >>= peek_int machine w) ≡ ok x
  peek_int-append_int w b x more v e h =
      let (c, p, y) = Returns-inv (append_int-Appended w b x v h) in
      let (d, q, z) = Returns-inv (append-Appended c more y.valid) in
      rw (p, q)
        (peek_int-decodes w d x more z.valid
          (z.content
            ∙ ap (λ ys. ys ++ more) (y.content ∙ ap (λ ys. ys ++ big_endian (size_of w) x) e))
          h)

  read_int-as_peek :
      (w : Width) (b : Buffer)
      → read_int machine w b
        ≡ (peek_int machine w b >>= λ x. map_result (λ c. (x, c)) (retrieve b (8 * size_of w)))
  unfolding read_int read_int8 read_int16 read_int32 read_int64 peek_int
  read_int-as_peek int8 b = refl
  read_int-as_peek int16 b = refl
  read_int-as_peek int32 b = refl
  read_int-as_peek int64 b = refl

  module _ (w : Width) (b : Buffer) (x : ℕ) (rest : List ℕ) (v : IsValid b)
      (e : as_string b ≡ big_endian (size_of w) x ++ rest) (h : x < 256 ^ size_of w) where
    readable : readable_bytes b ≡ size_of w + length rest
    readable = omega (
      arith,
      length-as_string b v,
      ap length e,
      length-append (big_endian (size_of w) x) rest,
      length-big_endian (size_of w) x,
    )

    -- On a valid buffer whose content starts with an integer, `readInt*` fails an assertion if fewer
    -- bytes than seven times the integer's size follow, although the integer itself is there.
    pub read_int-fault : length rest < 7 * size_of w → read_int machine w b ≡ fault assertion
    read_int-fault short = rw (
      read_int-as_peek w b,
      peek_int-decodes w b x rest v e h,
      retrieve-fault b (8 * size_of w) (omega (arith, readable)),
    )

    past : drop (8 * size_of w) (as_string b) ≡ drop (7 * size_of w) rest
    past =
        let both : 8 * size_of w ≡ size_of w + 7 * size_of w = omega arith in
        let size = sym (length-big_endian (size_of w) x) in
        ap (λ n. drop n (as_string b)) both
        ∙ sym (drop-drop (7 * size_of w) (size_of w) (as_string b))
        ∙ ap (drop (7 * size_of w)) (ap (drop (size_of w)) e ∙ drop-append (size_of w) _ rest size)

    -- On a valid buffer whose content starts with an integer that at least seven times its size of bytes
    -- follow, `readInt*` returns the integer, and drops seven times its size of those bytes too.
    pub read_int-skips :
        7 * size_of w ≤ length rest
        → Returns
            (λ (y, c). (y ≡ x) × IsValid c × (as_string c ≡ drop (7 * size_of w) rest))
            (read_int machine w b)
    read_int-skips long =
        let (c, p, y) =
          Returns-inv (retrieve-Retrieved b (8 * size_of w) v (omega (arith, readable))) in
        rw (read_int-as_peek w b, peek_int-decodes w b x rest v e h, p)
          (returns (refl, y.valid, y.content ∙ past))
