-- ===== src/Buffer/Integers/Little.antt =====
-- A machine with the lowest byte first, such as x86: an instance of the parameter `Endian`.
use mathlib.Core.List.{reverse-reverse, reverse-cons}
use native.Mathlib.Nat.{pow-suc}
use libsaf.Common.{
  ℕ, zero, suc, ◌+◌, ◌*◌, ◌/◌, ◌%◌, ◌^◌, ◌<◌, ◌≡◌, refl, ap, ◌∙◌, List, [], ◌∷◌, ◌++◌, reverse,
  arith, length, length-reverse,
}
use libsaf.Buffer.Integers.{little_endian, big_endian, Endian}
use libsaf.Buffer.Integers.Roundtrip.{length-little_endian}

unfoldable pub of_little : List ℕ → ℕ
of_little [] = 0
of_little (b ∷ bs) = b + 256 * of_little bs

abbrev Bytes : List ℕ → Type 0
Bytes [] = Unit {0}
Bytes (b ∷ bs) = (b < 256) × Bytes bs

Bytes-append : (xs ys : List ℕ) → Bytes xs → Bytes ys → Bytes (xs ++ ys)
Bytes-append [] ys h k = k
Bytes-append (x ∷ xs) ys h k = (h.0, Bytes-append xs ys h.1 k)

Bytes-little_endian : (w x : ℕ) → Bytes (little_endian w x)
unfolding little_endian
Bytes-little_endian zero x = tt
Bytes-little_endian (suc w) x = (omega arith, Bytes-little_endian w (x / 256))

pub little_endian-byte : (x : ℕ) → x < 256 → little_endian 1 x ≡ x ∷ []
unfolding little_endian
little_endian-byte x h = ap (λ y. y ∷ []) (omega arith)

pub of_little-little_endian : (w x : ℕ) → x < 256 ^ w → of_little (little_endian w x) ≡ x
unfolding of_little little_endian
of_little-little_endian zero x h = omega arith
of_little-little_endian (suc w) x h =
    let p : 256 ^ suc w ≡ 256 ^ w * 256 = pow-suc 256 w in
    omega (arith, of_little-little_endian w (x / 256) (omega arith))

Bytes-reverse : (xs : List ℕ) → Bytes xs → Bytes (reverse xs)
Bytes-reverse [] h = tt
Bytes-reverse (x ∷ xs) h =
    rw (reverse-cons x xs) (Bytes-append (reverse xs) (x ∷ []) (Bytes-reverse xs h.1) (h.0, tt))

of_little-lt : (bs : List ℕ) → Bytes bs → of_little bs < 256 ^ length bs
unfolding of_little
of_little-lt [] h = omega arith
of_little-lt (b ∷ bs) h = omega (arith, pow-suc 256 (length bs), h.0, of_little-lt bs h.1)

little_endian-of_little : (bs : List ℕ) → Bytes bs → little_endian (length bs) (of_little bs) ≡ bs
unfolding of_little little_endian
little_endian-of_little [] h = refl
little_endian-of_little (b ∷ bs) h =
    let low : (b + 256 * of_little bs) % 256 ≡ b = omega (arith, h.0) in
    let high : (b + 256 * of_little bs) / 256 ≡ of_little bs = omega (arith, h.0) in
    rw (low, high) (ap (◌∷◌ b) (little_endian-of_little bs h.1))

-- `htobe` and `betoh` both reverse the bytes.
unfoldable pub byte_swap : ℕ → ℕ → ℕ
unfolding of_little
byte_swap w x = of_little (reverse (little_endian w x))

pub swapped : (w x : ℕ) → little_endian w (byte_swap w x) ≡ big_endian w x
unfolding byte_swap big_endian
swapped w x =
    let bytes = Bytes-reverse (little_endian w x) (Bytes-little_endian w x) in
    let size = length-reverse (little_endian w x) ∙ length-little_endian w x in
    rw size at (little_endian-of_little (reverse (little_endian w x)) bytes)

pub byte_swap-lt : (w x : ℕ) → byte_swap w x < 256 ^ w
unfolding byte_swap
byte_swap-lt w x =
    let bytes = Bytes-reverse (little_endian w x) (Bytes-little_endian w x) in
    let size = length-reverse (little_endian w x) ∙ length-little_endian w x in
    rw size at (of_little-lt (reverse (little_endian w x)) bytes)

pub byte_swap-twice : (w x : ℕ) → x < 256 ^ w → byte_swap w (byte_swap w x) ≡ x
unfolding big_endian
byte_swap-twice w x h =
    unfold byte_swap in
    (ap (λ ys. of_little (reverse ys)) (swapped w x)
      ∙ ap of_little (reverse-reverse (little_endian w x))
      ∙ of_little-little_endian w x h)

abbrev pub little : Endian
little = record {
  to_memory = little_endian;
  of_memory = of_little;
  htobe = byte_swap;
  betoh = byte_swap;
  of_memory-to_memory = of_little-little_endian;
  htobe-lt = λ w x _. byte_swap-lt w x;
  betoh-htobe = byte_swap-twice;
  to_memory-byte = little_endian-byte;
  to_memory-htobe = λ w x _. swapped w x;
}
