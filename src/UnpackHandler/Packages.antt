-- ===== src/UnpackHandler/Packages.antt =====
-- Which package UnpackHandler::process of src/net/handler/UnpackHandler.cpp gives, and when.
use libsaf.Common.{
  ℕ, ◌+◌, ◌^◌, ◌≤◌, ◌≡◌, refl, ap, ◌∙◌, arith, Bool, true, false, ◌&&◌, Bool-cases, inl, inr,
  Option, none, some, Returns, returns, Returns-bind, ltb, leb, leb→le, ltb→lt, le→leb, length,
  take, drop, drop-drop, length-drop, ◌⊎◌,
}
use libsaf.Buffer.{Buffer, IsValid, readable_bytes, peek, as_string, NetString, to_string}
use libsaf.Buffer.Content.{length-as_string}
use libsaf.Buffer.Consume.{retrieve-Retrieved, peek-take}
use libsaf.Buffer.Integers.{Endian, peek_int32, network_to_host}
use libsaf.UnpackHandler.{is_positive, unpack, unpack_sized, process}

-- The integer that the first four bytes are, in network order.
abbrev pub first_int32 : Endian → Buffer → ℕ
first_int32 machine b = machine.betoh 4 (machine.of_memory (take 4 (as_string b)))

-- Of `n` readable bytes, is there a package of this size, which is positive as a signed integer?
abbrev pub is_package : ℕ → ℕ → Bool
is_package n size = ltb 32 n && (ltb 0 size && ltb size (2 ^ 31)) && leb (size + 32) n

-- The package of so many bytes behind a header of 32 bytes; the buffer holds what follows it.
pub record Unpacked (b : Buffer) (size : ℕ) (s : NetString) (c : Buffer) : Type 0 where
  pub valid : IsValid c
  pub sized : s.size ≡ size
  pub shown : to_string c s ≡ take size (drop 32 (as_string b))
  pub rest : as_string c ≡ drop (32 + size) (as_string b)

-- A package of this size is given, or none is and the buffer is as it was.
abbrev pub Processed : Buffer → ℕ → Bool → Option NetString × Buffer → Type 0
Processed b size true (some s, c) = Unpacked b size s c
Processed b size true (none, c) = ⊥
Processed b size false r = r ≡ (none, b)

unpack-Processed :
    (b : Buffer) (size : ℕ)
    → IsValid b
    → size + 32 ≤ readable_bytes b
    → Returns (Processed b size true) (unpack b size)
unfolding unpack to_string
unpack-Processed b size v h = Returns-bind (retrieve-Retrieved b 32 v (omega arith)) λ b₁ r₁.
    let room : size ≤ readable_bytes b₁ = omega (
      arith,
      h,
      length-as_string b v,
      length-as_string b₁ r₁.valid,
      ap length r₁.content,
      length-drop 32 (as_string b),
    ) in
    Returns-bind (retrieve-Retrieved b₁ size r₁.valid room) λ b₂ r₂. returns (record {
      valid = r₂.valid;
      sized = refl;
      shown =
          ap (λ ys. take size (drop b₁.reader_index ys)) r₂.untouched
          ∙ peek-take b₁ size room
          ∙ ap (take size) r₁.content;
      rest = r₂.content ∙ ap (drop size) r₁.content ∙ drop-drop size 32 (as_string b);
    })

leb-cases : (a : Bool) (x y : ℕ) → (((a && leb x y) ≡ true) × (x ≤ y)) ⊎ ((a && leb x y) ≡ false)
leb-cases false x y = inr refl
leb-cases true x y = elim (Bool-cases (leb x y)) [
  | inl within ↦ inl (within, leb→le x y within)
  | inr beyond ↦ inr beyond
]

unpack_sized-Processed :
    (b : Buffer) (size : ℕ)
    → IsValid b
    → Returns
        (Processed b size (is_positive size && leb (size + 32) (readable_bytes b)))
        (unpack_sized b size)
unfolding unpack_sized
unpack_sized-Processed b size v =
    elim (leb-cases (is_positive size) (size + 32) (readable_bytes b)) [
      | inl (fits, room) ↦ rw fits (unpack-Processed b size v room)
      | inr beyond ↦ rw beyond (returns refl)
    ]

-- UnpackHandler::process on a valid buffer never faults, on any machine. It gives a package exactly if
-- there are more than 32 readable bytes, and the integer that the first four are is positive and with
-- 32 not more than all of them: the package is then a view of so many bytes as the integer says,
-- behind the first 32, and the buffer holds exactly what follows it. If not, it fails and leaves the
-- buffer as it is.
pub process-Processed :
    (machine : Endian) (b : Buffer)
    → IsValid b
    → Returns
        (Processed b
          (first_int32 machine b)
          (is_package (readable_bytes b) (first_int32 machine b)))
        (process machine b)
unfolding process peek_int32 network_to_host
process-Processed machine b v = elim (Bool-cases (ltb 32 (readable_bytes b))) [
  | inl long ↦
      let room : 4 ≤ readable_bytes b = omega (arith, ltb→lt _ _ long) in
      let first : machine.betoh 4 (machine.of_memory (peek b 4)) ≡ first_int32 machine b =
        ap (λ xs. machine.betoh 4 (machine.of_memory xs)) (peek-take b 4 room) in
      rw (long, le→leb _ _ room, first) (unpack_sized-Processed b (first_int32 machine b) v)
  | inr short ↦ rw short (returns refl)
]
