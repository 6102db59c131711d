-- ===== src/Buffer/Content.antt =====
-- The buffer as a queue of bytes: what the operations of src/net/Buffer.h and src/net/Buffer.cpp do to the
-- readable bytes, and the room that they need.
use libsaf.Common.{
  ℕ, ◌+◌, ◌-◌, ◌≤◌, ◌<◌, ◌≡◌, refl, sym, ap, ◌∙◌, List, ◌++◌, arith, true, Bool-cases, inl, inr,
  Returns, returns, Returns-bind, ltb, leb, lt→ltb, le→ltb, le→leb, ◌==◌, if◌then◌else◌, length,
  take, drop, replicate, length-append, length-take, length-drop, length-replicate, take-append,
  drop-append_left, drop-take, take-all, take-append_left,
}
use libsaf.Buffer.{
  Buffer, readable_bytes, writable_bytes, prependable_bytes, cheap_prepend, as_string, resize,
  make_space, ensure_writable_bytes, write_at, write, append, IsValid,
}

pub length-as_string : (b : Buffer) → IsValid b → length (as_string b) ≡ readable_bytes b
unfolding as_string
length-as_string b v = rw (length-take, length-drop) (omega arith)

-- The bytes before `r` are behind the reader.
module _ (xs src : List ℕ) (r w : ℕ) (rw_le : r ≤ w) (inside : w ≤ length xs) where
  read_back : take (w - r) (drop r xs) ≡ drop r (take w xs)
  read_back =
      let e : r + (w - r) ≡ w = omega arith in
      let d : drop r (take (r + (w - r)) xs) ≡ take (w - r) (drop r xs) = drop-take r (w - r) xs in
      sym (rw e at d)

  write_at-content :
      take (w + length src - r) (drop r (write_at xs w src)) ≡ take (w - r) (drop r xs) ++ src
  write_at-content =
      let front : r ≤ length (take w xs) = rw (length-take) (omega arith) in
      let read : length (drop r (take w xs) ++ src) ≡ w + length src - r =
        rw (length-append, length-drop, length-take) (omega arith) in
      let wide : r ≤ length (take w xs ++ src) =
        omega (arith, front, length-append (take w xs) src) in
      rw
        (
          drop-append_left r (take w xs ++ src) (drop (w + length src) xs) wide,
          drop-append_left r (take w xs) src front,
          read_back,
        )
        (take-append (w + length src - r) (drop r (take w xs) ++ src) _ (sym read))

pub length-write_at :
    (xs src : List ℕ) (w : ℕ) → w + length src ≤ length xs → length (write_at xs w src) ≡ length xs
length-write_at xs src w h =
    rw (length-append, length-append, length-take, length-drop) (omega arith)

-- A valid buffer with the content of `b` and room for `len` more bytes. The vector grows only if
-- the room before the reader and behind the writer together is too short.
pub record HasRoom (b : Buffer) (len : ℕ) (c : Buffer) : Type 0 where
  pub valid : IsValid c
  pub same : as_string c ≡ as_string b
  pub room : len ≤ writable_bytes c
  pub size : length c.bytes ≡ (
      if ltb (writable_bytes b + prependable_bytes b) len
      then b.writer_index + len
      else length b.bytes)

length-resize : (xs : List ℕ) (n : ℕ) → length xs ≤ n → length (resize xs n) ≡ n
unfolding resize
length-resize xs n h = rw (take-all n xs h, length-append, length-replicate) (omega arith)

module _ (b : Buffer) (len : ℕ) (v : IsValid b) (short : writable_bytes b < len) where
  grown-HasRoom :
      writable_bytes b + prependable_bytes b < len
      → HasRoom b len (record b { bytes = resize b.bytes (b.writer_index + len) })
  unfolding as_string resize
  grown-HasRoom few =
      let size = length-resize b.bytes (b.writer_index + len) (omega arith) in
      record {
        valid = record { ordered = v.ordered; inside = omega (arith, size) };
        same = rw (
          take-all (b.writer_index + len) b.bytes (omega arith),
          drop-append_left b.reader_index b.bytes (replicate _ 0) (omega arith),
          take-append_left (readable_bytes b) (drop b.reader_index b.bytes) (replicate _ 0)
              (rw (length-drop) (omega arith)),
        );
        room = omega (arith, size);
        size = rw (lt→ltb _ _ few) size;
      }

  abbrev moved : Buffer
  moved = record b {
    bytes = write_at b.bytes cheap_prepend (as_string b);
    reader_index = cheap_prepend;
    writer_index = cheap_prepend + readable_bytes b;
  }

  moved-HasRoom : len ≤ writable_bytes b + prependable_bytes b → HasRoom b len moved
  unfolding as_string
  moved-HasRoom enough =
      let read = length-as_string b v in
      let size = length-write_at b.bytes (as_string b) 0 (omega (arith, read)) in
      record {
        valid = record { ordered = omega arith; inside = omega (arith, size) };
        same = take-append _ (as_string b) _ (omega (arith, read));
        room = omega (arith, size);
        size = rw (le→ltb _ _ enough) size;
      }

  make_space-HasRoom : Returns (HasRoom b len) (make_space b len)
  unfolding make_space as_string
  make_space-HasRoom =
      elim (Bool-cases (ltb (writable_bytes b + prependable_bytes b) (len + cheap_prepend))) [
        | inl e ↦ rw e (returns (grown-HasRoom (ground arith)))
        | inr e ↦
            let pos : ltb 0 b.reader_index ≡ true = ground arith in
            let kept : (readable_bytes b == 0 + readable_bytes b - 0) ≡ true = ground arith in
            rw (e, pos, kept) (returns (moved-HasRoom (ground arith)))
      ]

-- `ensureWritableBytes` always makes the room, and keeps the content.
pub ensure_writable_bytes-HasRoom :
    (b : Buffer) (len : ℕ) → IsValid b → Returns (HasRoom b len) (ensure_writable_bytes b len)
unfolding ensure_writable_bytes
ensure_writable_bytes-HasRoom b len v = elim (Bool-cases (ltb (writable_bytes b) len)) [
  | inl e ↦ rw e (
      Returns-bind (make_space-HasRoom b len v (ground arith))
        λ c h. rw (le→leb _ _ h.room) (returns h))
  | inr e ↦
      let room : leb len (writable_bytes b) ≡ true = ground arith in
      rw (e, room)
        (returns (record { valid = v; same = refl; room = ground arith; size = ground arith }))
]

-- A valid buffer that holds the content of `b` and then `src`.
pub record Appended (b : Buffer) (src : List ℕ) (c : Buffer) : Type 0 where
  pub valid : IsValid c
  pub content : as_string c ≡ as_string b ++ src

pub write-Appended :
    (b : Buffer) (src : List ℕ)
    → IsValid b
    → length src ≤ writable_bytes b
    → Appended b src (write b src)
unfolding as_string
write-Appended b src v room = record {
  valid = record {
    ordered = omega arith;
    inside = omega (arith, length-write_at b.bytes src b.writer_index (omega arith));
  };
  content = write_at-content b.bytes src b.reader_index b.writer_index v.ordered v.inside;
}

-- `append` never faults on a valid buffer, and adds exactly the bytes behind the content.
pub append-Appended :
    (b : Buffer) (src : List ℕ) → IsValid b → Returns (Appended b src) (append b src)
unfolding append
append-Appended b src v = Returns-bind (ensure_writable_bytes-HasRoom b (length src) v) λ c h.
    let w = write-Appended c src h.valid h.room in
    returns (record { valid = w.valid; content = w.content ∙ ap (λ xs. xs ++ src) h.same })

-- An append to a valid buffer of no more bytes than there is room before the reader and behind the
-- writer together does not fault and keeps the vector's size.
pub append-size :
    (b : Buffer) (src : List ℕ)
    → IsValid b
    → length src ≤ writable_bytes b + prependable_bytes b
    → Returns (λ c. length c.bytes ≡ length b.bytes) (append b src)
unfolding append
append-size b src v enough = Returns-bind (ensure_writable_bytes-HasRoom b (length src) v) λ c h.
    let size : length c.bytes ≡ length b.bytes = rw (le→ltb _ _ enough) at h.size in
    returns
      (length-write_at c.bytes src c.writer_index (omega (arith, h.room, h.valid.inside)) ∙ size)
