-- ===== src/Buffer/Consume.antt =====
-- Taking bytes out of the buffer: `retrieve`, `retrieveAll` and the string and view variants of
-- src/net/Buffer.h.
use libsaf.Common.{
  ℕ, ◌+◌, ◌-◌, ◌≤◌, ◌<◌, ◌≡◌, refl, sym, ap, ◌∙◌, List, [], arith, Bool-cases, inl, inr, fault,
  assertion, Returns, returns, Returns-inv, ltb, le→leb, take, drop, drop-take, drop-drop, drop-all,
  take-take,
}
use libsaf.Buffer.{
  Buffer, readable_bytes, as_string, peek, retrieve_all, retrieve, retrieve_as_string, NetString,
  to_string, retrieve_as_net_string, IsValid,
}
use libsaf.Buffer.Content.{length-as_string}

-- The content without its first `len` bytes, in a vector that is as it was.
pub record Retrieved (b : Buffer) (len : ℕ) (c : Buffer) : Type 0 where
  pub valid : IsValid c
  pub content : as_string c ≡ drop len (as_string b)
  pub untouched : c.bytes ≡ b.bytes

module _ (b : Buffer) (len : ℕ) (v : IsValid b) (h : len ≤ readable_bytes b) where
  advanced :
      len < readable_bytes b → Retrieved b len (record b { reader_index = b.reader_index + len })
  unfolding as_string
  advanced less =
      let n = b.writer_index - (b.reader_index + len) in
      let e : len + n ≡ b.writer_index - b.reader_index = omega arith in
      let cut : drop len (take (len + n) (drop b.reader_index b.bytes)) ≡ _ =
        drop-take len n (drop b.reader_index b.bytes) in
      record {
        valid = record { ordered = omega arith; inside = v.inside };
        content = sym ((rw e at cut) ∙ ap (take n) (drop-drop len b.reader_index b.bytes));
        untouched = refl;
      }

  emptied : readable_bytes b ≤ len → Retrieved b len (retrieve_all b)
  unfolding as_string retrieve_all
  emptied all = record {
    valid = record { ordered = omega arith; inside = omega arith };
    content = sym (drop-all len (as_string b) (omega (arith, length-as_string b v)));
    untouched = refl;
  }

  pub retrieve-Retrieved : Returns (Retrieved b len) (retrieve b len)
  unfolding retrieve
  retrieve-Retrieved = elim (Bool-cases (ltb len (readable_bytes b))) [
    | inl e ↦ rw (le→leb _ _ h, e) (returns (advanced (ground arith)))
    | inr e ↦ rw (le→leb _ _ h, e) (returns (emptied (ground arith)))
  ]

pub retrieve_all-empty : (b : Buffer) → IsValid (retrieve_all b) × (as_string (retrieve_all b) ≡ [])
unfolding retrieve_all as_string
retrieve_all-empty b = (record { ordered = omega arith; inside = omega arith }, refl)

pub retrieve-fault :
    (b : Buffer) (len : ℕ) → readable_bytes b < len → retrieve b len ≡ fault assertion
unfolding retrieve
retrieve-fault b len h = ground arith

pub retrieve_as_string-fault :
    (b : Buffer) (len : ℕ) → readable_bytes b < len → retrieve_as_string b len ≡ fault assertion
unfolding retrieve_as_string
retrieve_as_string-fault b len h = ground arith

-- The bytes that `peek()` shows are the content's first ones.
pub peek-take :
    (b : Buffer) (len : ℕ) → len ≤ readable_bytes b → peek b len ≡ take len (as_string b)
unfolding as_string
peek-take b len h = sym (take-take len (readable_bytes b) (drop b.reader_index b.bytes) h)

-- A string is the first bytes of the content, and the rest stays.
pub record Split (b : Buffer) (len : ℕ) (r : List ℕ × Buffer) : Type 0 where
  pub front : r.0 ≡ take len (as_string b)
  pub rest : Retrieved b len r.1

pub retrieve_as_string-Split :
    (b : Buffer) (len : ℕ)
    → IsValid b
    → len ≤ readable_bytes b
    → Returns (Split b len) (retrieve_as_string b len)
unfolding retrieve_as_string
retrieve_as_string-Split b len v h =
    let (c, e, x) = Returns-inv (retrieve-Retrieved b len v h) in
    rw (le→leb _ _ h, e) (returns (record { front = peek-take b len h; rest = x }))

-- A view of the first bytes that still shows them after the reader has moved on.
pub record Viewed (b : Buffer) (len : ℕ) (r : NetString × Buffer) : Type 0 where
  pub front : to_string r.1 r.0 ≡ take len (as_string b)
  pub rest : Retrieved b len r.1

-- `retrieveAsNetString` of no more bytes than a valid buffer holds does not fault. Its view shows the
-- first bytes of the content, also after the reader has moved past them; the rest of the content
-- stays, in a vector that is as it was.
pub retrieve_as_net_string-Viewed :
    (b : Buffer) (len : ℕ)
    → IsValid b
    → len ≤ readable_bytes b
    → Returns (Viewed b len) (retrieve_as_net_string b len)
unfolding retrieve_as_net_string to_string
retrieve_as_net_string-Viewed b len v h =
    let (c, e, x) = Returns-inv (retrieve-Retrieved b len v h) in
    rw (le→leb _ _ h, e)
      (returns (record {
        front = ap (λ ys. take len (drop b.reader_index ys)) x.untouched ∙ peek-take b len h;
        rest = x;
      }))
