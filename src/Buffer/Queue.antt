-- ===== src/Buffer/Queue.antt =====
-- The specification of the buffer: a queue of bytes. Scripts of the operations of src/net/Buffer.h give
-- on a valid buffer what they give on the queue, faults included.
use libsaf.Common.{
  ℕ, ◌≤◌, ◌<◌, ◌≡◌, refl, List, [], ◌∷◌, ◌++◌, arith, true, false, Bool-cases, inl, inr, Result, ok,
  fault, Fault, assert, Returns, returns, Returns-inv, map_result, ◌>>=◌, leb, tests, length, take,
  drop, take-all, drop-all,
}
use libsaf.Buffer.{
  Buffer, readable_bytes, as_string, retrieve_all, retrieve, retrieve_as_string,
  retrieve_all_as_string, append, IsValid,
}
use libsaf.Buffer.Content.{length-as_string, append-Appended}
use libsaf.Buffer.Consume.{
  retrieve-Retrieved, retrieve-fault, retrieve_as_string-Split, Split, retrieve_as_string-fault,
  retrieve_all-empty,
}

-- A call of the buffer's interface.
pub data Call : Type 0 where
  appends : List ℕ → Call
  retrieves : ℕ → Call
  retrieves_all : Call
  retrieves_string : ℕ → Call
  retrieves_all_string : Call

-- The bytes that the call returns, and the buffer after it.
unfoldable pub step : Buffer → Call → Result (List ℕ × Buffer)
step b (appends src) = map_result (λ c. ([], c)) (append b src)
step b (retrieves len) = map_result (λ c. ([], c)) (retrieve b len)
step b retrieves_all = ok ([], retrieve_all b)
step b (retrieves_string len) = retrieve_as_string b len
step b retrieves_all_string = retrieve_all_as_string b

-- The same on a queue of bytes.
unfoldable pub queue_step : List ℕ → Call → Result (List ℕ × List ℕ)
queue_step q (appends src) = ok ([], q ++ src)
queue_step q (retrieves len) = assert (leb len (length q)) (ok ([], drop len q))
queue_step q retrieves_all = ok ([], [])
queue_step q (retrieves_string len) = assert (leb len (length q)) (ok (take len q, drop len q))
queue_step q retrieves_all_string = ok (q, [])

-- A script's run, with the results of its calls in order.
module _ {S : Type 0} (call : S → Call → Result (List ℕ × S)) where
  unfoldable pub run : S → List Call → Result (List (List ℕ) × S)
  run s [] = ok ([], s)
  run s (c ∷ cs) =
      call s c >>= λ (out, s'). map_result (λ (outs, s''). (out ∷ outs, s'')) (run s' cs)

-- Both end with the same results, the buffer valid with the queue as its content, or with the same
-- fault.
pub data Matches {A : Type 0} : Result (A × Buffer) → Result (A × List ℕ) → Type 0 where
  both :
      {o : A} {b : Buffer} {q : List ℕ}
      → IsValid b
      → as_string b ≡ q
      → Matches (ok (o, b)) (ok (o, q))
  neither : {e : Fault} → Matches (fault e) (fault e)

module _ (b : Buffer) (len : ℕ) (v : IsValid b) where
  enough : leb len (length (as_string b)) ≡ true → len ≤ readable_bytes b
  enough p = omega (tests, p, length-as_string b v)

  too_few : leb len (length (as_string b)) ≡ false → readable_bytes b < len
  too_few p = omega (tests, p, length-as_string b v)

Split-Matches :
    (b : Buffer) (len : ℕ) {r : Result (List ℕ × Buffer)}
    → Returns (Split b len) r
    → Matches r (ok (take len (as_string b), drop len (as_string b)))
Split-Matches b len (returns x) = rw (← x.front) (both x.rest.valid x.rest.content)

step-Matches : (b : Buffer) (c : Call) → IsValid b → Matches (step b c) (queue_step (as_string b) c)
unfolding step queue_step retrieve_all_as_string
step-Matches b (appends src) v =
    let (c, e, x) = Returns-inv (append-Appended b src v) in rw e (both x.valid x.content)
step-Matches b (retrieves len) v = elim (Bool-cases (leb len (length (as_string b)))) [
  | inl p ↦
      let (c, e, x) = Returns-inv (retrieve-Retrieved b len v (enough b len v p)) in
      rw (p, e) (both x.valid x.content)
  | inr p ↦ rw (p, retrieve-fault b len (too_few b len v p)) neither
]
step-Matches b retrieves_all v = let (w, e) = retrieve_all-empty b in both w e
step-Matches b (retrieves_string len) v = elim (Bool-cases (leb len (length (as_string b)))) [
  | inl p ↦ rw p (Split-Matches b len (retrieve_as_string-Split b len v (enough b len v p)))
  | inr p ↦ rw (p, retrieve_as_string-fault b len (too_few b len v p)) neither
]
step-Matches b retrieves_all_string v =
    let size = length-as_string b v in
    let m =
      Split-Matches b (readable_bytes b)
        (retrieve_as_string-Split b (readable_bytes b) v (omega arith)) in
    rw
      (
        take-all (readable_bytes b) (as_string b) (omega (arith, size)),
        drop-all (readable_bytes b) (as_string b) (omega (arith, size)),
      )
      at m

prefixed :
    {r : Result (List (List ℕ) × Buffer)} {q : Result (List (List ℕ) × List ℕ)} (o : List ℕ)
    → Matches r q
    → Matches (map_result (λ (os, c). (o ∷ os, c)) r) (map_result (λ (os, c). (o ∷ os, c)) q)
prefixed o (both v e) = both v e
prefixed o neither = neither

-- A run goes on from a call's results as the rest of the script does.
module _ (cs : List Call) where
  abbrev rest :
      {S : Type 0}
      → (S → Call → Result (List ℕ × S))
      → Result (List ℕ × S)
      → Result (List (List ℕ) × S)
  rest call r = r >>= λ (out, s). map_result (λ (outs, s'). (out ∷ outs, s')) (run call s cs)

  after :
      (r : Result (List ℕ × Buffer)) (q : Result (List ℕ × List ℕ))
      → Matches r q
      → ((b : Buffer) → IsValid b → Matches (run step b cs) (run queue_step (as_string b) cs))
      → Matches (rest step r) (rest queue_step q)
  after _ _ (both {o} {b} v e) ih = rw (← e) (prefixed o (ih b v))
  after _ _ neither ih = neither

-- Any script of calls on a valid buffer returns the same bytes and leaves the same content as on a
-- queue of bytes that starts with the buffer's content, and the buffer stays valid; it faults
-- exactly when the script asks the queue for more bytes than it holds.
pub run-Matches :
    (b : Buffer) (cs : List Call)
    → IsValid b
    → Matches (run step b cs) (run queue_step (as_string b) cs)
unfolding run
run-Matches b [] v = both v refl
run-Matches b (c ∷ cs) v =
    after cs (step b c) (queue_step (as_string b) c) (step-Matches b c v)
      (λ b' w. run-Matches b' cs w)
