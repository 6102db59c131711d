-- ===== src/Pipeline/Unpacking.antt =====
-- UnpackHandler of src/net/handler/UnpackHandler.cpp as a handler of a pipeline.
use libsaf.Common.{
  ◌≤◌, ◌≡◌, refl, ap, le→ltb, List, ◌∷◌, Option, none, some, Result, ok, fault, use_after_free,
  bad_cast, ◌>>=◌, map_result,
}
use libsaf.Buffer.{Buffer, NetString, readable_bytes}
use libsaf.Buffer.Integers.{Endian}
use libsaf.UnpackHandler
use libsaf.UnpackHandler.{header_bits}
use libsaf.Pipeline.{Answer, same, fresh, success, failed, Handler, Heap, process}
use libsaf.Pipeline.Ownership.{reference, Ended, ended_fault, ended_ok, IsFresh, process-Ended}

abbrev answer_of : Option NetString → Answer (Option NetString)
answer_of none = same failed
answer_of (some s) = fresh (some s) success

-- A message is a package, or the buffer that the first message points to. The handler takes its message
-- for the latter, whatever it is.
unfoldable pub unpack_handler : Endian → Handler (Option NetString) Buffer
unpack_handler machine (some s) buffer = fault bad_cast
unpack_handler machine none buffer =
    UnpackHandler.process machine buffer >>= λ (package_, rest). ok (answer_of package_, rest)

fault_of :
    {D W : Type 0} (h : Heap D) (r : Result (Heap D × W)) (ref : Result W)
    → Ended h r ref
    → ref ≡ fault use_after_free
    → r ≡ fault use_after_free
fault_of h r ref (ended_fault f) e = ap (map_result (λ w. (h, w))) e
fault_of h r ref (ended_ok {w = w} kept) e = let no : ok w ≡ fault use_after_free = e in cc

stopped :
    (machine : Endian) (handlers : List (Handler (Option NetString) Buffer)) (b : Buffer)
    → readable_bytes b ≤ header_bits
    → reference (unpack_handler machine ∷ handlers) none b ≡ fault use_after_free
unfolding reference unpack_handler UnpackHandler.process
stopped machine handlers b short = rw (le→ltb header_bits (readable_bytes b) short) refl

-- A pipeline that starts with an UnpackHandler, on a buffer with no more than the 32 bytes that the
-- handler takes for a header and in a heap with no object from its next number on, reads a deleted
-- message.
pub process-short :
    (machine : Endian) (handlers : List (Handler (Option NetString) Buffer))
    (h : Heap (Option NetString)) (b : Buffer)
    → IsFresh h
    → readable_bytes b ≤ header_bits
    → process (unpack_handler machine ∷ handlers) h none b ≡ fault use_after_free
process-short machine handlers h b none_yet short =
    fault_of h _ _ (process-Ended (unpack_handler machine ∷ handlers) h none b none_yet)
      (stopped machine handlers b short)
