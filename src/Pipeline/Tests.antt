-- ===== src/Pipeline/Tests.antt =====
-- A pipeline with an UnpackHandler on a little-endian machine, and the theorem there.
use libsaf.Common.{◌≡◌, refl, arith, ◌++◌, [], ◌∷◌, Option, none, fault, use_after_free, replicate}
use libsaf.Buffer.{Buffer, NetString}
use libsaf.Buffer.Integers.Little.{little}
use libsaf.Pipeline.{Heap, process}
use libsaf.Pipeline.Ownership.{reference, Ended, process-Ended}
use libsaf.Pipeline.Unpacking.{unpack_handler, process-short}

abbrev empty : Heap (Option NetString)
empty = record { objects = λ i. none; next = 0 }

-- A package of two bytes, and no second one.
abbrev packed : Buffer
packed = record {
  bytes = (0 ∷ 0 ∷ 0 ∷ 2 ∷ []) ++ replicate 28 0 ++ 104 ∷ 105 ∷ 33 ∷ [];
  reader_index = 0;
  writer_index = 35;
}

process-Ended_example :
    Ended empty
      (process (unpack_handler little ∷ unpack_handler little ∷ []) empty none packed)
      (reference (unpack_handler little ∷ unpack_handler little ∷ []) none packed)
process-Ended_example =
    process-Ended (unpack_handler little ∷ unpack_handler little ∷ []) empty none packed
      (λ i l. refl)

-- The first bytes of a package have come.
abbrev begun : Buffer
begun = record { bytes = 0 ∷ 0 ∷ 0 ∷ 2 ∷ 0 ∷ []; reader_index = 0; writer_index = 5 }

process-short_example : process (unpack_handler little ∷ []) empty none begun ≡ fault use_after_free
process-short_example = process-short little [] empty begun (λ i l. refl) (omega arith)
