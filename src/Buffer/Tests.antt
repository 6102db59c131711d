-- ===== src/Buffer/Tests.antt =====
-- Runs of src/net/Buffer.h and src/net/Buffer.cpp on small buffers, and the theorems at them.
use libsaf.Common.{
  ℕ, ◌≤◌, ◌≡◌, refl, List, [], ◌∷◌, ◌++◌, arith, ok, fault, assertion, some, subst, Returns, length,
  take, length-take, ◌>>=◌, replicate,
}
use libsaf.Buffer.{
  Buffer, make_space, ensure_writable_bytes, append, as_string, read_fd, read_fd_limit, IsValid,
}
use libsaf.Buffer.Queue.{
  Call, appends, retrieves, retrieves_string, retrieves_all_string, step, queue_step, run, Matches,
  run-Matches,
}
use libsaf.Buffer.Input.{IsBounded, Received, read_fd-Received}
use libsaf.Buffer.Integers.{big_endian, int32, append_int, peek_int, read_int}
use libsaf.Buffer.Integers.Roundtrip.{peek_int-append_int, read_int-fault}
use libsaf.Buffer.Integers.Little.{little}

-- Three bytes between two that are behind the reader and one that is free.
abbrev small : Buffer
small = record { bytes = 8 ∷ 9 ∷ 1 ∷ 2 ∷ 3 ∷ 0 ∷ []; reader_index = 2; writer_index = 5 }

small-IsValid : IsValid small
small-IsValid = record { ordered = omega arith; inside = omega arith }

small_content : as_string small ≡ 1 ∷ 2 ∷ 3 ∷ []
unfolding as_string
small_content = refl

-- Two more bytes fit once the content has moved to the front; five need a longer vector.
append_moves :
    append small (4 ∷ 5 ∷ [])
    ≡ ok (record { bytes = 1 ∷ 2 ∷ 3 ∷ 4 ∷ 5 ∷ 0 ∷ []; reader_index = 0; writer_index = 5 })
unfolding append ensure_writable_bytes make_space
append_moves = refl

append_grows :
    append small (4 ∷ 5 ∷ 6 ∷ 7 ∷ [])
    ≡ ok (record {
      bytes = 8 ∷ 9 ∷ 1 ∷ 2 ∷ 3 ∷ 4 ∷ 5 ∷ 6 ∷ 7 ∷ [];
      reader_index = 2;
      writer_index = 9;
    })
unfolding append ensure_writable_bytes make_space
append_grows = refl

abbrev script : List Call
script = appends (4 ∷ []) ∷ retrieves_string 2 ∷ retrieves 1 ∷ retrieves_all_string ∷ []

script_result :
    run queue_step (1 ∷ 2 ∷ 3 ∷ []) script ≡ ok ([] ∷ (1 ∷ 2 ∷ []) ∷ [] ∷ (4 ∷ []) ∷ [], [])
unfolding run queue_step
script_result = refl

run-Matches_example : Matches (run step small script) (run queue_step (as_string small) script)
run-Matches_example = run-Matches small script small-IsValid

-- A peer that has sent some bytes.
sent-IsBounded : (src : List ℕ) → IsBounded (λ n. some (take n src))
sent-IsBounded src n got e =
    let p : take n src ≡ got = cc in subst (λ ys. length ys ≤ n) p (rw length-take (omega arith))

read_fd-Received_example :
    Returns
      (Received small (some (take (read_fd_limit small) (4 ∷ 5 ∷ []))))
      (read_fd small (λ n. some (take n (4 ∷ 5 ∷ []))))
read_fd-Received_example =
    read_fd-Received small (λ n. some (take n (4 ∷ 5 ∷ []))) small-IsValid
      (sent-IsBounded (4 ∷ 5 ∷ []))

-- An empty buffer of no size, and one that holds an integer and two more bytes.
abbrev empty : Buffer
empty = record { bytes = []; reader_index = 0; writer_index = 0 }

empty-IsValid : IsValid empty
empty-IsValid = record { ordered = omega arith; inside = omega arith }

empty_content : as_string empty ≡ []
unfolding as_string
empty_content = refl

peek_int-append_int_example :
    (append_int little int32 empty 258 >>= λ c. append c (7 ∷ []) >>= peek_int little int32)
    ≡ ok 258
peek_int-append_int_example =
    peek_int-append_int little int32 empty 258 (7 ∷ []) empty-IsValid empty_content (omega arith)

abbrev message : Buffer
message = record { bytes = 0 ∷ 0 ∷ 1 ∷ 2 ∷ 7 ∷ 8 ∷ []; reader_index = 0; writer_index = 6 }

message-IsValid : IsValid message
message-IsValid = record { ordered = omega arith; inside = omega arith }

message_content : as_string message ≡ big_endian 4 258 ++ 7 ∷ 8 ∷ []
unfolding as_string big_endian
message_content = refl

read_int-fault_example : read_int little int32 message ≡ fault assertion
read_int-fault_example =
    read_int-fault little int32 message 258 (7 ∷ 8 ∷ []) message-IsValid message_content
      (omega arith) (omega arith)

-- The integer and 29 bytes behind it: reading it leaves the last of them.
abbrev long_message : Buffer
long_message = record {
  bytes = 0 ∷ 0 ∷ 1 ∷ 2 ∷ (replicate 28 0 ++ 5 ∷ []);
  reader_index = 0;
  writer_index = 33;
}

long_message-IsValid : IsValid long_message
long_message-IsValid = record { ordered = omega arith; inside = omega arith }

long_message_content : as_string long_message ≡ big_endian 4 258 ++ (replicate 28 0 ++ 5 ∷ [])
unfolding as_string big_endian
long_message_content = refl
