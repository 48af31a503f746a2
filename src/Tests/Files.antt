-- ===== src/Tests/Files.antt =====
-- core/lbu/io.h and core/fd_stream.cpp at concrete calls.
use lbu.Common.{
  ℕ, ◌%◌, ◌≡◌, ◌++◌, List, [], ◌∷◌, Option, none, some, Bool, true, false, inl, arith, refl, drop,
  map,
}
use lbu.ArrayRef.{ArrayRef}
use lbu.Io.{IoVector, Response, moved, failed, eintr, io_vector_array_advance, write_all}
use lbu.Io.Vectors.{addresses, advance-drop}
use lbu.Io.All.{Ready, Part, write_all-Part}
use lbu.FdStream.{blocking, always_blocking, Device, update_blocking}
use lbu.FdStream.Output.{OutputStream, write_fd, write}
use lbu.FdStream.Valid.{IsValid, pending, flushed}
use lbu.FdStream.Returns.{write_fd-returns}
use lbu.FdStream.Write.{one_vector, Wrote, write-Wrote}
use lbu.FdStream.Input.{InputStream, Source}
use lbu.FdStream.Reads.{get_read_buffer}
use lbu.FdStream.Filled.{Filled, get_read_buffer-Filled}
use lbu.FdStream.Kept
use lbu.FdStream.Reads
use lbu.FdStream.Kept.{ReadKept}
use lbu.FdStream.Ordered.{read-ReadKept}
use lbu.FdStream.Complete.{Completed}
use lbu.FdStream.Ends.{read-Completed}

abbrev two_vectors : List IoVector
two_vectors = record { iov_base = 100; iov_len = 3 } ∷ record { iov_base = 200; iov_len = 4 } ∷ []

advance-drop_example :
    addresses (io_vector_array_advance two_vectors 5) ≡ drop 5 (addresses two_vectors)
advance-drop_example = advance-drop two_vectors 5 (omega arith)

abbrev calls : List Response
calls = moved 2 ∷ failed eintr ∷ moved 6 ∷ []

abbrev source : ArrayRef
source = record { begin = 100; size = 7 }

write_all-Part_example : Part 100 7 [] (write_all calls source [])
write_all-Part_example = write_all-Part calls source ((λ e. omega (arith, e)), tt) (omega arith)

-- Two bytes wait in a buffer of four.
abbrev waiting : OutputStream
waiting = record {
  manages_buffer = true;
  buffer_base_ptr = 500;
  buffer_offset = 2;
  buffer_available = 2;
  has_error = false;
  fd_blocking = always_blocking;
  filedes = some 3;
  buffer_capacity = 4;
  buffer_write_offset = 0;
  err = 0;
}

waiting-IsValid : IsValid waiting
waiting-IsValid = record {
  in_order = omega arith;
  inside = omega arith;
  small = omega arith;
  unmanaged = inl refl;
}

abbrev memory : ℕ → ℕ
memory i = i % 256

abbrev file : Device
file = record { script = moved 1 ∷ failed eintr ∷ moved 20 ∷ []; sent = [] }

abbrev no_call : Bool → Option ℕ
no_call b = none

write_fd-returns_example :
    (d' : Device) × (write_fd no_call memory (one_vector source) blocking waiting file
      ≡ some (some 7, flushed waiting, d'))
    × (d'.sent ≡ map memory (pending waiting ++ addresses (one_vector source)))
unfolding update_blocking
write_fd-returns_example =
    write_fd-returns no_call memory (one_vector source) waiting file waiting-IsValid (λ _. refl)
      (omega arith) refl refl (omega arith, (refl, (omega arith, tt))) (omega arith)

write-Wrote_example :
    Wrote memory source waiting file (write no_call memory source blocking waiting file)
write-Wrote_example =
    write-Wrote no_call memory source blocking waiting file waiting-IsValid (inl (omega arith))
      (omega arith)

-- Nothing is available in a buffer of four, and five bytes come.
abbrev input : InputStream
input = record {
  manages_buffer = true;
  buffer_base_ptr = 500;
  buffer_offset = 3;
  buffer_available = 0;
  has_error = false;
  at_end = false;
  fd_blocking = always_blocking;
  filedes = some 3;
  buffer_capacity = 4;
  err = 0;
}

abbrev five : Source
five = record { script = failed eintr ∷ moved 9 ∷ []; coming = 1 ∷ 2 ∷ 3 ∷ 4 ∷ 5 ∷ [] }

get_read_buffer-Filled_example :
    Filled input five (get_read_buffer no_call blocking input memory five)
get_read_buffer-Filled_example =
    get_read_buffer-Filled no_call blocking input memory five (omega arith) refl

-- One byte is available behind those read before, and the caller asks for five.
abbrev one_left : InputStream
one_left = record input { buffer_offset = 2; buffer_available = 1 }

abbrev five_bytes : ArrayRef
five_bytes = record { begin = 100; size = 5 }

one_left-IsValid : Kept.IsValid one_left
one_left-IsValid = record { inside = omega arith; small = omega arith; unmanaged = inl refl }

read-ReadKept_example :
    ReadKept five_bytes one_left memory five
      (Reads.read no_call five_bytes blocking one_left memory five)
read-ReadKept_example =
    read-ReadKept no_call five_bytes blocking one_left memory five one_left-IsValid
      (inl (omega arith))

-- The file moves two bytes at most in a call.
abbrev slow : Source
slow = record {
  script = moved 2 ∷ failed eintr ∷ moved 1 ∷ moved 2 ∷ moved 2 ∷ moved 2 ∷ [];
  coming = 1 ∷ 2 ∷ 3 ∷ 4 ∷ 5 ∷ [];
}

slow-Ready : Ready slow.script
slow-Ready = (omega arith, (refl, (omega arith, (omega arith, (omega arith, (omega arith, tt))))))

read-Completed_example : Completed 5 (Reads.read no_call five_bytes blocking one_left memory slow)
unfolding update_blocking
read-Completed_example =
    read-Completed no_call five_bytes one_left memory slow one_left-IsValid refl (omega arith) refl
      refl refl slow-Ready (omega arith)
