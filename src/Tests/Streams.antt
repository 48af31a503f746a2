-- ===== src/Tests/Streams.antt =====
-- core/byte_buffer_stream.cpp and core/ring_spsc_stream.cpp at concrete streams.
use lbu.Common.{ℕ, ◌≡◌, ◌≢◌, [], ◌∷◌, none, true, false, arith, refl, replicate}
use lbu.ByteBuffer.{small, ext, size, capacity, ref}
use lbu.ByteStream.Reader.{ByteBufferInputStream, current_buffer, read}
use lbu.ByteStream.Reading.{HasRead, read-HasRead}
use lbu.ByteStream.Writer.{ByteBufferOutputStream, write, write_buffer_flush, get_write_buffer}
use lbu.ByteStream.Writing.{
  IsValid, contents, Added, write-Added, write_buffer_flush_lem, write-refused,
  get_write_buffer-lost,
}
use lbu.Ring.Mirrored.{consumer_free_slots}
use lbu.RingStream.{m, RingOutputStream, SharedData, input_update_buffer_size, set_end_of_stream}
use lbu.RingStream.End.{update_buffer_size_ended-unread}

abbrev junk : ℕ → ℕ
junk i = 170

-- The stream has read two of five bytes.
abbrev reader : ByteBufferInputStream
reader = record {
  buffer_base_ptr = 1 ∷ 2 ∷ 3 ∷ 4 ∷ 5 ∷ [];
  buffer_offset = 2;
  buffer_available = 3;
  has_error = false;
  at_end = false;
}

read-HasRead_example : HasRead (current_buffer reader) 7 (read reader 7)
read-HasRead_example =
    read-HasRead reader 7 (record { inside = omega arith; small = omega arith }) refl

-- Three bytes were written to the small storage, and one is committed.
abbrev writer : ByteBufferOutputStream
writer = record {
  buffer = small 3 (7 ∷ 8 ∷ 9 ∷ replicate 12 0);
  buffer_offset = 3;
  buffer_available = 12;
  has_error = false;
}

writer-IsValid : IsValid writer
unfolding size capacity
writer-IsValid = record {
  buffer = (refl, omega arith, refl);
  begun = omega arith;
  inside = omega arith;
}

write-Added_example : Added writer (4 ∷ 5 ∷ []) (write junk writer (4 ∷ 5 ∷ []))
write-Added_example =
    write-Added junk writer (4 ∷ 5 ∷ []) writer-IsValid (omega arith) (omega arith)

write_buffer_flush_lem_example :
    ((write_buffer_flush junk writer).0 ≡ true)
    × IsValid (write_buffer_flush junk writer).1
    × (ref (write_buffer_flush junk writer).1.buffer ≡ 7 ∷ 8 ∷ 9 ∷ [])
    × (contents (write_buffer_flush junk writer).1 ≡ 7 ∷ 8 ∷ 9 ∷ [])
write_buffer_flush_lem_example = write_buffer_flush_lem junk writer writer-IsValid refl

write-refused_example :
    ((write junk writer (replicate 13 1)).0 ≡ none)
    × ((write junk writer (replicate 13 1)).1.has_error ≡ true)
write-refused_example =
    write-refused junk writer (replicate 13 1) writer-IsValid refl (omega arith) (omega arith)

-- A block of 32 bytes has been filled, and none of them is committed.
abbrev full : ByteBufferOutputStream
full = record {
  buffer = ext 62 0 (replicate 32 6);
  buffer_offset = 32;
  buffer_available = 0;
  has_error = false;
}

get_write_buffer-lost_example :
    (contents (get_write_buffer junk full) ≡ ref full.buffer)
    × (contents (get_write_buffer junk full) ≢ replicate 32 6)
unfolding size capacity
get_write_buffer-lost_example =
    get_write_buffer-lost junk full
      (record {
        buffer = (refl, omega arith, omega arith, omega arith, refl);
        begun = omega arith;
        inside = omega arith;
      })
      refl (omega arith)

-- Three bytes are written to a ring of eight, and none is published.
abbrev ring_writer : RingOutputStream
ring_writer = record {
  buffer_offset = 3;
  buffer_available = 5;
  has_error = false;
  at_end = false;
  ring_size = 8;
  segment_limit = 16384;
  last_index = 0;
}

abbrev fresh_data : SharedData
fresh_data = record {
  producer_index = 0;
  consumer_index = 0;
  producer_wake = false;
  consumer_wake = true;
  eos = false;
}

update_buffer_size_ended-unread_example :
    (input_update_buffer_size 0 (set_end_of_stream ring_writer fresh_data true).2.eos 0 16384 8
      ≡ record { buffer_available = 0; ended = true; result = true })
    × (consumer_free_slots m (set_end_of_stream ring_writer fresh_data true).2.producer_index 0 8
        ≡ 3)
update_buffer_size_ended-unread_example =
    update_buffer_size_ended-unread ring_writer fresh_data 0 3 16384
      (record {
        sized = (omega arith, omega arith);
        last = refl;
        published = refl;
        consumed = refl;
        behind = refl;
        inside = omega arith;
        running = (refl, refl);
      })
      (omega arith)
