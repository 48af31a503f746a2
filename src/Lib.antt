-- ===== src/Lib.antt =====
-- lbu, a C++ library of low level building blocks: what its code does and why it is right.
--
-- The parts of the library that compute something of their own, and the files that model them:
--
--   core/lbu/ring_spsc.h    Ring, Ring/*: the index algorithms reserved_slot and mirrored_index
--     (Ring/Reserved, Ring/Mirrored) over the interface of Ring/Alg; the handles of the producer and
--     the consumer (Ring/Handle); and both of them at work on one buffer (Ring/System), where the
--     laws of the interface, which Ring/*/Bounds prove of both algorithms, carry the order of the
--     queue (Ring/System/Fifo).
--   core/lbu/array_ref.h    ArrayRef, ArrayRef/Parts: references to arrays, their parts and the
--     copies and comparisons between them. The ring hands out its slots as such references.
--   core/lbu/byte_buffer.h  ByteBuffer, ByteBuffer/*: the buffer with its small storage. Growth and
--     Owner hold the operations that grow, build and hand over a buffer; Valid the invariant; Insert,
--     Append, Storage, Shorter and Transfer what the operations do.
--   core/lbu/math.h         Math, Math/*: logarithms, powers, rounding division, powers of two.
--   core/lbu/memory.h       Memory, Memory/*: alignment, and the layout of dynamic structures, which
--     rest on the powers of two of Math.
--   core/lbu/ascii.h        Ascii, Ascii/*: character classes, and the decimal text of integers,
--     whose buffer is sized by the logarithm of Math.
--   core/lbu/io.h           Io, Io/*: arrays of buffers, and the loops that read and write all.
--   core/fd_stream.cpp and core/lbu/abstract_stream.h
--                           FdStream, FdStream/*: the output stream over a descriptor (Output), its
--     invariant (Valid), what a write gives the file (Vectored, Sent), and the writing through the
--     buffer that it inherits (Write), which copies as array_ref_content_copy does; the input stream
--     (Input, Reads), how its buffer is filled (Filled), what the calls of a read store (Stores, Moves),
--     its rounds (Enter, Rounds), what a read keeps (Kept, Ordered) and how it ends (Complete, Ends).
--   core/byte_buffer_stream.cpp
--                           ByteStream, ByteStream/*: the streams over a byte buffer (Reader, Writer)
--     and what reading and writing do (Reading, Writing), by the lemmas of ByteBuffer; and the
--     incremental helpers of core/lbu/abstract_stream.h (Incremental).
--   core/ring_spsc_stream.cpp
--                           RingStream, RingStream/*: the streams over the ring, each access to the data
--     that they share by itself: the output stream (Output), what holds on every way through its
--     next_buffer (Offers), the room that it offers (Room), what a write copies (Accepts, Returns)
--     and when it waits (Sleeps); the input stream (Input, Takes), what it is offered (Arrives) and
--     what a read delivers (Fair, Delivers); pairs of them (Pair) and their end (End). The free room
--     is that of the laws of mirrored_index, and the waits are answered as Poll says.
--   core/lbu/endian.h       Endian, Endian/RoundTrip: integers and their bytes.
--   core/lbu/fd.h, core/lbu/file.h, core/lbu/pipe.h, core/lbu/eventfd.h
--                           Fd, Fd/Owners: handles that own descriptors, and how they are made.
--   core/lbu/poll.h         Poll: entries that own a descriptor, and the waits.
--   alsa/lbu/alsa/alsa.h and alsa/alsa.cpp
--                           Alsa, Alsa/*: the formats of samples and their sizes, the samples in
--     them (Samples, RoundTrip) by the conversions of Endian, the choice of a format and of a rate
--     (Choice, Fallback), and the names of devices (Devices).
--
-- Common holds what the parts share: the names of the libraries, lists over the native numbers,
-- machine words, writes into a list of bytes, and the laws of bit_and. Tests/* holds the witnesses.
--
-- How the code is represented. An integer is its bit pattern, a number below the modulus m of its
-- type, and its operations wrap (Common/Words); a theorem that holds for every modulus has it as an
-- argument, otherwise a size has 64 bits. An assertion of the code is a hypothesis of the theorems.
-- The state that an operation changes is an argument and part of its result. The atomic indices of
-- the ring are a record that both sides share; a step of the system is one call of one side, the
-- calls interleave in any order, and the memory order of the processor is not modelled beyond that.
-- The streams over the ring are modelled from one side: a call makes a list of accesses, what they
-- find is given (Seen), and the theorems hold for whatever is found, or for what a reader or a writer
-- that keeps to its part can leave there (SeenReleased, SeenBetween, Fair). An assertion in such a call that the
-- code can not decide by itself is passed over as in a build without assertions.
-- A byte buffer owns its block, so that a block is the list of its bytes; what malloc leaves in fresh
-- memory is a parameter, and an allocation that fails ends the program. A C string is the list of its
-- characters before the terminator. A char is signed, and machines are little endian, as on x86-64,
-- where the union of the buffer tells its two forms apart by the low bit of the first byte.
--
-- The calls of the operating system are a script of responses, one for each call, that says how many
-- bytes the call moves at most or which error it sets; the theorems hold for every script. A function
-- that still waits for a call when the script ends has no result yet.
--
-- Fuel. The loops of ilog_floor and ipow have their value for fuel and return none where that runs
-- out; since each round divides by two at least, it does not (for a base above 1). The loop of decimal
-- has the number that it prints for fuel, and those of a blocking write and of a read one more than
-- the script has answers, since each round makes a call. The loops of the streams over the ring have
-- what each next_buffer finds; in non-blocking mode one more than there are bytes are enough, and a
-- blocking call has no result while a wait lasts.
--
-- Not modelled: the flags that fd.h reads and sets by fcntl, the masks of signals of poll.h, and the
-- classes of alsa that own a handle of the sound library, which only pass arguments on; unexpected.h,
-- which ends the program; and the block of memory of ring_spsc_basic_controller. Of fd_stream.h the
-- classes that own their buffers, of array_ref.h the type-erased references, of math.h the builtin
-- variants of the logarithms, and of memory.h the reinterpreting copies are left.
pub mod Common
pub mod ArrayRef
pub mod Ring
pub mod ByteBuffer
pub mod Math
pub mod Memory
pub mod Ascii
pub mod Io
pub mod FdStream
pub mod ByteStream
pub mod Endian
pub mod Alsa
pub mod Fd
pub mod Poll
pub mod RingStream
pub mod Tests
