-- ===== src/ByteStream.antt =====
-- core/byte_buffer_stream.cpp: streams over a byte buffer, with the operations of
-- core/lbu/abstract_stream.h that they inherit.
pub mod Reader
pub mod Reading
pub mod Writer
pub mod Writing
pub mod Incremental
