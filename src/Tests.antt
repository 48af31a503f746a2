-- ===== src/Tests.antt =====
-- Witnesses of the theorems at concrete inputs, and runs of the code.
pub mod Ring
pub mod Arrays
pub mod Buffers
pub mod Numbers
pub mod Text
pub mod Files
pub mod Streams
pub mod RingStreams
pub mod Bytes
pub mod Sound
pub mod Handles
