-- ===== src/Models/Wire.antt =====
-- The codec of the messages in models/locket.pb.go. A slice is a list of bytes; a place in it is the
-- index and what is left from there, since an index that overflows makes the code panic. `int` has 64
-- bits. How a Go string stands for the text of a message is a parameter.
pub mod Reading
pub mod Skipping
pub mod Unmarshal
pub mod Messages
pub mod Varint
pub mod Fields
pub mod Roundtrip
pub mod Sizes
pub mod Ensures
pub mod Forward
pub mod Termination
pub mod Overflow
pub mod Queries
