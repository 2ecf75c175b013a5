-- ===== src/Huffman.antt =====
-- Huffman Coding/huffman-proj: the compressor and the decompressor.
pub mod Tree
pub mod Pqueue
pub mod Build
pub mod Table
pub mod Codes
pub mod BitsIo
pub mod Serial
pub mod Coder
mod Tests
