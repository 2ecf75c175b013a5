-- ===== src/Huffman/Tests.antt =====
-- Runs of the compressor's parts, and its theorems at concrete inputs.
pub mod Sorting
mod Files
mod Examples
