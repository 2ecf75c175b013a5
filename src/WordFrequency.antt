-- ===== src/WordFrequency.antt =====
-- WordFrequency: how often each word of a text occurs.
pub mod Wset
pub mod Words
pub mod Programs
pub mod Print
mod Tests
