-- ===== src/Cache.antt =====
-- CacheSimulation/cache-sim: a set-associative cache with LRU replacement, and the simulator.
pub mod Bits
pub mod Lru
pub mod Sim
pub mod Text
pub mod Program
mod Tests
