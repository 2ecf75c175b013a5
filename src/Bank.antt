-- ===== src/Bank.antt =====
-- Bank-Atm Simulation/bank-proj: a bank server, its ATM clients, and the messages between them.
pub mod Command
pub mod Errors
pub mod Server
pub mod Atm
pub mod Trace
pub mod Twriter
pub mod Sim
pub mod Treader
mod Tests
