-- ===== src/Examples.antt =====
-- Runs of the code on concrete inputs: tests, and an instance of each result that has conditions.
pub mod Data
pub mod Generate
pub mod Emit
pub mod Positions
pub mod Words
pub mod Host
pub mod Commands
pub mod Product
