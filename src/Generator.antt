-- ===== src/Generator.antt =====
-- generator: the parts of the data generator that compute without a draw.
pub mod Money
pub mod Calendar
pub mod Lending
pub mod Drift
pub mod Source
pub mod Guard
pub mod Tick
pub mod Ticks
mod Tests
mod SimulationTests
