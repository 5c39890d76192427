-- ===== src/Feeds.antt =====
-- The feeds of airflow/plugins/nordbank_ops/feeds.
pub mod Fetch
pub mod Json
pub mod Rates
pub mod Clearing
pub mod Identity
pub mod Allocation
pub mod Admission
pub mod SettlementFile
pub mod Settlement
