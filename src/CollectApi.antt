-- ===== src/CollectApi.antt =====
-- internal/collectapi: the HTTP routes of the service.
pub mod Credentials
pub mod Request
pub mod Storage
pub mod Handler
pub mod Gates
pub mod Params
pub mod Filters
pub mod Evidence
pub mod Readback
pub mod Routes
pub mod Collect
pub mod Metrics
pub mod Kafka
pub mod App
pub mod Static
