-- ===== src/Runtime.antt =====
-- internal/runtime: the writer of routed tables.
pub mod TableWriter
pub mod Credentials
pub mod Schema
pub mod Options
pub mod Clients
pub mod Stores
pub mod Bus
pub mod Assembly
pub mod Resolver
pub mod Selectors
pub mod MemoryBus
pub mod KafkaStats
