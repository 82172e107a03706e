-- ===== src/ControlPlane.antt =====
-- internal/controlplane: the runtime view of analytics sources and the resolvers of write keys.
pub mod Source
pub mod Policy
pub mod Validate
pub mod Memory
pub mod SchemaBound
pub mod Http
