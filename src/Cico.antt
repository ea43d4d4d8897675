-- ===== src/Cico.antt =====
-- cico-service/src: the services that enrol credentials and publish the registry's roots.
pub mod Program
pub mod Registry
pub mod Epoch
pub mod Capability
pub mod Publisher
pub mod Stores
pub mod Issuer
