-- ===== src/Tests.antt =====
-- The witnesses of the theorems and a few runs, on small concrete inputs.
mod Fixture
mod Handlers
mod Instances
mod Linkdefs
mod Actors
mod Accord
mod Providers
mod Resources
mod Events
mod Capabilities
mod Blobs
mod Program
mod Delivery
mod Interleaving
