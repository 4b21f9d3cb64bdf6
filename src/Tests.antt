-- ===== src/Tests.antt =====
-- The theorems at concrete inputs, and the objects, the client and the library functions that they
-- are applied to.
pub mod Conditions
pub mod Objects
pub mod Cluster
pub mod Conversions
pub mod ProviderObjects
pub mod Site
pub mod Installers
pub mod Webhooks
pub mod Policies
pub mod Reconcilers
pub mod Providers
pub mod Specs
pub mod Platforms
