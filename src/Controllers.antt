-- ===== src/Controllers.antt =====
-- The reconcilers of controllers/.
pub mod Objects
pub mod Client
pub mod Common
pub mod Policy
pub mod Inventory
pub mod Connection
pub mod Instance
pub mod Provider
pub mod Platform
pub mod Install
pub mod Upgrade
pub mod Safety
