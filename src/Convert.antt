-- ===== src/Convert.antt =====
-- The conversions between the two API versions: the *_conversion.go files of api/v1alpha1. The hub
-- is v1beta1; a destination starts as the zero value of its type.
pub mod Connection
pub mod Policy
pub mod Inventory
pub mod Names
pub mod Instance
pub mod Provider
pub mod Spokes
