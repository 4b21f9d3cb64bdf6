-- ===== src/Api.antt =====
-- The API types of the operator: the package api/v1beta1, which the controllers work with, and the
-- package api/v1alpha1, which is converted to and from it.
pub mod V1beta1
pub mod V1alpha1
