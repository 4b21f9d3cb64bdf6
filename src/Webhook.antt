-- ===== src/Webhook.antt =====
-- The admission webhooks of api/v1beta1: dbaasconnection_webhook.go, dbaasinventory_webhook.go and
-- dbaaspolicy_webhook.go. A request is accepted if the validation returns nil, `none` here.
-- `ValidateDelete` accepts every request. The value that `field.Invalid` repeats to the user is
-- left out of a rejection, its path and its text are kept.
pub mod Rejection
pub mod Connection
pub mod Policy
pub mod Inventory
