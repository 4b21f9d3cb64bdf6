-- ===== src/Webhook/Policy.antt =====
-- api/v1beta1/dbaaspolicy_webhook.go. `selector_error` is `metav1.LabelSelectorAsSelector` as far as
-- it is read: nil, or the error of a selector that has no meaning.
use dbaas_operator.Prelude.{Option, none, some}
use dbaas_operator.Kube.{LabelSelector}
use dbaas_operator.Kube.Errors.{Error}
use dbaas_operator.Api.V1beta1.{DbaasInventoryPolicy}
use dbaas_operator.Webhook.Rejection.{Rejection, failed}

abbrev pub rejected : Option Error → Option Rejection
rejected none = none
rejected (some e) = some (failed e)

-- The check of the selector, which `validateInventory` makes too.
unfoldable pub validate_policy :
    (LabelSelector → Option Error) → DbaasInventoryPolicy → Option Rejection
validate_policy selector_error policy = elim policy.connections.ns_selector [
  | none ↦ none
  | some s ↦ rejected (selector_error s)
]
