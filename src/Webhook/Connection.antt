-- ===== src/Webhook/Connection.antt =====
-- api/v1beta1/dbaasconnection_webhook.go
pub mod Accepts
use dbaas_operator.Prelude.{
  String, Bool, true, false, not, ◌&&◌, ◌||◌, Option, none, some, List, [], ◌∷◌, ◌==◌,
  if◌then◌else◌, is_empty, non_empty, is_some, opt_eq,
}
use dbaas_operator.Api.V1beta1.{NamespacedName, DbaasConnectionSpec}
use dbaas_operator.Webhook.Rejection.{Rejection, invalid}

abbrev pub spec_path : String → List String
spec_path child = "spec" ∷ child ∷ []

-- `ref != nil && len(ref.Name) > 0`
abbrev pub is_named : Option NamespacedName → Bool
is_named none = false
is_named (some r) = non_empty r.name

-- `reflect.DeepEqual` of two references, and of two pointers to references.
abbrev pub name_eq : NamespacedName → NamespacedName → Bool
name_eq a b = (a.namespace == b.namespace) && (a.name == b.name)

abbrev pub ref_eq : Option NamespacedName → Option NamespacedName → Bool
ref_eq none none = true
ref_eq (some a) (some b) = name_eq a b
ref_eq _ _ = false

unfoldable pub validate_create : DbaasConnectionSpec → Option Rejection
validate_create spec =
    if non_empty spec.database_service_id && is_named spec.database_service_ref
    then some (
        invalid (spec_path "databaseServiceID")
          "both databaseServiceID and databaseServiceRef are specified")
    else if is_empty spec.database_service_id && not (is_named spec.database_service_ref)
    then some (
        invalid (spec_path "databaseServiceID")
          "either databaseServiceID or databaseServiceRef must be specified")
    else if is_some spec.database_service_ref && is_some spec.database_service_type
    then some (
        invalid (spec_path "databaseServiceRef")
          "when using databaseServiceRef, databaseServiceType must not be specified")
    else none

unfoldable pub validate_update : DbaasConnectionSpec → DbaasConnectionSpec → Option Rejection
validate_update spec old =
    if not (spec.database_service_id == old.database_service_id)
    then some (invalid (spec_path "databaseServiceID") "databaseServiceID is immutable")
    else if not (name_eq spec.inventory_ref old.inventory_ref)
    then some (invalid (spec_path "inventoryRef") "inventoryRef is immutable")
    else if not (ref_eq spec.database_service_ref old.database_service_ref)
    then some (invalid (spec_path "databaseServiceRef") "databaseServiceRef is immutable")
    else if not (opt_eq spec.database_service_type old.database_service_type)
    then some (invalid (spec_path "databaseServiceType") "databaseServiceType is immutable")
    else none
