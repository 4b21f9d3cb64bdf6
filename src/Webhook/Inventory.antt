-- ===== src/Webhook/Inventory.antt =====
-- api/v1beta1/dbaasinventory_webhook.go. The client of the webhooks, `WebhookAPIClient`, is a
-- record of the calls that the validation makes.
pub mod Fields
pub mod Rds
use dbaas_operator.Prelude.{
  elements, String, Bool, true, false, not, ◌&&◌, Option, none, some, List, [], ◌∷◌, ◌==◌,
  if◌then◌else◌, is_empty, is_some, ◌+++◌,
}
use dbaas_operator.Prelude.GoMap.{GoMap, lookup}
use dbaas_operator.Kube.{LabelSelector, ObjectKey}
use dbaas_operator.Kube.Errors.{Error, panic, other, Result, ok, err}
use dbaas_operator.Api.V1beta1
use dbaas_operator.Api.V1beta1.{
  CredentialField, DbaasInventory, DbaasInventoryPolicy, DbaasProvider, LocalObjectReference,
}
use dbaas_operator.Webhook.Rejection.{Rejection, invalid, failed}
use dbaas_operator.Webhook.Policy.{validate_policy}

-- corev1.Secret
pub record Secret : Type 0 where
  pub name : String
  pub contents : GoMap String

pub record WebhookClient : Type 0 where
  pub get_secret : ObjectKey → Result Secret
  pub get_provider : String → Result DbaasProvider
  -- `List` with `MatchingFields{providerNameKey: name}`
  pub list_inventories : String → Result (List DbaasInventory)
  pub selector_error : LabelSelector → Option Error

-- `value, ok := secret.Data[key]; !ok || len(value) == 0`
abbrev pub is_missing : Option String → Bool
is_missing none = true
is_missing (some value) = is_empty value

-- The loop of `validateInventoryMandatoryFields`.
unfoldable pub validate_fields : List CredentialField → Secret → Option Rejection
validate_fields [] secret = none
validate_fields (f ∷ fields) secret =
    if f.required && is_missing (lookup f.key secret.contents)
    then some (
        invalid ("spec" ∷ "credentialsRef" ∷ [])
          ("credentialsRef is invalid: " +++ f.key +++ " is required in secret " +++ secret.name))
    else validate_fields fields secret

unfoldable pub validate_inventory_mandatory_fields : Secret → DbaasProvider → Option Rejection
unfolding validate_fields
validate_inventory_mandatory_fields secret provider =
    validate_fields (elements provider.spec.credential_fields) secret

-- `a`, and if that is nil `b`.
abbrev pub first_of_two : Option Rejection → Option Rejection → Option Rejection
first_of_two none b = b
first_of_two (some r) b = some r

abbrev pub provider_changed : DbaasInventory → Option DbaasInventory → Bool
provider_changed inv none = false
provider_changed inv (some o) = not (o.spec.provider_ref.name == inv.spec.provider_ref.name)

module _ (client : WebhookClient) where
  unfoldable pub validate_rds : Option Rejection
  validate_rds = elim (client.list_inventories V1beta1.rds_registration) [
    | err e ↦ some (failed e)
    | ok [] ↦ none
    | ok (i ∷ _) ↦ some (
        failed (
          other (
            "only one provider account for RDS can exist in a cluster, but there is already a provider account "
            +++ i.meta.name +++ " created")))
  ]

  -- "Check ns selector"
  unfoldable pub validate_ns_selector : Option DbaasInventoryPolicy → Option Rejection
  unfolding validate_policy
  validate_ns_selector none = none
  validate_ns_selector (some p) = validate_policy client.selector_error p

  -- "Check RDS"
  unfoldable pub check_rds : DbaasInventory → Option DbaasInventory → Option Rejection
  check_rds inv old =
      if not (is_some old) && (inv.spec.provider_ref.name == V1beta1.rds_registration)
      then validate_rds
      else none

  -- What is left of `validateInventory` once the secret and the provider are read.
  unfoldable pub validate_contents :
      DbaasInventory → Option DbaasInventory → Secret → DbaasProvider → Option Rejection
  validate_contents inv old secret provider = first_of_two (check_rds inv old) (
      first_of_two (validate_ns_selector inv.spec.policy)
        (validate_inventory_mandatory_fields secret provider))

  unfoldable pub validate_inventory : DbaasInventory → Option DbaasInventory → Option Rejection
  unfolding validate_contents
  validate_inventory inv old =
      if provider_changed inv old
      then some (
          invalid ("spec" ∷ "providerRef" ∷ "name" ∷ [])
            "provider name is immutable for provider accounts")
      else elim inv.spec.credentials_ref [
        | none ↦ some (failed panic)
        | some ref ↦
            elim (client.get_secret (record { namespace = inv.meta.namespace; name = ref.name })) [
              | err e ↦ some (failed e)
              | ok secret ↦ elim (client.get_provider inv.spec.provider_ref.name) [
                | err e ↦ some (failed e)
                | ok provider ↦ validate_contents inv old secret provider
              ]
            ]
      ]
