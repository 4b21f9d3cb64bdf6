-- ===== src/Convert/Instance.antt =====
-- api/v1alpha1/dbaasinstance_conversion.go. `webhook_client` is `v1beta1.WebhookAPIClient`: nil, or
-- what its `Get` answers at a key. A conversion that fails returns what it has written so far.
pub mod Params
pub mod RoundTrip
pub mod Errors
use dbaas_operator.Prelude.{
  String, Option, none, some, List, [], ◌∷◌, ◌==◌, if◌then◌else◌, is_empty,
}
use dbaas_operator.Prelude.GoMap.{GoMap, insert, index}
use dbaas_operator.Kube.{ObjectKey}
use dbaas_operator.Kube.Errors.{Error, other, Result, ok, err}
use dbaas_operator.Api.V1alpha1
use dbaas_operator.Api.V1beta1
use dbaas_operator.Convert.Connection.{name_to, name_from}
use dbaas_operator.Convert.Names.{convert_name_to, convert_name_from}

-- The loop over `src.OtherInstanceParams` of the spec's `ConvertTo`.
unfoldable pub copy_params_to : String → GoMap String → GoMap String → GoMap String
copy_params_to provider [] dst = dst
copy_params_to provider ((key, val) ∷ rest) dst =
    let name = convert_name_to provider key in
    copy_params_to provider rest (if is_empty name then dst else insert name val dst)

-- The three parameters that the spec's `ConvertTo` takes from fields of v1alpha1.
abbrev pub field_params : V1alpha1.DbaasInstanceSpec → GoMap String
field_params src = insert V1beta1.provisioning_regions src.cloud_region (
    insert V1beta1.provisioning_cloud_provider src.cloud_provider
      (insert V1beta1.provisioning_name src.name []))

-- What the spec's `ConvertTo` does once it has the inventory.
unfoldable pub params_to : String → V1alpha1.DbaasInstanceSpec → GoMap String
params_to provider src =
    insert V1beta1.provisioning_plan V1beta1.provisioning_plan_free_trial
      (copy_params_to provider src.other_instance_params (field_params src))

-- The key of the inventory that a spec refers to.
abbrev pub ref_key : V1beta1.NamespacedName → ObjectKey
ref_key r = record { namespace = r.namespace; name = r.name }

abbrev pub client_not_set : Error
client_not_set = other "webhook API client not set"

module _ (webhook_client : Option (ObjectKey → Result V1alpha1.DbaasInventory)) where
  unfoldable pub spec_convert_to :
      V1alpha1.DbaasInstanceSpec → V1beta1.DbaasInstanceSpec × Option Error
  spec_convert_to src =
      let ref = name_to src.inventory_ref in
      let partial : V1beta1.DbaasInstanceSpec = record {
        inventory_ref = ref;
        provisioning_parameters = field_params src;
      } in
      elim webhook_client [
        | none ↦ (partial, some client_not_set)
        | some get ↦ elim (get (ref_key ref)) [
          | err e ↦ (partial, some e)
          | ok inventory ↦ (
            record {
              inventory_ref = ref;
              provisioning_parameters = params_to inventory.spec.provider_ref.name src;
            },
            none,
          )
        ]
      ]

-- "Special tweaking for mongo atlas"
abbrev pub tweak : String → String
tweak name = if name == "ProjectName" then "projectName" else name

-- The loop over `src.ProvisioningParameters` of the spec's `ConvertFrom`.
unfoldable pub copy_params_from : String → GoMap String → GoMap String → GoMap String
copy_params_from provider [] dst = dst
copy_params_from provider ((key, val) ∷ rest) dst =
    let name = convert_name_from provider key in
    copy_params_from provider rest (if is_empty name then dst else insert (tweak name) val dst)

unfoldable pub params_from : String → GoMap String → GoMap String
params_from provider params = copy_params_from provider params []

-- What the spec's `ConvertFrom` sets before it reads the inventory, and what it gives after.
unfoldable pub partial_from : V1beta1.DbaasInstanceSpec → V1alpha1.DbaasInstanceSpec
partial_from src = record {
  inventory_ref = name_from src.inventory_ref;
  name = index V1beta1.provisioning_name src.provisioning_parameters;
  cloud_provider = index V1beta1.provisioning_cloud_provider src.provisioning_parameters;
  cloud_region = index V1beta1.provisioning_regions src.provisioning_parameters;
  other_instance_params = [];
}

unfoldable pub spec_from : String → V1beta1.DbaasInstanceSpec → V1alpha1.DbaasInstanceSpec
unfolding partial_from
spec_from provider src = record (partial_from src) {
  other_instance_params = params_from provider src.provisioning_parameters;
  cloud_region =
      if provider == V1beta1.crunchy_bridge_registration
      then "us-east-1"
      else (partial_from src).cloud_region;
}

module _ (webhook_client : Option (ObjectKey → Result V1beta1.DbaasInventory)) where
  unfoldable pub spec_convert_from :
      V1beta1.DbaasInstanceSpec → V1alpha1.DbaasInstanceSpec × Option Error
  spec_convert_from src = elim webhook_client [
    | none ↦ (partial_from src, some client_not_set)
    | some get ↦ elim (get (ref_key src.inventory_ref)) [
      | err e ↦ (partial_from src, some e)
      | ok inventory ↦ (spec_from inventory.spec.provider_ref.name src, none)
    ]
  ]

unfoldable pub status_convert_to : V1alpha1.DbaasInstanceStatus → V1beta1.DbaasInstanceStatus
status_convert_to src = record {
  conditions = src.conditions;
  instance_id = src.instance_id;
  instance_info = src.instance_info;
  phase = src.phase;
}

unfoldable pub status_convert_from : V1beta1.DbaasInstanceStatus → V1alpha1.DbaasInstanceStatus
status_convert_from src = record {
  conditions = src.conditions;
  instance_id = src.instance_id;
  instance_info = src.instance_info;
  phase = src.phase;
}

-- The statuses that a conversion leaves where the conversion of the spec fails.
abbrev pub no_status_beta : V1beta1.DbaasInstanceStatus
no_status_beta = record { conditions = []; instance_id = ""; instance_info = []; phase = "" }

abbrev pub no_status_alpha : V1alpha1.DbaasInstanceStatus
no_status_alpha = record { conditions = []; instance_id = ""; instance_info = []; phase = "" }

module _ (webhook_client : Option (ObjectKey → Result V1alpha1.DbaasInventory)) where
  unfoldable pub convert_to : V1alpha1.DbaasInstance → V1beta1.DbaasInstance × Option Error
  unfolding spec_convert_to status_convert_to
  convert_to src =
      let (spec, e) = spec_convert_to webhook_client src.spec in
      elim e [
        | some u ↦ (record { meta = src.meta; spec = spec; status = no_status_beta }, some u)
        | none ↦
            (record { meta = src.meta; spec = spec; status = status_convert_to src.status }, none)
      ]

module _ (webhook_client : Option (ObjectKey → Result V1beta1.DbaasInventory)) where
  unfoldable pub convert_from : V1beta1.DbaasInstance → V1alpha1.DbaasInstance × Option Error
  unfolding spec_convert_from status_convert_from
  convert_from src =
      let (spec, e) = spec_convert_from webhook_client src.spec in
      elim e [
        | some u ↦ (record { meta = src.meta; spec = spec; status = no_status_alpha }, some u)
        | none ↦
            (record { meta = src.meta; spec = spec; status = status_convert_from src.status }, none)
      ]
