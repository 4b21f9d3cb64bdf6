-- ===== src/Convert/Names.antt =====
-- The parameter names of api/v1alpha1/dbaasprovider_conversion.go: `ProviderFieldsMap`,
-- `ConvertNameTo` and `ConvertNameFrom`.
pub mod Inverse
use dbaas_operator.Prelude.{String, none, some, [], ◌∷◌, ◌==◌, if◌then◌else◌}
use dbaas_operator.Prelude.GoMap.{GoMap, lookup, index}
use dbaas_operator.Api.V1beta1

abbrev pub provider_fields_map : GoMap (GoMap String)
provider_fields_map =
    (
      V1beta1.crunchy_bridge_registration,
      ("Name", V1beta1.provisioning_name) ∷ ("Provider", V1beta1.provisioning_cloud_provider) ∷ [],
    )
    ∷ (
      V1beta1.mongodb_atlas_registration,
      ("clusterName", V1beta1.provisioning_name)
          ∷ ("providerName", V1beta1.provisioning_cloud_provider)
          ∷ ("ProjectName", V1beta1.provisioning_team_project)
          ∷ [],
    )
    ∷ (V1beta1.rds_registration, ("Engine", V1beta1.provisioning_database_type) ∷ [])
    ∷ []

-- The loop of `ConvertNameFrom`: the first key with the value `name`.
unfoldable pub find_key : String → GoMap String → String
find_key name [] = ""
find_key name ((k, v) ∷ m) = if v == name then k else find_key name m

-- The name in v1beta1 of a parameter of v1alpha1, "" if it has none.
unfoldable pub convert_name_to : String → String → String
convert_name_to provider_name name = elim (lookup provider_name provider_fields_map) [
  | none ↦ ""
  | some m1 ↦ index name m1
]

-- The name in v1alpha1 of a parameter of v1beta1, "" if it has none.
unfoldable pub convert_name_from : String → String → String
convert_name_from provider_name name = elim (lookup provider_name provider_fields_map) [
  | none ↦ ""
  | some m1 ↦ find_key name m1
]
