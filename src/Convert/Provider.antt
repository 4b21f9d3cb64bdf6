-- ===== src/Convert/Provider.antt =====
-- `ConvertTo` and `ConvertFrom` of api/v1alpha1/dbaasprovider_conversion.go.
pub mod Parameters
pub mod Specs
pub mod RoundTrip
use dbaas_operator.Prelude.{
  elements, String, Bool, true, Option, none, some, List, [], ◌∷◌, ◌++◌, map, ◌==◌, ◌||◌, is_empty,
  non_empty, if◌then◌else◌, ◌+++◌,
}
use dbaas_operator.Prelude.GoMap.{GoMap, insert}
use dbaas_operator.Api.V1alpha1
use dbaas_operator.Api.V1alpha1.{InstanceParameterSpec}
use dbaas_operator.Api.V1beta1
use dbaas_operator.Api.V1beta1.{ProvisioningParameter}
use dbaas_operator.Convert.Inventory.{appended}
use dbaas_operator.Convert.Names.{convert_name_to, convert_name_from}

-- `GroupVersion.String()`
abbrev pub group_version_string : String
group_version_string = V1alpha1.group_version.group +++ "/" +++ V1alpha1.group_version.version

abbrev pub field_to : V1alpha1.CredentialField → V1beta1.CredentialField
field_to f = record {
  key = f.key;
  display_name = f.display_name;
  type = f.type;
  required = f.required;
  help_text = f.help_text;
}

abbrev pub field_from : V1beta1.CredentialField → V1alpha1.CredentialField
field_from f = record {
  key = f.key;
  display_name = f.display_name;
  type = f.type;
  required = f.required;
  help_text = f.help_text;
}

-- The loops that append to a nil slice, which stays nil where there is nothing to append.
unfoldable pub fields_to :
    Option (List V1alpha1.CredentialField) → Option (List V1beta1.CredentialField)
fields_to none = none
fields_to (some l) = appended (map field_to l)

unfoldable pub fields_from :
    Option (List V1beta1.CredentialField) → Option (List V1alpha1.CredentialField)
fields_from none = none
fields_from (some l) = appended (map field_from l)

abbrev pub info_to : V1alpha1.DatabaseProvider → V1beta1.DatabaseProviderInfo
info_to p = record {
  name = p.name;
  display_name = p.display_name;
  display_description = p.display_description;
  icon = record { base64data = p.icon.base64data; mediatype = p.icon.mediatype };
}

abbrev pub info_from : V1beta1.DatabaseProviderInfo → V1alpha1.DatabaseProvider
info_from p = record {
  name = p.name;
  display_name = p.display_name;
  display_description = p.display_description;
  icon = record { base64data = p.icon.base64data; mediatype = p.icon.mediatype };
}

abbrev pub default_or_aws : String → String
default_or_aws s = if non_empty s then s else "AWS"

-- The parameter that is made from a parameter spec under its v1beta1 name.
unfoldable pub parameter_of : String → InstanceParameterSpec → ProvisioningParameter
parameter_of name v =
    if name == V1beta1.provisioning_cloud_provider
    then record {
      display_name = v.display_name;
      help_text = "";
      conditional_data =
          record {
            dependencies =
                record {
                  field = V1beta1.provisioning_plan;
                  value = V1beta1.provisioning_plan_free_trial;
                }
                ∷ [];
            options =
                record {
                  value = default_or_aws v.default_value;
                  display_value = default_or_aws v.default_value;
                }
                ∷ [];
            default_value = default_or_aws v.default_value;
          }
          ∷ [];
    }
    else record { display_name = v.display_name; help_text = ""; conditional_data = [] }

-- The loop over `src.Spec.InstanceParameterSpecs`, which passes over a name that v1beta1 lacks.
unfoldable pub add_parameters :
    String → List InstanceParameterSpec → GoMap ProvisioningParameter → GoMap ProvisioningParameter
unfolding parameter_of
add_parameters provider [] m = m
add_parameters provider (v ∷ specs) m =
    let name = convert_name_to provider v.name in
    add_parameters provider specs (if is_empty name then m else insert name (parameter_of name v) m)

abbrev pub hosting_plan : ProvisioningParameter
hosting_plan = record {
  display_name = "Hosting plan";
  help_text = "";
  conditional_data =
      record {
        dependencies = [];
        options =
            record { value = V1beta1.provisioning_plan_free_trial; display_value = "Free trial" }
            ∷ [];
        default_value = V1beta1.provisioning_plan_free_trial;
      }
      ∷ [];
}

unfoldable pub convert_to : V1alpha1.DbaasProvider → V1beta1.DbaasProvider
unfolding add_parameters fields_to
convert_to src = record {
  meta = src.meta;
  spec = record {
    provider = info_to src.spec.provider;
    group_version = group_version_string;
    inventory_kind = src.spec.inventory_kind;
    connection_kind = src.spec.connection_kind;
    instance_kind = src.spec.instance_kind;
    credential_fields = fields_to src.spec.credential_fields;
    allows_free_trial = src.spec.allows_free_trial;
    external_provision_url = src.spec.external_provision_url;
    external_provision_description = src.spec.external_provision_description;
    provisioning_parameters =
        insert V1beta1.provisioning_plan hosting_plan
          (add_parameters src.meta.name (elements src.spec.instance_parameter_specs) []);
  };
  status = record { conditions = [] };
}

-- The cases of the switch in `ConvertFrom`.
unfoldable pub is_converted : String → Bool
is_converted k =
    (k == V1beta1.provisioning_cloud_provider)
    || (k == V1beta1.provisioning_name)
    || (k == V1beta1.provisioning_database_type)
    || (k == V1beta1.provisioning_team_project)

-- `v.ConditionalData[0].DefaultValue`, or "".
abbrev pub first_default : List V1beta1.ConditionalProvisioningParameterData → String
first_default [] = ""
first_default (d ∷ _) = d.default_value

abbrev pub spec_of : String → ProvisioningParameter → InstanceParameterSpec
spec_of name v = record {
  name = name;
  display_name = v.display_name;
  type = "string";
  required = true;
  default_value = first_default v.conditional_data;
}

-- The loop over `src.Spec.ProvisioningParameters`.
unfoldable pub add_specs : String → GoMap ProvisioningParameter → List InstanceParameterSpec
unfolding is_converted
add_specs provider [] = []
add_specs provider ((k, v) ∷ m) =
    (if is_converted k then spec_of (convert_name_from provider k) v ∷ [] else [])
    ++ add_specs provider m

unfoldable pub convert_from : V1beta1.DbaasProvider → V1alpha1.DbaasProvider
unfolding add_specs fields_from
convert_from src = record {
  meta = src.meta;
  spec = record {
    provider = info_from src.spec.provider;
    inventory_kind = src.spec.inventory_kind;
    connection_kind = src.spec.connection_kind;
    instance_kind = src.spec.instance_kind;
    credential_fields = fields_from src.spec.credential_fields;
    allows_free_trial = src.spec.allows_free_trial;
    external_provision_url = src.spec.external_provision_url;
    external_provision_description = src.spec.external_provision_description;
    instance_parameter_specs = appended (add_specs src.meta.name src.spec.provisioning_parameters);
  };
  status = record { conditions = [] };
}
