-- ===== src/Tests/ProviderObjects.antt =====
-- A provider in either version, converted to the other and back.
use dbaas_operator.Prelude.{
  elements, none, ◌≡◌, refl, some, true, false, [], ◌∷◌, arith, eq_iff, if◌then◌else◌, ◌==◌,
}
use dbaas_operator.Prelude.GoMap.{lookup, index}
use dbaas_operator.Api.V1alpha1
use dbaas_operator.Api.V1alpha1.{InstanceParameterSpec}
use dbaas_operator.Api.V1beta1
use dbaas_operator.Convert.Names.{convert_name_to}
use dbaas_operator.Convert.Provider.{convert_to, convert_from, hosting_plan, group_version_string}
use dbaas_operator.Convert.Provider.Specs.{find_spec, last_named}
use dbaas_operator.Convert.Provider.RoundTrip.{
  restored, back, find_spec-convert_from-convert_to, lookup-convert_to-convert_from,
  provider_round_trip, nil_if_empty,
}
use dbaas_operator.Tests.Objects.{named}

abbrev provider_name : InstanceParameterSpec
provider_name = record {
  name = "providerName";
  display_name = "Cloud Provider";
  type = "string";
  required = false;
  default_value = "GCP";
}

abbrev atlas : V1alpha1.DbaasProvider
atlas = record {
  meta = named "" "mongodb-atlas-registration";
  spec = record {
    provider = record {
      name = "MongoDB Atlas";
      display_name = "MongoDB Atlas";
      display_description = "";
      icon = record { base64data = ""; mediatype = "image/png" };
    };
    inventory_kind = "MongoDBAtlasInventory";
    connection_kind = "MongoDBAtlasConnection";
    instance_kind = "MongoDBAtlasInstance";
    credential_fields = some (
        record {
          key = "orgId";
          display_name = "Organization ID";
          type = "string";
          required = true;
          help_text = "";
        }
        ∷ []);
    allows_free_trial = true;
    external_provision_url = "";
    external_provision_description = "";
    instance_parameter_specs = some (provider_name ∷ []);
  };
  status = record { conditions = [] };
}

abbrev atlas_beta : V1beta1.DbaasProvider
atlas_beta = convert_to atlas

find_spec-convert_from-convert_to_example :
    find_spec "providerName"
      (elements (convert_from (convert_to atlas)).spec.instance_parameter_specs)
    ≡ restored "mongodb-atlas-registration" "providerName"
        (last_named "providerName" (elements atlas.spec.instance_parameter_specs))
unfolding convert_name_to lookup index
find_spec-convert_from-convert_to_example =
    find_spec-convert_from-convert_to atlas "providerName" refl
      (λ h. ground (arith, eq_iff "providerName" ""))

abbrev hub : V1beta1.DbaasProvider
hub = record {
  meta = named "" "mongodb-atlas-registration";
  spec = record {
    provider = record {
      name = "MongoDB Atlas";
      display_name = "MongoDB Atlas";
      display_description = "";
      icon = record { base64data = ""; mediatype = "image/png" };
    };
    group_version = "dbaas.redhat.com/v1beta1";
    inventory_kind = "MongoDBAtlasInventory";
    connection_kind = "MongoDBAtlasConnection";
    instance_kind = "MongoDBAtlasInstance";
    credential_fields = some [];
    allows_free_trial = true;
    external_provision_url = "";
    external_provision_description = "";
    provisioning_parameters =
        ("name", record { display_name = "Cluster name"; help_text = "any"; conditional_data = [] })
        ∷ ("regions", record { display_name = "Region"; help_text = ""; conditional_data = [] })
        ∷ [];
  };
  status = record { conditions = [] };
}

lookup-convert_to-convert_from_example :
    lookup "name" (convert_to (convert_from hub)).spec.provisioning_parameters ≡ (
      if V1beta1.provisioning_plan == "name"
      then some hosting_plan
      else back "mongodb-atlas-registration" "name"
          (lookup "name" hub.spec.provisioning_parameters))
lookup-convert_to-convert_from_example =
    lookup-convert_to-convert_from hub "name" ((refl, tt), (tt, tt)) refl

provider_round_trip_example :
    (convert_from (convert_to atlas) ≡ record {
      meta = atlas.meta;
      spec = record atlas.spec {
        credential_fields = nil_if_empty atlas.spec.credential_fields;
        instance_parameter_specs = (convert_from (convert_to atlas)).spec.instance_parameter_specs;
      };
      status = record { conditions = [] };
    })
    × (convert_to (convert_from hub) ≡ record {
      meta = hub.meta;
      spec = record hub.spec {
        group_version = group_version_string;
        credential_fields = none;
        provisioning_parameters = (convert_to (convert_from hub)).spec.provisioning_parameters;
      };
      status = record { conditions = [] };
    })
provider_round_trip_example = provider_round_trip atlas hub
