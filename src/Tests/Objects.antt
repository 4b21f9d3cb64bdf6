-- ===== src/Tests/Objects.antt =====
-- A team's inventory, its provider, its policies, a connection and an instance.
use dbaas_operator.Prelude.{String, Option, none, some, true, List, [], ◌∷◌}
use dbaas_operator.Kube.{ObjectMeta, ObjectKey}
use dbaas_operator.Kube.Conditions.{Condition, ConditionStatus, condition_true}
use dbaas_operator.Api.V1beta1

abbrev pub named : String → String → ObjectMeta
named namespace name = record {
  name = name;
  namespace = namespace;
  labels = [];
  deletion_timestamp = none;
  owner_references = [];
}

abbrev pub key_of : String → String → ObjectKey
key_of namespace name = record { namespace = namespace; name = name }

abbrev pub condition : String → ConditionStatus → Condition
condition type status = record { type = type; status = status; reason = "Set"; message = "" }

abbrev pub provider : V1beta1.DbaasProvider
provider = record {
  meta = named "" "cockroachdb-cloud-registration";
  spec = record {
    provider = record {
      name = "CockroachDB Cloud";
      display_name = "CockroachDB Cloud";
      display_description = "";
      icon = record { base64data = ""; mediatype = "" };
    };
    group_version = "dbaas.redhat.com/v1beta1";
    inventory_kind = "CrdbDBaaSInventory";
    connection_kind = "CrdbDBaaSConnection";
    instance_kind = "CrdbDBaaSInstance";
    credential_fields = some (
        record {
          key = "apiSecretKey";
          display_name = "API key";
          type = "string";
          required = true;
          help_text = "";
        }
        ∷ []);
    allows_free_trial = true;
    external_provision_url = "";
    external_provision_description = "";
    provisioning_parameters = [];
  };
  status = record { conditions = [] };
}

abbrev pub policy_with : String → List Condition → V1beta1.DbaasPolicy
policy_with name conditions = record {
  meta = named "team" name;
  spec = record {
    disable_provisions = none;
    connections = record { namespaces = some ("dev" ∷ []); ns_selector = none };
  };
  status = record { conditions = conditions };
}

abbrev pub active_policy : V1beta1.DbaasPolicy
active_policy = policy_with "first" (condition "PolicyReady" condition_true ∷ [])

abbrev pub other_policy : V1beta1.DbaasPolicy
other_policy = policy_with "second" []

abbrev pub inventory_of : List Condition → V1beta1.DbaasInventory
inventory_of conditions = record {
  meta = named "team" "crdb";
  spec = record {
    provider_ref = record { namespace = ""; name = "cockroachdb-cloud-registration" };
    credentials_ref = some (record { name = "crdb-secret" });
    policy = none;
  };
  status = record { conditions = conditions; database_services = none };
}

abbrev pub ready_inventory : V1beta1.DbaasInventory
ready_inventory = inventory_of (condition "InventoryReady" condition_true ∷ [])

abbrev pub inventory_ref : V1beta1.NamespacedName
inventory_ref = record { namespace = "team"; name = "crdb" }

abbrev pub connection_spec_of : String → Option V1beta1.NamespacedName → V1beta1.DbaasConnectionSpec
connection_spec_of id ref = record {
  inventory_ref = inventory_ref;
  database_service_id = id;
  database_service_ref = ref;
  database_service_type = none;
}

abbrev pub instance_ref : V1beta1.NamespacedName
instance_ref = record { namespace = "dev"; name = "db" }

abbrev pub conn : V1beta1.DbaasConnection
conn = record {
  meta = named "dev" "app";
  spec = connection_spec_of "" (some instance_ref);
  status = record { conditions = []; credentials_ref = none; connection_info_ref = none };
}

abbrev pub inst : V1beta1.DbaasInstance
inst = record {
  meta = named "dev" "db";
  spec = record {
    inventory_ref = inventory_ref;
    provisioning_parameters = ("name", "db") ∷ ("plan", "SERVERLESS") ∷ [];
  };
  status = record { conditions = []; instance_id = "42"; instance_info = []; phase = "Ready" };
}
