-- ===== src/Tests/Conversions.antt =====
-- Objects that are converted and come back, or do not.
use dbaas_operator.Prelude.{◌≡◌, ◌≢◌, ◌↔◌, refl, none, some, true, [], ◌∷◌, arith, eq_iff}
use dbaas_operator.Prelude.GoMap.{lookup}
use dbaas_operator.Kube.{ObjectKey}
use dbaas_operator.Kube.Errors.{Result, ok}
use dbaas_operator.Api.V1alpha1
use dbaas_operator.Api.V1beta1
use dbaas_operator.Convert.Connection
use dbaas_operator.Convert.Policy
use dbaas_operator.Convert.Inventory
use dbaas_operator.Convert.Spokes.{spokes_from_to, spokes_to_from}
use dbaas_operator.Convert.Names.{convert_name_to, convert_name_from}
use dbaas_operator.Convert.Names.Inverse.{convert_name_iff}
use dbaas_operator.Convert.Instance
use dbaas_operator.Convert.Instance.Errors.{CanRead, convert_from_iff}
use dbaas_operator.Convert.Instance.RoundTrip.{there_and_back, team_project_lost}
use dbaas_operator.Tests.Objects.{named, conn, inst, active_policy, ready_inventory, inventory_ref}

abbrev conn_alpha : V1alpha1.DbaasConnection
conn_alpha = record {
  meta = named "dev" "app";
  spec = record {
    inventory_ref = record { namespace = "team"; name = "crdb" };
    instance_id = "";
    instance_ref = some (record { namespace = "dev"; name = "db" });
  };
  status = record { conditions = []; credentials_ref = none; connection_info_ref = none };
}

abbrev policy_alpha : V1alpha1.DbaasPolicy
policy_alpha = record {
  meta = named "team" "first";
  spec = record {
    disable_provisions = some true;
    connection_namespaces = some ("dev" ∷ []);
    connection_ns_selector = none;
  };
  status = record { conditions = [] };
}

abbrev inventory_alpha : V1alpha1.DbaasInventory
inventory_alpha = record {
  meta = named "team" "crdb";
  spec = record {
    provider_ref = record { namespace = ""; name = "cockroachdb-cloud-registration" };
    credentials_ref = some (record { name = "crdb-secret" });
    policy = record {
      disable_provisions = none;
      connection_namespaces = some ("dev" ∷ []);
      connection_ns_selector = none;
    };
  };
  status = record {
    conditions = [];
    instances = some (
        record { instance_id = "42"; name = "db"; instance_info = ("state", "CREATED") ∷ [] } ∷ []);
  };
}

spokes_from_to_example :
    (Connection.convert_from (Connection.convert_to conn_alpha) ≡ conn_alpha)
    × (Policy.convert_from (Policy.convert_to policy_alpha) ≡ policy_alpha)
    × (Inventory.convert_from (Inventory.convert_to inventory_alpha) ≡ inventory_alpha)
spokes_from_to_example = spokes_from_to conn_alpha policy_alpha inventory_alpha (λ h. ground arith)

spokes_to_from_example :
    ((Connection.convert_to (Connection.convert_from conn) ≡ conn)
      ↔ (conn.spec.database_service_type ≡ none))
    × (Policy.convert_to (Policy.convert_from active_policy) ≡ active_policy)
    × ((Inventory.spec_convert_to (Inventory.spec_convert_from ready_inventory.spec)
          ≡ ready_inventory.spec)
        ↔ (ready_inventory.spec.policy ≢ some Inventory.no_policy))
spokes_to_from_example = spokes_to_from conn active_policy ready_inventory.spec

convert_name_iff_example :
    (convert_name_to "rds-registration" "Engine" ≡ "databaseType")
    ↔ (convert_name_from "rds-registration" "databaseType" ≡ "Engine")
convert_name_iff_example =
    convert_name_iff "rds-registration" "Engine" "databaseType"
      (λ h. ground (arith, eq_iff "Engine" "")) (λ h. ground (arith, eq_iff "databaseType" ""))

-- An inventory for MongoDB Atlas in either version, and an instance with a team project.
abbrev atlas_alpha : V1alpha1.DbaasInventory
atlas_alpha = record inventory_alpha {
  spec = record inventory_alpha.spec {
    provider_ref = record { namespace = ""; name = "mongodb-atlas-registration" };
  };
}

abbrev atlas_beta : V1beta1.DbaasInventory
atlas_beta = record ready_inventory {
  spec = record ready_inventory.spec {
    provider_ref = record { namespace = ""; name = "mongodb-atlas-registration" };
  };
}

abbrev get_alpha : ObjectKey → Result V1alpha1.DbaasInventory
get_alpha key = ok atlas_alpha

abbrev get_beta : ObjectKey → Result V1beta1.DbaasInventory
get_beta key = ok atlas_beta

abbrev spec : V1beta1.DbaasInstanceSpec
spec = record {
  inventory_ref = inventory_ref;
  provisioning_parameters = ("name", "db") ∷ ("teamProject", "shop") ∷ [];
}

team_project_lost_example : lookup "teamProject" (there_and_back get_beta get_alpha spec) ≡ none
team_project_lost_example =
    team_project_lost get_beta get_alpha spec atlas_beta atlas_alpha refl refl refl
      ((refl, tt), (tt, tt))

convert_from_iff_example :
    (((Instance.convert_from (some get_beta) inst).1 ≡ none)
      ↔ CanRead (some get_beta) (Instance.ref_key inst.spec.inventory_ref))
    × ((Instance.convert_from (some get_beta) inst).0.meta ≡ inst.meta)
    × ((Instance.convert_from (some get_beta) inst).1 ≡ none
        → (Instance.convert_from (some get_beta) inst).0.status
          ≡ Instance.status_convert_from inst.status)
convert_from_iff_example = convert_from_iff (some get_beta) inst
