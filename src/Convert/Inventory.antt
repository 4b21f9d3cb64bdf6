-- ===== src/Convert/Inventory.antt =====
-- api/v1alpha1/dbaasinventory_conversion.go
pub mod RoundTrip
use dbaas_operator.Prelude.{Option, none, some, List, [], ◌∷◌, map, Bool, String}
use dbaas_operator.Kube.{LabelSelector}
use dbaas_operator.Api.V1alpha1
use dbaas_operator.Api.V1beta1
use dbaas_operator.Convert.Connection.{name_to, name_from, local_to, local_from, convert_pointer}

abbrev pub no_policy : V1beta1.DbaasInventoryPolicy
no_policy = record {
  disable_provisions = none;
  connections = record { namespaces = none; ns_selector = none };
}

-- `setPolicyObj`, with the object that the policy pointer then points to.
set_policy_obj : Option V1beta1.DbaasInventoryPolicy → V1beta1.DbaasInventoryPolicy
set_policy_obj none = no_policy
set_policy_obj (some p) = p

-- The three guarded assignments of `ConvertTo`, in their order.
set_namespaces :
    Option (List String) → Option V1beta1.DbaasInventoryPolicy → Option V1beta1.DbaasInventoryPolicy
unfolding set_policy_obj
set_namespaces none p = p
set_namespaces (some l) p =
    let q = set_policy_obj p in
    some (record q {
      connections = record { namespaces = some l; ns_selector = q.connections.ns_selector };
    })

set_ns_selector :
    Option LabelSelector → Option V1beta1.DbaasInventoryPolicy → Option V1beta1.DbaasInventoryPolicy
unfolding set_policy_obj
set_ns_selector none p = p
set_ns_selector (some s) p =
    let q = set_policy_obj p in
    some (record q {
      connections = record { namespaces = q.connections.namespaces; ns_selector = some s };
    })

set_disable_provisions :
    Option Bool → Option V1beta1.DbaasInventoryPolicy → Option V1beta1.DbaasInventoryPolicy
unfolding set_policy_obj
set_disable_provisions none p = p
set_disable_provisions (some b) p =
    let q = set_policy_obj p in some (record q { disable_provisions = some b })

-- The spec's part of `(src *DBaaSInventory) ConvertTo`.
unfoldable pub spec_convert_to :
    V1alpha1.DbaasOperatorInventorySpec → V1beta1.DbaasOperatorInventorySpec
unfolding set_namespaces set_ns_selector set_disable_provisions
spec_convert_to src = record {
  provider_ref = name_to src.provider_ref;
  credentials_ref = convert_pointer local_to src.credentials_ref;
  policy = set_disable_provisions src.policy.disable_provisions (
      set_ns_selector src.policy.connection_ns_selector
        (set_namespaces src.policy.connection_namespaces none));
}

unfoldable pub spec_convert_from :
    V1beta1.DbaasOperatorInventorySpec → V1alpha1.DbaasOperatorInventorySpec
spec_convert_from src = record {
  provider_ref = name_from src.provider_ref;
  credentials_ref = convert_pointer local_from src.credentials_ref;
  policy = elim src.policy [
    | none ↦ record {
      disable_provisions = none;
      connection_namespaces = none;
      connection_ns_selector = none;
    }
    | some p ↦ record {
      disable_provisions = p.disable_provisions;
      connection_namespaces = p.connections.namespaces;
      connection_ns_selector = p.connections.ns_selector;
    }
  ];
}

-- A slice built by `append` from nil: it is still nil if nothing was appended.
abbrev pub appended : {A : Type 0} → List A → Option (List A)
appended [] = none
appended (x ∷ xs) = some (x ∷ xs)

abbrev pub service_of : V1alpha1.Instance → V1beta1.DatabaseService
service_of i = record {
  service_id = i.instance_id;
  service_name = i.name;
  service_type = none;
  service_info = i.instance_info;
}

abbrev pub instance_of : V1beta1.DatabaseService → V1alpha1.Instance
instance_of s = record {
  instance_id = s.service_id;
  name = s.service_name;
  instance_info = s.service_info;
}

-- The loops over `src.Instances` and over `src.DatabaseServices`.
unfoldable pub services_of : Option (List V1alpha1.Instance) → Option (List V1beta1.DatabaseService)
services_of none = none
services_of (some l) = appended (map service_of l)

unfoldable pub instances_of :
    Option (List V1beta1.DatabaseService) → Option (List V1alpha1.Instance)
instances_of none = none
instances_of (some l) = appended (map instance_of l)

unfoldable pub status_convert_to : V1alpha1.DbaasInventoryStatus → V1beta1.DbaasInventoryStatus
status_convert_to src = record {
  conditions = src.conditions;
  database_services = services_of src.instances;
}

unfoldable pub status_convert_from : V1beta1.DbaasInventoryStatus → V1alpha1.DbaasInventoryStatus
status_convert_from src = record {
  conditions = src.conditions;
  instances = instances_of src.database_services;
}

unfoldable pub convert_to : V1alpha1.DbaasInventory → V1beta1.DbaasInventory
convert_to src = record {
  meta = src.meta;
  spec = spec_convert_to src.spec;
  status = status_convert_to src.status;
}

unfoldable pub convert_from : V1beta1.DbaasInventory → V1alpha1.DbaasInventory
convert_from src = record {
  meta = src.meta;
  spec = spec_convert_from src.spec;
  status = status_convert_from src.status;
}
