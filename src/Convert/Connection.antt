-- ===== src/Convert/Connection.antt =====
-- api/v1alpha1/dbaasconnection_conversion.go
pub mod RoundTrip
use dbaas_operator.Prelude.{Option, none, some}
use dbaas_operator.Api.V1alpha1
use dbaas_operator.Api.V1beta1

abbrev pub name_to : V1alpha1.NamespacedName → V1beta1.NamespacedName
name_to r = record { namespace = r.namespace; name = r.name }

abbrev pub name_from : V1beta1.NamespacedName → V1alpha1.NamespacedName
name_from r = record { namespace = r.namespace; name = r.name }

abbrev pub local_to : V1alpha1.LocalObjectReference → V1beta1.LocalObjectReference
local_to r = record { name = r.name }

abbrev pub local_from : V1beta1.LocalObjectReference → V1alpha1.LocalObjectReference
local_from r = record { name = r.name }

-- A pointer is copied as nil, or as what it points to.
abbrev pub convert_pointer : {A B : Type 0} → (A → B) → Option A → Option B
convert_pointer f none = none
convert_pointer f (some a) = some (f a)

-- The spec's part of `(src *DBaaSConnection) ConvertTo`.
unfoldable pub spec_convert_to : V1alpha1.DbaasConnectionSpec → V1beta1.DbaasConnectionSpec
spec_convert_to src = record {
  inventory_ref = name_to src.inventory_ref;
  database_service_id = src.instance_id;
  database_service_ref = convert_pointer name_to src.instance_ref;
  database_service_type = none;
}

unfoldable pub spec_convert_from : V1beta1.DbaasConnectionSpec → V1alpha1.DbaasConnectionSpec
spec_convert_from src = record {
  inventory_ref = name_from src.inventory_ref;
  instance_id = src.database_service_id;
  instance_ref = convert_pointer name_from src.database_service_ref;
}

unfoldable pub status_convert_to : V1alpha1.DbaasConnectionStatus → V1beta1.DbaasConnectionStatus
status_convert_to src = record {
  conditions = src.conditions;
  credentials_ref = convert_pointer local_to src.credentials_ref;
  connection_info_ref = convert_pointer local_to src.connection_info_ref;
}

unfoldable pub status_convert_from : V1beta1.DbaasConnectionStatus → V1alpha1.DbaasConnectionStatus
status_convert_from src = record {
  conditions = src.conditions;
  credentials_ref = convert_pointer local_from src.credentials_ref;
  connection_info_ref = convert_pointer local_from src.connection_info_ref;
}

unfoldable pub convert_to : V1alpha1.DbaasConnection → V1beta1.DbaasConnection
unfolding spec_convert_to status_convert_to
convert_to src = record {
  meta = src.meta;
  spec = spec_convert_to src.spec;
  status = status_convert_to src.status;
}

unfoldable pub convert_from : V1beta1.DbaasConnection → V1alpha1.DbaasConnection
unfolding spec_convert_from status_convert_from
convert_from src = record {
  meta = src.meta;
  spec = spec_convert_from src.spec;
  status = status_convert_from src.status;
}
