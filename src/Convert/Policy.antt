-- ===== src/Convert/Policy.antt =====
-- api/v1alpha1/dbaaspolicy_conversion.go
pub mod RoundTrip
use dbaas_operator.Prelude.{none, some}
use dbaas_operator.Api.V1alpha1
use dbaas_operator.Api.V1beta1

-- A field is copied only if it is not nil, over a destination where it is nil.
unfoldable pub convert_to : V1alpha1.DbaasPolicy → V1beta1.DbaasPolicy
convert_to src = record {
  meta = src.meta;
  spec = record {
    disable_provisions = elim src.spec.disable_provisions [ none ↦ none | some b ↦ some b ];
    connections = record {
      namespaces = elim src.spec.connection_namespaces [ none ↦ none | some l ↦ some l ];
      ns_selector = elim src.spec.connection_ns_selector [ none ↦ none | some s ↦ some s ];
    };
  };
  status = record { conditions = src.status.conditions };
}

unfoldable pub convert_from : V1beta1.DbaasPolicy → V1alpha1.DbaasPolicy
convert_from src = record {
  meta = src.meta;
  spec = record {
    disable_provisions = elim src.spec.disable_provisions [ none ↦ none | some b ↦ some b ];
    connection_namespaces = elim src.spec.connections.namespaces [ none ↦ none | some l ↦ some l ];
    connection_ns_selector = elim src.spec.connections.ns_selector [
      | none ↦ none
      | some s ↦ some s
    ];
  };
  status = record { conditions = src.status.conditions };
}
