-- ===== src/Tests/Specs.antt =====
-- The spec that a connection hands to its provider, and the status that an instance takes over, on
-- the cluster of `Cluster`.
use dbaas_operator.Prelude.{◌≡◌, ◌≢◌, ◌⊎◌, refl, true, none, some, List, [], ◌∷◌}
use dbaas_operator.Kube.Conditions.{Condition, is_true, has_true}
use dbaas_operator.Api.V1beta1
use dbaas_operator.Api.V1beta1.{DbaasInventory, DbaasInstance, DbaasConnectionSpec, DbaasPolicy}
use dbaas_operator.Controllers.Client.{instance_object, Call, update_status}
use dbaas_operator.Controllers.Common.Provider.Laws.{calls_after}
use dbaas_operator.Controllers.Connection
use dbaas_operator.Controllers.Instance
use dbaas_operator.Controllers.Common.Provider.Status.{FromProvider}
use dbaas_operator.Controllers.Connection.Laws.{get_connection_spec_ok, RefersTo}
use dbaas_operator.Controllers.Instance.Laws.{
  merge_instance_status_lem, instance_ready_if_provisioned,
}
use dbaas_operator.Tests.Conditions.{meta, meta_laws}
use dbaas_operator.Tests.Objects.{provider, inst, conn, connection_spec_of}
use dbaas_operator.Tests.Cluster.{client, library, no_webhook, start}

abbrev resolved : DbaasConnectionSpec
resolved = connection_spec_of "42" none

get_connection_spec_ok_example :
    (resolved.database_service_id ≢ "")
    × (((conn.spec.database_service_id ≢ "") × (resolved ≡ conn.spec))
        ⊎ ((conn.spec.database_service_id ≡ "")
            × (i : DbaasInstance) × RefersTo client library conn.spec (start []) i
            × (resolved ≡ record conn.spec {
              database_service_id = i.status.instance_id;
              database_service_ref = none;
            })))
unfolding Connection.get_connection_spec
get_connection_spec_ok_example =
    get_connection_spec_ok client library conn.spec (start []) resolved refl

abbrev no_phase : V1beta1.DbaasInstanceStatus
no_phase = record inst.status { phase = "" }

instance_ready_if_provisioned_example :
    (o : DbaasInstance) × (c : Condition) × (earlier : List Call) × (calls_after client library
        (Instance.resource client library no_webhook provider inst)
        "cockroachdb-cloud-registration"
        inst
        (start [])
      ≡ update_status (instance_object o) ∷ earlier)
    × (meta.find_status_condition o.status.conditions "InstanceReady" ≡ some c)
    × (is_true c.status ≡ true
        → ((f : FromProvider client library
              (Instance.resource client library no_webhook provider inst)
              "cockroachdb-cloud-registration"
              inst
              (start [])
              meta_laws
              (Instance.Laws.resource_laws client library no_webhook provider inst)
              c)
            × (has_true (
                  meta.find_status_condition
                    (Instance.status_of f.content).conditions
                    "ProvisionReady")
                ≡ true))
          ⊎ (meta.find_status_condition inst.status.conditions "InstanceReady" ≡ some c))
instance_ready_if_provisioned_example =
    instance_ready_if_provisioned client library no_webhook meta_laws provider inst
      "cockroachdb-cloud-registration" (start [])
