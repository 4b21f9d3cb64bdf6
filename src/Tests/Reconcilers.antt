-- ===== src/Tests/Reconcilers.antt =====
-- The check of an inventory, and what the reconciliations of a connection and an instance write, on
-- the cluster of `Cluster`.
use dbaas_operator.Prelude.{◌≡◌, ◌↔◌, refl, true, none, some, [], ◌∷◌}
use dbaas_operator.Kube.Errors.{ok}
use dbaas_operator.Controllers.Common.Access.{
  get_active_policy, can_provision, is_valid_connection_ns, contains, connection_policy,
}
use dbaas_operator.Controllers.Common.Access.Laws.{IsAllowed, is_valid_connection_ns_iff}
use dbaas_operator.Controllers.Common.Check.{check_inventory}
use dbaas_operator.Controllers.Common.Check.Laws.{checked, LetThrough, check_inventory_iff}
use dbaas_operator.Controllers.Common.Provider.{
  speaks_alpha, get_provider_spec_status_version, get_dbaas_api_group_version,
}
use dbaas_operator.Controllers.Connection
use dbaas_operator.Controllers.Instance
use dbaas_operator.Controllers.Safety.{writes_provider}
use dbaas_operator.Controllers.Safety.Connections.{connection_justified, ConnectionJustified}
use dbaas_operator.Controllers.Safety.Instances.{instance_justified, InstanceJustified}
use dbaas_operator.Tests.Objects.{key_of, active_policy, inventory_ref, ready_inventory, inst}
use dbaas_operator.Tests.Cluster.{client, library, no_webhook, start}

inst_let_through :
    LetThrough client library
      (Instance.subject client library no_webhook)
      inventory_ref
      inst
      (start (active_policy ∷ []))
unfolding check_inventory get_active_policy can_provision is_valid_connection_ns contains
    connection_policy
inst_let_through =
    (check_inventory_iff client library (Instance.subject client library no_webhook) inventory_ref
        inst (start (active_policy ∷ []))).0
      (refl, refl)

check_inventory_iff_example :
    ((checked client library
          (Instance.subject client library no_webhook)
          inventory_ref
          inst
          (start [])).error
        ≡ none)
      × ((checked client library
            (Instance.subject client library no_webhook)
            inventory_ref
            inst
            (start [])).valid_ns
          ≡ true)
    ↔ LetThrough client library
        (Instance.subject client library no_webhook)
        inventory_ref
        inst
        (start [])
check_inventory_iff_example =
    check_inventory_iff client library (Instance.subject client library no_webhook) inventory_ref
      inst (start [])

instance_justified_example :
    InstanceJustified client library no_webhook (key_of "dev" "db") (active_policy ∷ [])
unfolding Instance.reconcile writes_provider check_inventory get_active_policy can_provision
    is_valid_connection_ns contains connection_policy speaks_alpha get_provider_spec_status_version
    get_dbaas_api_group_version
instance_justified_example =
    instance_justified client library no_webhook (key_of "dev" "db") (active_policy ∷ []) refl

connection_justified_example :
    ConnectionJustified client library (key_of "dev" "app") (active_policy ∷ [])
unfolding Connection.reconcile writes_provider check_inventory get_active_policy can_provision
    is_valid_connection_ns contains connection_policy speaks_alpha get_provider_spec_status_version
    get_dbaas_api_group_version
connection_justified_example =
    connection_justified client library (key_of "dev" "app") (active_policy ∷ []) refl

is_valid_connection_ns_iff_example :
    ((is_valid_connection_ns client library "dev" ready_inventory (some active_policy) (start [])).0
      ≡ ok true)
    ↔ IsAllowed client library "dev" ready_inventory (some active_policy) (start [])
is_valid_connection_ns_iff_example =
    is_valid_connection_ns_iff client library "dev" ready_inventory (some active_policy) (start [])
