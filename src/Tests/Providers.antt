-- ===== src/Tests/Providers.antt =====
-- The reconciliation of a provider's object, and what the reconciler of inventories makes of it, on
-- the cluster of `Cluster`.
use dbaas_operator.Prelude.{◌≡◌, ◌↔◌, ◌⊎◌, refl, true, none, some, List, [], ◌∷◌}
use dbaas_operator.Kube.Conditions.{Condition, is_true}
use dbaas_operator.Api.V1beta1.{DbaasInventory, DbaasPolicy}
use dbaas_operator.Controllers.Client.{Call, done, inventory, update_status}
use dbaas_operator.Controllers.Common.Provider.{
  speaks_alpha, get_provider_spec_status_version, get_dbaas_api_group_version,
  provider_object_mutate_fn, Resource, reconcile_provider_resource,
}
use dbaas_operator.Controllers.Common.Provider.Laws.{
  reconcile_success_calls, Written, calls_after, outcome, Succeeds, reconcile_succeeds_iff,
}
use dbaas_operator.Controllers.Inventory
use dbaas_operator.Controllers.Common.Provider.Status.{
  FromProvider, FoundBefore, status_always_written,
}
use dbaas_operator.Controllers.Inventory.Laws.{inventory_ready_if_synced, resource_laws, SaysSynced}
use dbaas_operator.Tests.Conditions.{meta, meta_laws}
use dbaas_operator.Tests.Objects.{ready_inventory, provider}
use dbaas_operator.Tests.Cluster.{client, library, start}

abbrev inventory_resource : Resource (List DbaasPolicy) DbaasInventory Inventory.ProviderInventory
inventory_resource = Inventory.resource client library provider ready_inventory

reconcile_succeeds_iff_example :
    (outcome client library inventory_resource "cockroachdb-cloud-registration" ready_inventory
        (start [])
      ≡ (done, none))
    ↔ Succeeds client library inventory_resource "cockroachdb-cloud-registration" ready_inventory
        (start [])
reconcile_succeeds_iff_example =
    reconcile_succeeds_iff client library inventory_resource "cockroachdb-cloud-registration"
      ready_inventory (start [])

inventory_succeeds :
    Succeeds client library inventory_resource "cockroachdb-cloud-registration" ready_inventory
      (start [])
unfolding reconcile_provider_resource Inventory.resource speaks_alpha
    get_provider_spec_status_version get_dbaas_api_group_version provider_object_mutate_fn
inventory_succeeds =
    (reconcile_succeeds_iff client library inventory_resource "cockroachdb-cloud-registration"
        ready_inventory (start [])).0
      refl

reconcile_success_calls_example :
    Written client library inventory_resource "cockroachdb-cloud-registration" ready_inventory
      (start [])
unfolding reconcile_provider_resource Inventory.resource speaks_alpha
    get_provider_spec_status_version get_dbaas_api_group_version provider_object_mutate_fn
reconcile_success_calls_example =
    reconcile_success_calls client library inventory_resource "cockroachdb-cloud-registration"
      ready_inventory (start []) refl

status_always_written_example :
    (o : DbaasInventory) × (c : Condition) × (earlier : List Call) × (calls_after client library
        inventory_resource "cockroachdb-cloud-registration" ready_inventory
        (start [])
      ≡ update_status (inventory_resource.object_of o) ∷ earlier)
    × (meta.find_status_condition (inventory_resource.conditions_of o) inventory_resource.ready_type
        ≡ some c)
    × (is_true c.status ≡ true
        → FromProvider client library inventory_resource "cockroachdb-cloud-registration"
            ready_inventory
            (start [])
            meta_laws
            (resource_laws client library provider ready_inventory)
            c
          ⊎ FoundBefore client library inventory_resource "cockroachdb-cloud-registration"
              ready_inventory
              (start [])
              meta_laws
              (resource_laws client library provider ready_inventory)
              c)
status_always_written_example =
    status_always_written client library inventory_resource "cockroachdb-cloud-registration"
      ready_inventory (start []) meta_laws (resource_laws client library provider ready_inventory)

inventory_ready_if_synced_example :
    (o : DbaasInventory) × (c : Condition) × (earlier : List Call) × (calls_after client library
        inventory_resource "cockroachdb-cloud-registration" ready_inventory
        (start [])
      ≡ update_status (inventory o) ∷ earlier)
    × (meta.find_status_condition o.status.conditions "InventoryReady" ≡ some c)
    × (is_true c.status ≡ true
        → ((f : FromProvider client library inventory_resource "cockroachdb-cloud-registration"
              ready_inventory
              (start [])
              meta_laws
              (resource_laws client library provider ready_inventory)
              c)
            × SaysSynced client library provider ready_inventory f.content)
          ⊎ (meta.find_status_condition ready_inventory.status.conditions "InventoryReady"
              ≡ some c))
inventory_ready_if_synced_example =
    inventory_ready_if_synced client library provider ready_inventory meta_laws (start [])
