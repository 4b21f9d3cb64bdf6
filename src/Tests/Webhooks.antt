-- ===== src/Tests/Webhooks.antt =====
-- Requests that the webhooks admit.
use dbaas_operator.Prelude.{inl, arith, ◌+◌, ◌≤◌, ◌≡◌, ◌↔◌, ◌⊎◌, refl, none, List, [], ◌∷◌}
use dbaas_operator.Prelude.GoMap.{lookup}
use dbaas_operator.Kube.Errors.{ok}
use dbaas_operator.Api.V1beta1.{DbaasInventory}
use dbaas_operator.Webhook.Connection.{validate_create}
use dbaas_operator.Webhook.Connection.Accepts.{NamesOneService, validate_create_iff}
use dbaas_operator.Webhook.Inventory.{
  WebhookClient, validate_inventory, validate_rds, validate_ns_selector, check_rds,
  validate_inventory_mandatory_fields,
}
use dbaas_operator.Webhook.Inventory.Fields.{IsAccepted, validate_inventory_iff}
use dbaas_operator.Webhook.Inventory.Rds.{
  inventories_of, count_rds, created, IsHistory, count_rds-IsHistory,
}
use dbaas_operator.Tests.Objects.{conn, provider, ready_inventory}

validate_create_iff_example : (validate_create conn.spec ≡ none) ↔ (
    NamesOneService conn.spec
    × ((conn.spec.database_service_ref ≡ none) ⊎ (conn.spec.database_service_type ≡ none)))
validate_create_iff_example = validate_create_iff conn.spec

abbrev webhook_client : List DbaasInventory → WebhookClient
webhook_client cluster = record {
  get_secret = λ key. ok (record { name = key.name; contents = ("apiSecretKey", "x") ∷ [] });
  get_provider = λ name. ok provider;
  list_inventories = λ name. ok (inventories_of name cluster);
  selector_error = λ s. none;
}

validate_inventory_iff_example :
    (validate_inventory (webhook_client []) ready_inventory none ≡ none)
    ↔ IsAccepted (webhook_client []) ready_inventory none
validate_inventory_iff_example = validate_inventory_iff (webhook_client []) ready_inventory none

abbrev rds_inventory : DbaasInventory
rds_inventory = record ready_inventory {
  spec = record ready_inventory.spec {
    provider_ref = record { namespace = ""; name = "rds-registration" };
  };
}

-- Two creations, the second while the cache does not show the first.
two_created :
    IsHistory webhook_client
      (λ v. inl refl)
      1
      ((rds_inventory ∷ rds_inventory ∷ []) ∷ (rds_inventory ∷ []) ∷ [] ∷ [])
unfolding validate_inventory inventories_of validate_inventory_mandatory_fields check_rds
    validate_rds validate_ns_selector lookup
two_created = (
  (refl, ([], 0, omega arith, refl, created rds_inventory refl refl)),
  ([], 1, omega arith, refl, created rds_inventory refl refl),
)

count_rds-IsHistory_example : count_rds (rds_inventory ∷ rds_inventory ∷ []) ≤ 1 + 1
count_rds-IsHistory_example =
    count_rds-IsHistory webhook_client (λ v. inl refl) 1 (rds_inventory ∷ rds_inventory ∷ [])
      ((rds_inventory ∷ []) ∷ [] ∷ []) two_created
