-- ===== src/Convert/Spokes.antt =====
-- The round trips of connections, policies and inventories together.
use dbaas_operator.Prelude.{◌≡◌, ◌≢◌, ◌↔◌, none, some, []}
use dbaas_operator.Api.V1alpha1
use dbaas_operator.Api.V1beta1
use dbaas_operator.Convert.Connection
use dbaas_operator.Convert.Connection.RoundTrip.{connection_from_to, connection_to_from}
use dbaas_operator.Convert.Policy
use dbaas_operator.Convert.Policy.RoundTrip.{policy_from_to, policy_to_from}
use dbaas_operator.Convert.Inventory
use dbaas_operator.Convert.Inventory.{no_policy}
use dbaas_operator.Convert.Inventory.RoundTrip.{inventory_from_to, inventory_spec_to_from}

-- A v1alpha1 connection, policy and inventory come back from v1beta1 as they were, the inventory if
-- its list of instances is not an empty slice (which comes back as nil).
pub spokes_from_to :
    (c : V1alpha1.DbaasConnection) (p : V1alpha1.DbaasPolicy) (i : V1alpha1.DbaasInventory)
    → i.status.instances ≢ some []
    → (Connection.convert_from (Connection.convert_to c) ≡ c)
      × (Policy.convert_from (Policy.convert_to p) ≡ p)
      × (Inventory.convert_from (Inventory.convert_to i) ≡ i)
spokes_from_to c p i h = (connection_from_to c, policy_from_to p, inventory_from_to i h)

-- A v1beta1 policy comes back from v1alpha1 as it was; a connection exactly if it has no database
-- service type, which v1alpha1 cannot say; an inventory spec exactly if its policy is not an empty
-- object, which v1alpha1 does not tell from no policy.
pub spokes_to_from :
    (c : V1beta1.DbaasConnection) (p : V1beta1.DbaasPolicy) (s : V1beta1.DbaasOperatorInventorySpec)
    → ((Connection.convert_to (Connection.convert_from c) ≡ c)
        ↔ (c.spec.database_service_type ≡ none))
      × (Policy.convert_to (Policy.convert_from p) ≡ p)
      × ((Inventory.spec_convert_to (Inventory.spec_convert_from s) ≡ s)
          ↔ (s.policy ≢ some no_policy))
spokes_to_from c p s = (connection_to_from c, policy_to_from p, inventory_spec_to_from s)
