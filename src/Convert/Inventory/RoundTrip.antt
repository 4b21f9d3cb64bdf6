-- ===== src/Convert/Inventory/RoundTrip.antt =====
-- Converting an inventory to the other version and back.
use dbaas_operator.Prelude.{◌≡◌, ◌≢◌, ◌↔◌, refl, ap, Option, none, some, List, [], ◌∷◌, map, arith}
use dbaas_operator.Api.V1alpha1
use dbaas_operator.Api.V1beta1
use dbaas_operator.Convert.Inventory.{
  service_of, instance_of, services_of, instances_of, no_policy, spec_convert_to, spec_convert_from,
  status_convert_to, status_convert_from, convert_to, convert_from,
}

map-instance_of-service_of : (l : List V1alpha1.Instance) → map instance_of (map service_of l) ≡ l
map-instance_of-service_of [] = refl
map-instance_of-service_of (i ∷ l) = ap (λ r. i ∷ r) (map-instance_of-service_of l)

instances_of-services_of :
    (o : Option (List V1alpha1.Instance)) → o ≢ some [] → instances_of (services_of o) ≡ o
unfolding services_of instances_of
instances_of-services_of none h = refl
instances_of-services_of (some []) h = absurd (h refl)
instances_of-services_of (some (i ∷ l)) h = ap (λ r. some (i ∷ r)) (map-instance_of-service_of l)

status_from_to :
    (s : V1alpha1.DbaasInventoryStatus)
    → s.instances ≢ some []
    → status_convert_from (status_convert_to s) ≡ s
unfolding status_convert_from status_convert_to
status_from_to s h =
    λ k. record { conditions = s.conditions; instances = instances_of-services_of s.instances h k }

spec_from_to : (s : V1alpha1.DbaasOperatorInventorySpec) → spec_convert_from (spec_convert_to s) ≡ s
unfolding spec_convert_from spec_convert_to
spec_from_to s = ground arith

-- A v1alpha1 inventory comes back from v1beta1 as it was, if its list of instances is not an empty
-- slice (which comes back as nil).
pub inventory_from_to :
    (i : V1alpha1.DbaasInventory) → i.status.instances ≢ some [] → convert_from (convert_to i) ≡ i
unfolding convert_from convert_to
inventory_from_to i h = λ k. record {
  meta = i.meta;
  spec = spec_from_to i.spec k;
  status = status_from_to i.status h k;
}

-- A v1beta1 inventory spec comes back from v1alpha1 as it was exactly if its policy is not an empty
-- object, which v1alpha1 does not tell from no policy.
pub inventory_spec_to_from :
    (s : V1beta1.DbaasOperatorInventorySpec)
    → (spec_convert_to (spec_convert_from s) ≡ s) ↔ (s.policy ≢ some no_policy)
unfolding spec_convert_from spec_convert_to
inventory_spec_to_from s = ground arith
