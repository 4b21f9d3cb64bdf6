-- ===== src/Webhook/Connection/Accepts.antt =====
-- Exactly which connections are accepted.
use dbaas_operator.Prelude.{
  ◌≡◌, ◌≢◌, ◌↔◌, ◌⊎◌, refl, true, Option, none, some, arith, eq_iff, opt_eq_iff,
}
use dbaas_operator.Api.V1beta1.{NamespacedName, DbaasConnectionSpec}
use dbaas_operator.Webhook.Connection.{is_named, name_eq, ref_eq, validate_create, validate_update}

-- A reference with a name.
abbrev pub IsNamed : Option NamespacedName → Type 0
IsNamed ref = (r : NamespacedName) × (ref ≡ some r) × (r.name ≢ "")

is_named_iff : (ref : Option NamespacedName) → (is_named ref ≡ true) ↔ IsNamed ref
is_named_iff none = ((λ h. cc), (λ (r, e, h). cc))
is_named_iff (some r) = (
  (λ h. (r, refl, ground (arith, eq_iff r.name ""))),
  (λ (q, e, h). ground (arith, eq_iff r.name "")),
)

name_eq_iff : (a b : NamespacedName) → (name_eq a b ≡ true) ↔ (a ≡ b)
name_eq_iff a b = ground (arith, eq_iff a.namespace b.namespace, eq_iff a.name b.name)

ref_eq_iff : (a b : Option NamespacedName) → (ref_eq a b ≡ true) ↔ (a ≡ b)
ref_eq_iff none none = ((λ _. refl), (λ _. refl))
ref_eq_iff none (some b) = ((λ h. cc), (λ h. cc))
ref_eq_iff (some a) none = ((λ h. cc), (λ h. cc))
ref_eq_iff (some a) (some b) =
    ((λ h. ground (arith, name_eq_iff a b)), (λ h. ground (arith, name_eq_iff a b)))

-- Exactly one of the service's ID and a named reference to it.
abbrev pub NamesOneService : DbaasConnectionSpec → Type 0
NamesOneService spec =
    ((spec.database_service_id ≢ "") × ¬ IsNamed spec.database_service_ref)
    ⊎ ((spec.database_service_id ≡ "") × IsNamed spec.database_service_ref)

-- A new connection is accepted exactly if it names one database service, by ID or by reference and
-- not by both, and has a service type only if it has no reference.
pub validate_create_iff :
    (spec : DbaasConnectionSpec)
    → (validate_create spec ≡ none) ↔ (
        NamesOneService spec
        × ((spec.database_service_ref ≡ none) ⊎ (spec.database_service_type ≡ none)))
unfolding validate_create
validate_create_iff spec =
    ground (arith, is_named_iff spec.database_service_ref, eq_iff spec.database_service_id "")

-- An update is accepted exactly if it leaves the whole spec as it was.
pub validate_update_iff :
    (spec old : DbaasConnectionSpec) → (validate_update spec old ≡ none) ↔ (spec ≡ old)
unfolding validate_update
validate_update_iff spec old = ground (
  arith,
  eq_iff spec.database_service_id old.database_service_id,
  name_eq_iff spec.inventory_ref old.inventory_ref,
  ref_eq_iff spec.database_service_ref old.database_service_ref,
  opt_eq_iff spec.database_service_type old.database_service_type,
)
