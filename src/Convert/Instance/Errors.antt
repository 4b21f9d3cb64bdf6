-- ===== src/Convert/Instance/Errors.antt =====
-- When the conversion of an instance succeeds.
use dbaas_operator.Prelude.{◌≡◌, ◌↔◌, inl, inr, Option, none, some, arith}
use dbaas_operator.Kube.{ObjectKey}
use dbaas_operator.Kube.Errors.{Result, Result-cases, ok}
use dbaas_operator.Api.V1alpha1
use dbaas_operator.Api.V1beta1
use dbaas_operator.Convert.Connection.{name_to}
use dbaas_operator.Convert.Instance.{
  ref_key, status_convert_to, status_convert_from, convert_to, convert_from,
}

-- A client is set, and through it the inventory at the key can be read.
abbrev pub CanRead : {A : Type 0} → Option (ObjectKey → Result A) → ObjectKey → Type 0
CanRead none key = ⊥
CanRead {A = A} (some get) key = (inv : A) × (get key ≡ ok inv)

-- The conversion of a v1beta1 instance to v1alpha1 succeeds exactly if the client of the webhooks
-- is set and the inventory of the instance can be read. Then the status is taken over; the metadata
-- is taken over in any case.
pub convert_from_iff :
    (client : Option (ObjectKey → Result V1beta1.DbaasInventory)) (src : V1beta1.DbaasInstance)
    → (((convert_from client src).1 ≡ none) ↔ CanRead client (ref_key src.spec.inventory_ref))
      × ((convert_from client src).0.meta ≡ src.meta)
      × ((convert_from client src).1 ≡ none
          → (convert_from client src).0.status ≡ status_convert_from src.status)
unfolding convert_from
convert_from_iff none src =
    (((λ h. absurd (ground arith)), (λ h. absurd h)), ground arith, ground arith)
convert_from_iff (some get) src = elim (Result-cases (get (ref_key src.spec.inventory_ref))) [
  | inl (inv, r) ↦ (((λ h. (inv, r)), (λ h. ground arith)), ground arith, ground arith)
  | inr (u, r) ↦ (
    ((λ h. absurd (ground arith)), (λ (inv, q). absurd (ground arith))),
    ground arith,
    ground arith,
  )
]

-- The conversion of a v1alpha1 instance to v1beta1 succeeds exactly if the client of the webhooks is
-- set and the inventory of the instance can be read. Then the status is taken over; the metadata is
-- taken over in any case.
pub convert_to_iff :
    (client : Option (ObjectKey → Result V1alpha1.DbaasInventory)) (src : V1alpha1.DbaasInstance)
    → (((convert_to client src).1 ≡ none)
        ↔ CanRead client (ref_key (name_to src.spec.inventory_ref)))
      × ((convert_to client src).0.meta ≡ src.meta)
      × ((convert_to client src).1 ≡ none
          → (convert_to client src).0.status ≡ status_convert_to src.status)
unfolding convert_to
convert_to_iff none src =
    (((λ h. absurd (ground arith)), (λ h. absurd h)), ground arith, ground arith)
convert_to_iff (some get) src =
    elim (Result-cases (get (ref_key (name_to src.spec.inventory_ref)))) [
      | inl (inv, r) ↦ (((λ h. (inv, r)), (λ h. ground arith)), ground arith, ground arith)
      | inr (u, r) ↦ (
        ((λ h. absurd (ground arith)), (λ (inv, q). absurd (ground arith))),
        ground arith,
        ground arith,
      )
    ]
