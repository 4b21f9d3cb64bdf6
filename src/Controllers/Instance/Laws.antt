-- ===== src/Controllers/Instance/Laws.antt =====
-- What the provider's status gives an instance.
use dbaas_operator.Prelude.{
  is_empty, ◌≡◌, ◌≢◌, refl, true, Option, some, ◌∷◌, arith, eq_iff, String, Bool-cases, inl, inr,
  ◌⊎◌, List,
}
use dbaas_operator.Kube.{ObjectKey}
use dbaas_operator.Kube.Conditions.{Condition, is_true, has_true, MetaLaws}
use dbaas_operator.Kube.Errors.{Result}
use dbaas_operator.Api.V1beta1
use dbaas_operator.Api.V1beta1.{DbaasInstance, DbaasInventory, DbaasProvider}
use dbaas_operator.Controllers.Client.{instance_object, Call, update_status, Client, Library, Run}
use dbaas_operator.Controllers.Common.Merge.{ready_from_sync-type, ready_from_sync-is_true}
use dbaas_operator.Controllers.Common.Provider.Laws.{calls_after}
use dbaas_operator.Controllers.Common.Provider.Status.{
  ResourceLaws, FromProvider, status_always_written,
}
use dbaas_operator.Controllers.Instance.{
  resource, merge_instance_status, phase_or_unknown, status_of,
}

phase_or_unknown_lem :
    (phase : String) → (phase_or_unknown phase ≢ "") × (phase ≢ "" → phase_or_unknown phase ≡ phase)
phase_or_unknown_lem phase = elim (Bool-cases (is_empty phase)) [
  | inl e ↦ rw e (
    λ h. ground (arith, eq_iff V1beta1.instance_phase_unknown ""),
    λ ne. absurd (ne ((eq_iff phase "").0 e)),
  )
  | inr e ↦ rw e (λ h. ground (arith, eq_iff phase ""), λ ne. refl)
]

module _ {World : Type 0} (client : Client World) (lib : Library)
    (webhook_client : World → Option (ObjectKey → Result DbaasInventory)) where
  -- The status that an instance takes over from its provider has a phase, and is the provider's
  -- whole status if that has one; the spec is kept, and the instance is ready exactly if the
  -- provider has synchronized it.
  pub merge_instance_status_lem :
      (i : DbaasInstance) (status : V1beta1.DbaasInstanceStatus)
      → let (i', c) = merge_instance_status client lib webhook_client i status in
        (i'.status.phase ≢ "")
        × (status.phase ≢ "" → i'.status ≡ status)
        × (i'.spec ≡ i.spec)
        × (is_true c.status
            ≡ has_true (
                lib.meta.find_status_condition status.conditions
                  V1beta1.dbaas_instance_provider_sync_type))
  unfolding merge_instance_status
  merge_instance_status_lem i status = (
    (phase_or_unknown_lem status.phase).0,
    λ ne. rw ((phase_or_unknown_lem status.phase).1 ne),
    refl,
    ready_from_sync-is_true _ _,
  )

  pub resource_laws :
      (provider : DbaasProvider) (i : DbaasInstance)
      → ResourceLaws (resource client lib webhook_client provider i)
  unfolding resource merge_instance_status
  resource_laws provider i = record {
    conditions_kept = λ o cs. refl;
    sync_type = λ o p. ready_from_sync-type _ _;
  }

  -- The last call of an instance's reconciliation with its provider writes the instance's status
  -- with a ready condition. That is true only if the provider's object was read and says that it is
  -- provisioned, or if it was true before.
  pub instance_ready_if_provisioned :
      (laws : MetaLaws lib.meta) (provider : DbaasProvider) (i : DbaasInstance) (name : String)
      (s : Run World)
      → (o : DbaasInstance) × (c : Condition) × (earlier : List Call) × (calls_after client lib
            (resource client lib webhook_client provider i)
            name
            i
            s
          ≡ update_status (instance_object o) ∷ earlier)
        × (lib.meta.find_status_condition o.status.conditions V1beta1.dbaas_instance_ready_type
            ≡ some c)
        × (is_true c.status ≡ true
            → ((f : FromProvider client lib
                  (resource client lib webhook_client provider i)
                  name
                  i
                  s
                  laws
                  (resource_laws provider i)
                  c)
                × (has_true (
                      lib.meta.find_status_condition
                        (status_of f.content).conditions
                        V1beta1.dbaas_instance_provider_sync_type)
                    ≡ true))
              ⊎ (lib.meta.find_status_condition i.status.conditions
                    V1beta1.dbaas_instance_ready_type
                  ≡ some c))
  unfolding resource merge_instance_status
  instance_ready_if_provisioned laws provider i name s =
      let (o, c, earlier, q, found, only) =
        status_always_written client lib (resource client lib webhook_client provider i) name i s
          laws (resource_laws provider i) in
      (
        o,
        c,
        earlier,
        q,
        found,
        λ t. elim (only t) [
          | inl f ↦ inl (
            f,
            ground (
              arith,
              f.given,
              t,
              ready_from_sync-is_true V1beta1.dbaas_instance_ready_type (
                  lib.meta.find_status_condition (status_of f.content).conditions
                    V1beta1.dbaas_instance_provider_sync_type),
            ),
          )
          | inr b ↦ inr b
        ],
      )
