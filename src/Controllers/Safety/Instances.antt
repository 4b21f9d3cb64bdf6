-- ===== src/Controllers/Safety/Instances.antt =====
-- The runs of controllers/dbaasinstance_controller.go that write a provider's object.
use mathlib.Core.Path.{subst}
use dbaas_operator.Prelude.{
  ◌≡◌, refl, inl, inr, true, false, none, some, arith, Option, Option-cases,
}
use dbaas_operator.Kube.{ObjectKey}
use dbaas_operator.Kube.Errors.{Result, Result-cases, ok}
use dbaas_operator.Api.V1beta1.{DbaasInstance, DbaasInventory, DbaasProvider}
use dbaas_operator.Controllers.Client.{Client, Library, Run}
use dbaas_operator.Controllers.Common.Access.{get_active_policy, can_provision}
use dbaas_operator.Controllers.Common.Check.{Checked, check_inventory}
use dbaas_operator.Controllers.Common.Check.Laws.{
  LetThrough, check_inventory_iff, check_inventory_passes,
}
use dbaas_operator.Controllers.Instance
use dbaas_operator.Controllers.Safety.{writes_provider, start, check_writes_no_provider}

module _ {World : Type 0} (client : Client World) (lib : Library)
    (webhook_client : World → Option (ObjectKey → Result DbaasInventory)) where
  instance_checked :
      (c : Checked DbaasInstance) (s : Run World)
      → writes_provider s.calls ≡ false
      → writes_provider (Instance.checked client lib webhook_client c s).1.calls ≡ true
      → (c.error ≡ none)
        × (c.valid_ns ≡ true)
        × ((inv : DbaasInventory) × (c.inventory ≡ some inv)
            × ((provider : DbaasProvider) × ((client.get_provider inv.spec.provider_ref.name
                    s.world).0
                  ≡ ok provider)))
  unfolding writes_provider Instance.checked
  instance_checked c s quiet h = elim (Option-cases c.inventory) [
    | inl q ↦ absurd (ground arith)
    | inr (inv, q) ↦
        elim (Result-cases (client.get_provider inv.spec.provider_ref.name s.world).0) [
          | inl (p, got) ↦ (ground arith, ground arith, (inv, q, (p, got)))
          | inr (e, got) ↦ absurd (ground arith)
        ]
  ]

  instance_run :
      (req : ObjectKey) (w : World) (inst : DbaasInstance)
      → (client.get_instance req w).0 ≡ ok inst
      → Instance.reconcile client lib webhook_client req (start w) ≡ (
          let (c, s) =
            check_inventory client lib
              (Instance.subject client lib webhook_client)
              inst.spec.inventory_ref
              inst
              (start (client.get_instance req w).1) in
          Instance.checked client lib webhook_client c s)
  unfolding Instance.reconcile
  instance_run req w inst found = rw (found, Instance.with_instance)

  -- The instance was read, the check of its inventory let it through, with the right to provision,
  -- and the inventory's provider was read.
  pub record InstanceJustified (req : ObjectKey) (w : World) : Type 0 where
    pub inst : DbaasInstance
    pub found : (client.get_instance req w).0 ≡ ok inst
    pub let_through :
        LetThrough client lib
          (Instance.subject client lib webhook_client)
          inst.spec.inventory_ref
          inst
          (start (client.get_instance req w).1)
    pub may_provision :
        can_provision let_through.inventory (get_active_policy lib.meta let_through.policies) ≡ true
    pub provider : DbaasProvider
    pub has_provider :
        (client.get_provider let_through.inventory.spec.provider_ref.name
          (check_inventory client lib
            (Instance.subject client lib webhook_client)
            inst.spec.inventory_ref
            inst
            (start (client.get_instance req w).1)).1.world).0
        ≡ ok provider

  -- The reconciliation of an instance writes the provider's object only if the instance was read,
  -- the check of its inventory let it through, with the right to provision, and the provider was
  -- read.
  pub instance_justified :
      (req : ObjectKey) (w : World)
      → writes_provider (Instance.reconcile client lib webhook_client req (start w)).1.calls ≡ true
      → InstanceJustified req w
  unfolding writes_provider Instance.reconcile
  instance_justified req w h = elim (Result-cases (client.get_instance req w).0) [
    | inr (e, q) ↦ absurd (ground arith)
    | inl (inst, found) ↦
        let st = start (client.get_instance req w).1 in
        let subject = Instance.subject client lib webhook_client in
        let run = check_inventory client lib subject inst.spec.inventory_ref inst st in
        let quiet : writes_provider run.1.calls ≡ false =
          check_writes_no_provider client lib subject inst.spec.inventory_ref inst st in
        let (no_error, valid, (inv, has_inv, (provider, has_provider))) =
          instance_checked run.0 run.1 quiet (rw (instance_run req w inst found) at h) in
        let let_through =
          (check_inventory_iff client lib subject inst.spec.inventory_ref inst st).0
            (no_error, valid) in
        let same : inv ≡ let_through.inventory = ground (
          arith,
          has_inv,
          (check_inventory_passes client lib subject inst.spec.inventory_ref inst st let_through).0,
        ) in
        record {
          inst = inst;
          found = found;
          let_through = let_through;
          may_provision = let_through.provisions refl;
          provider = provider;
          has_provider =
              subst
                (λ (i : DbaasInventory).
                  (client.get_provider i.spec.provider_ref.name run.1.world).0 ≡ ok provider)
                same has_provider;
        }
  ]
