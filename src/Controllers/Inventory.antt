-- ===== src/Controllers/Inventory.antt =====
-- controllers/dbaasinventory_controller.go, and `checkCredsRefLabel` of
-- controllers/dbaas_reconciler.go. Metrics and logging are left out.
pub mod Laws
use dbaas_operator.Prelude.{
  String, Bool, true, false, not, Option, none, some, List, [], ◌∷◌, ◌==◌, if◌then◌else◌, is_empty,
}
use dbaas_operator.Prelude.GoMap.{GoMap, index}
use dbaas_operator.Kube.{ObjectKey}
use dbaas_operator.Kube.Conditions.{Condition, condition_false}
use dbaas_operator.Kube.Errors.{Error, is_not_found, is_conflict, Result, ok, err}
use dbaas_operator.Api.V1alpha1
use dbaas_operator.Api.V1beta1
use dbaas_operator.Api.V1beta1.{DbaasInventory, DbaasPolicy, DbaasProvider}
use dbaas_operator.Convert.Inventory.{spec_convert_from, status_convert_to}
use dbaas_operator.Controllers.Client.{
  Outcome, done, requeued, inventory, ProviderSpec, inventory_alpha, inventory_beta, Unstructured,
  update_status, patch_labels, Client, Library, Action, pure, ◌>>=◌, read, submit,
}
use dbaas_operator.Controllers.Common.Access.{get_active_policy}
use dbaas_operator.Controllers.Common.Merge.{ready_from_sync}
use dbaas_operator.Controllers.Common.Provider.{speaks_alpha, Resource, reconcile_provider_resource}

-- The provider's inventory, in the version that was asked for.
pub data ProviderInventory : Type 0 where
  alpha : V1alpha1.DbaasProviderInventory → ProviderInventory
  beta : V1beta1.DbaasProviderInventory → ProviderInventory

abbrev pub status_of : ProviderInventory → V1beta1.DbaasInventoryStatus
unfolding status_convert_to
status_of (alpha p) = status_convert_to p.status
status_of (beta p) = p.status

-- The label with this key, unless the secret has it with the value that is asked for.
unfoldable pub label_if_missing : String → GoMap String → GoMap String
label_if_missing key labels =
    if not (index key labels == V1beta1.type_label_value)
    then (key, V1beta1.type_label_value) ∷ []
    else []

abbrev pub policy_not_found : Condition
policy_not_found = record {
  type = V1beta1.dbaas_inventory_ready_type;
  status = condition_false;
  reason = V1beta1.dbaas_policy_not_found;
  message = V1beta1.msg_policy_not_found;
}

module _ {World : Type 0} (client : Client World) (lib : Library) where
  unfoldable pub merge_inventory_status :
      DbaasInventory → V1beta1.DbaasInventoryStatus → DbaasInventory × Condition
  merge_inventory_status inv status = (
    record inv { status = status },
    ready_from_sync V1beta1.dbaas_inventory_ready_type (
        lib.meta.find_status_condition status.conditions
          V1beta1.dbaas_inventory_provider_sync_type),
  )

  abbrev parse_alpha : Result V1alpha1.DbaasProviderInventory → Result ProviderInventory
  parse_alpha (ok p) = ok (alpha p)
  parse_alpha (err e) = err e

  abbrev parse_beta : Result V1beta1.DbaasProviderInventory → Result ProviderInventory
  parse_beta (ok p) = ok (beta p)
  parse_beta (err e) = err e

  -- What `Reconcile` passes to `reconcileProviderResource`.
  unfoldable pub resource :
      DbaasProvider → DbaasInventory → Resource World DbaasInventory ProviderInventory
  resource provider inv = record {
    object_of = inventory;
    meta_of = λ i. i.meta;
    conditions_of = λ i. i.status.conditions;
    with_conditions = λ i cs. record i { status = record i.status { conditions = cs } };
    ready_type = V1beta1.dbaas_inventory_ready_type;
    kind_of = λ p. p.spec.inventory_kind;
    spec_of = pure (
        if speaks_alpha lib provider
        then inventory_alpha (spec_convert_from inv.spec)
        else inventory_beta inv.spec);
    parse = λ u.
        if speaks_alpha lib provider
        then parse_alpha (lib.parse_inventory_alpha u)
        else parse_beta (lib.parse_inventory_beta u);
    sync_status = λ i p. merge_inventory_status i (status_of p);
  }

  -- The labels that the secret of a provider lacks.
  unfoldable pub missing_labels : String → GoMap String → GoMap String
  unfolding label_if_missing
  missing_labels provider_name labels =
      if lib.string_contains provider_name "mongodb"
      then label_if_missing V1beta1.type_label_key_mongo labels
      else label_if_missing V1beta1.type_label_key labels

  abbrev patch_missing : ObjectKey → GoMap String → Action World (Option Error)
  patch_missing key [] = pure none
  patch_missing key (l ∷ ls) = submit client (patch_labels key (l ∷ ls))

  -- From the answer of `Get` on the secret on.
  unfoldable pub with_secret :
      ObjectKey → String → Result (GoMap String) → Action World (Option Error)
  unfolding missing_labels
  with_secret key provider_name (err e) = pure (some e)
  with_secret key provider_name (ok labels) =
      patch_missing key (missing_labels provider_name labels)

  unfoldable pub check_creds_ref_label : DbaasInventory → Action World (Option Error)
  unfolding with_secret
  check_creds_ref_label inv = elim inv.spec.credentials_ref [
    | none ↦ pure none
    | some ref ↦ if is_empty ref.name then pure none else (do
      let key : ObjectKey = record { namespace = inv.meta.namespace; name = ref.name }
      labels ← read (client.get_secret key)
      with_secret key inv.spec.provider_ref.name labels)
  ]

  abbrev pub with_condition : DbaasInventory → Condition → DbaasInventory
  with_condition inv c = record inv {
    status = record inv.status {
      conditions = lib.meta.set_status_condition inv.status.conditions c;
    };
  }

  abbrev written : Option Error → Outcome
  written none = (done, none)
  written (some e) = if is_conflict e then (requeued, none) else (done, some e)

  -- From the answer of `getDBaaSProvider` on.
  unfoldable pub with_provider : DbaasInventory → Result DbaasProvider → Action World Outcome
  unfolding reconcile_provider_resource
  with_provider inv (err e) = pure (done, some e)
  with_provider inv (ok provider) =
      reconcile_provider_resource client lib (resource provider inv) inv.spec.provider_ref.name inv

  -- From the answer of `checkCredsRefLabel` on.
  unfoldable pub labelled : DbaasInventory → Option Error → Action World Outcome
  unfolding with_provider
  labelled inv (some e) = pure (if is_conflict e then (requeued, none) else (done, some e))
  labelled inv none = do
    provider ← read (client.get_provider inv.spec.provider_ref.name)
    with_provider inv provider

  unfoldable pub with_active : DbaasInventory → Option DbaasPolicy → Action World Outcome
  unfolding labelled check_creds_ref_label
  with_active inv none = do
    e ← submit client (update_status (inventory (with_condition inv policy_not_found)))
    pure (written e)
  with_active inv (some active) = do e ← check_creds_ref_label inv; labelled inv e

  unfoldable pub with_policies : DbaasInventory → Result (List DbaasPolicy) → Action World Outcome
  unfolding with_active
  with_policies inv (err e) = pure (done, some e)
  with_policies inv (ok policies) = with_active inv (get_active_policy lib.meta policies)

  unfoldable pub with_inventory : ObjectKey → Result DbaasInventory → Action World Outcome
  unfolding with_policies
  with_inventory req (err e) = pure (done, if is_not_found e then none else some e)
  with_inventory req (ok inv) = do
    policies ← read (client.list_policies req.namespace)
    with_policies inv policies

  unfoldable pub reconcile : ObjectKey → Action World Outcome
  unfolding with_inventory
  reconcile req = do inv ← read (client.get_inventory req); with_inventory req inv
