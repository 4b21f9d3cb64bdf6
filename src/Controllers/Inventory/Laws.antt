-- ===== src/Controllers/Inventory/Laws.antt =====
-- What an inventory's reconciliation does without a policy, with the secret's labels, and with what
-- the provider says.
use dbaas_operator.Prelude.{
  ◌≡◌, refl, ◌⊎◌, inl, inr, if◌then◌else◌, true, none, some, List, [], ◌∷◌, arith, Bool-cases,
  String, eq_iff, eq_refl,
}
use dbaas_operator.Prelude.GoMap.{GoMap, index, insert, lookup-insert}
use dbaas_operator.Kube.{ObjectKey}
use dbaas_operator.Kube.Conditions.{Condition, is_true, has_true, MetaLaws}
use dbaas_operator.Kube.Errors.{ok}
use dbaas_operator.Api.V1beta1
use dbaas_operator.Api.V1beta1.{DbaasInventory, DbaasPolicy, DbaasProvider}
use dbaas_operator.Controllers.Client.{inventory, Call, update_status, Client, Library, Run}
use dbaas_operator.Controllers.Common.Access.{get_active_policy}
use dbaas_operator.Controllers.Common.Merge.{ready_from_sync-type, ready_from_sync-is_true}
use dbaas_operator.Controllers.Common.Provider.Laws.{calls_after}
use dbaas_operator.Controllers.Common.Provider.Status.{
  ResourceLaws, FromProvider, status_always_written,
}
use dbaas_operator.Controllers.Inventory.{
  ProviderInventory, status_of, resource, merge_inventory_status, label_if_missing, missing_labels,
  with_condition, policy_not_found, reconcile,
}

-- The labels with those of a patch put in.
unfoldable pub patched : GoMap String → GoMap String → GoMap String
patched [] labels = labels
patched ((k, v) ∷ patch) labels = insert k v (patched patch labels)

index-patched :
    (key : String) (labels : GoMap String)
    → index key (patched (label_if_missing key labels) labels) ≡ V1beta1.type_label_value
unfolding label_if_missing patched index
index-patched key labels = ground (
  arith,
  lookup-insert key key V1beta1.type_label_value labels,
  eq_refl key,
  eq_iff (index key labels) V1beta1.type_label_value,
)

not_missing :
    (key : String) (labels : GoMap String)
    → index key labels ≡ V1beta1.type_label_value
    → label_if_missing key labels ≡ []
unfolding label_if_missing
not_missing key labels e = rw e

-- The label that the secret of a provider's credentials has.
abbrev pub label_key : Library → String → String
label_key lib provider_name =
    if lib.string_contains provider_name "mongodb"
    then V1beta1.type_label_key_mongo
    else V1beta1.type_label_key

module _ {World : Type 0} (client : Client World) (lib : Library) where
  -- After the patch, where one is needed, the secret has the label of its provider with the value
  -- that is asked for, and a second check finds nothing to patch.
  pub missing_labels-patched :
      (provider_name : String) (labels : GoMap String)
      → (index
            (label_key lib provider_name)
            (patched (missing_labels client lib provider_name labels) labels)
          ≡ V1beta1.type_label_value)
        × (missing_labels client lib provider_name
              (patched (missing_labels client lib provider_name labels) labels)
            ≡ [])
  unfolding missing_labels
  missing_labels-patched provider_name labels =
      elim (Bool-cases (lib.string_contains provider_name "mongodb")) [
        | inl e ↦ rw e (given V1beta1.type_label_key_mongo)
        | inr e ↦ rw e (given V1beta1.type_label_key)
      ]
    where
      given :
          (key : String)
          → (index key (patched (label_if_missing key labels) labels) ≡ V1beta1.type_label_value)
            × (label_if_missing key (patched (label_if_missing key labels) labels) ≡ [])
      given key = (index-patched key labels, not_missing key _ (index-patched key labels))

  -- Where an inventory and the policies of the request's namespace are read and none of these is
  -- active, the inventory's reconciliation writes its status, in which it is not ready for want of
  -- a policy, and nothing else.
  pub reconcile_without_policy :
      (laws : MetaLaws lib.meta) (req : ObjectKey) (inv : DbaasInventory)
      (policies : List DbaasPolicy) (s : Run World)
      → (client.get_inventory req s.world).0 ≡ ok inv
      → (client.list_policies req.namespace (client.get_inventory req s.world).1).0 ≡ ok policies
      → get_active_policy lib.meta policies ≡ none
      → (o : DbaasInventory) × ((reconcile client lib req s).1.calls
          ≡ update_status (inventory o) ∷ s.calls)
        × (lib.meta.find_status_condition o.status.conditions V1beta1.dbaas_inventory_ready_type
            ≡ some policy_not_found)
        × (o.spec ≡ inv.spec)
  unfolding reconcile
  reconcile_without_policy laws req inv policies s got listed no_active = (
    with_condition client lib inv policy_not_found,
    ground (arith, got, listed, no_active),
    laws.find-set inv.status.conditions policy_not_found,
    refl,
  )

module _ {World : Type 0} (client : Client World) (lib : Library) (provider : DbaasProvider)
    (inv : DbaasInventory) where
  pub resource_laws : ResourceLaws (resource client lib provider inv)
  unfolding resource merge_inventory_status
  resource_laws = record {
    conditions_kept = λ o cs. refl;
    sync_type = λ o p. ready_from_sync-type _ _;
  }

  -- The provider's object says that the inventory is synchronized.
  abbrev pub SaysSynced : ProviderInventory → Type 0
  SaysSynced p =
      has_true (
        lib.meta.find_status_condition (status_of p).conditions
          V1beta1.dbaas_inventory_provider_sync_type)
      ≡ true

  -- The last call of an inventory's reconciliation with its provider writes the inventory's status
  -- with a ready condition. That is true only if the provider's object was read and says that it is
  -- synchronized, or if it was true before.
  pub inventory_ready_if_synced :
      (laws : MetaLaws lib.meta) (s : Run World)
      → (o : DbaasInventory) × (c : Condition) × (earlier : List Call) × (calls_after client lib
            (resource client lib provider inv)
            inv.spec.provider_ref.name
            inv
            s
          ≡ update_status (inventory o) ∷ earlier)
        × (lib.meta.find_status_condition o.status.conditions V1beta1.dbaas_inventory_ready_type
            ≡ some c)
        × (is_true c.status ≡ true
            → ((f : FromProvider client lib
                  (resource client lib provider inv)
                  inv.spec.provider_ref.name
                  inv
                  s
                  laws
                  resource_laws
                  c)
                × SaysSynced f.content)
              ⊎ (lib.meta.find_status_condition inv.status.conditions
                    V1beta1.dbaas_inventory_ready_type
                  ≡ some c))
  unfolding resource merge_inventory_status
  inventory_ready_if_synced laws s =
      let (o, c, earlier, q, found, only) =
        status_always_written client lib (resource client lib provider inv)
          inv.spec.provider_ref.name inv s laws resource_laws in
      (
        o,
        c,
        earlier,
        q,
        found,
        λ t. elim (only t) [
          | inl f ↦ inl (
            f,
            ground (
              arith,
              f.given,
              t,
              ready_from_sync-is_true V1beta1.dbaas_inventory_ready_type (
                  lib.meta.find_status_condition (status_of f.content).conditions
                    V1beta1.dbaas_inventory_provider_sync_type),
            ),
          )
          | inr b ↦ inr b
        ],
      )
