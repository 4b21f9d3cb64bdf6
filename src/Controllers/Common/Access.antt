-- ===== src/Controllers/Common/Access.antt =====
-- `contains`, `isValidConnectionNS`, `canProvision`, `getActivePolicy`.
pub mod Laws
use dbaas_operator.Prelude.{
  String, Bool, true, false, not, ◌||◌, Option, none, some, List, [], ◌∷◌, ◌++◌, ◌==◌,
  if◌then◌else◌,
}
use dbaas_operator.Kube.{LabelSelector}
use dbaas_operator.Kube.Conditions.{Meta}
use dbaas_operator.Kube.Errors.{Error, Result, ok, err}
use dbaas_operator.Api.V1beta1
use dbaas_operator.Api.V1beta1.{DbaasInventory, DbaasPolicy, DbaasConnectionPolicy}
use dbaas_operator.Controllers.Client.{Client, Library, Action, pure, ◌>>=◌, read}

unfoldable pub contains : List String → String → Bool
contains [] str = false
contains (v ∷ s) str = if v == str then true else contains s str

-- controllers/dbaaspolicy_controller.go: the first policy of the list that is ready.
unfoldable pub get_active_policy : Meta → List DbaasPolicy → Option DbaasPolicy
get_active_policy meta [] = none
get_active_policy meta (p ∷ items) =
    if meta.is_status_condition_true p.status.conditions V1beta1.dbaas_policy_ready_type
    then some p
    else get_active_policy meta items

-- The connection policy that counts: the inventory's if it has a policy, else the active one's.
unfoldable pub connection_policy :
    DbaasInventory → Option DbaasPolicy → Option DbaasConnectionPolicy
connection_policy inventory active = elim inventory.spec.policy [
  | some p ↦ some p.connections
  | none ↦ elim active [ some p ↦ some p.spec.connections | none ↦ none ]
]

abbrev pub or_nil : Option (List String) → List String
or_nil none = []
or_nil (some l) = l

-- `validNamespaces` and `validNsSelector` as the first part of `isValidConnectionNS` sets them.
abbrev pub valid_namespaces : Option DbaasConnectionPolicy → List String
valid_namespaces none = []
valid_namespaces (some p) = or_nil p.namespaces

abbrev pub valid_ns_selector : Option DbaasConnectionPolicy → Option LabelSelector
valid_ns_selector none = none
valid_ns_selector (some p) = p.ns_selector

unfoldable pub can_provision : DbaasInventory → Option DbaasPolicy → Bool
can_provision inventory none = false
can_provision inventory (some active) = elim inventory.spec.policy [
  | some p ↦ elim p.disable_provisions [ some b ↦ not b | none ↦ true ]
  | none ↦ elim active.spec.disable_provisions [ some b ↦ not b | none ↦ true ]
]

module _ {World : Type 0} (client : Client World) (lib : Library) where
  -- The namespaces that the selector adds.
  unfoldable pub select_namespaces : Option LabelSelector → Action World (Result (List String))
  select_namespaces none = pure (ok [])
  select_namespaces (some s) = elim (lib.selector_error s) [
    | some e ↦ pure (err e)
    | none ↦ read (client.list_namespaces s)
  ]

  abbrev among : List String → String → Result (List String) → Result Bool
  among namespaces namespace (err e) = err e
  among namespaces namespace (ok more) = ok (contains (namespaces ++ more) namespace)

  unfoldable pub is_valid_connection_ns :
      String → DbaasInventory → Option DbaasPolicy → Action World (Result Bool)
  unfolding select_namespaces
  is_valid_connection_ns namespace inventory active =
      let p = connection_policy inventory active in
      let namespaces = valid_namespaces p in
      if namespace == inventory.meta.namespace
      then pure (ok true)
      else if contains namespaces "*" || contains namespaces namespace
      then pure (ok true)
      else do more ← select_namespaces (valid_ns_selector p); pure (among namespaces namespace more)
