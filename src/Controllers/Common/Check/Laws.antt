-- ===== src/Controllers/Common/Check/Laws.antt =====
-- What a check of the inventory has established when it lets an object through, and what it writes.
use dbaas_operator.Prelude.{
  ◌≡◌, ◌↔◌, ◌⊎◌, inl, inr, Bool, true, false, Option, none, some, List, ◌∷◌, arith,
}
use dbaas_operator.Kube.Conditions.{Condition}
use dbaas_operator.Kube.Errors.{Result, Result-cases, ok}
use dbaas_operator.Api.V1beta1
use dbaas_operator.Api.V1beta1.{NamespacedName, DbaasInventory, DbaasPolicy}
use dbaas_operator.Convert.Instance.{ref_key}
use dbaas_operator.Controllers.Client.{update_status, Client, Library, Run}
use dbaas_operator.Controllers.Common.Access.{
  get_active_policy, can_provision, is_valid_connection_ns,
}
use dbaas_operator.Controllers.Common.Access.Laws.{
  IsAllowed, is_valid_connection_ns_iff, is_valid_connection_ns_calls,
}
use dbaas_operator.Controllers.Common.Check.{Subject, Checked, not_ready, check_inventory}

module _ {World Obj : Type 0} (client : Client World) (lib : Library) (subject : Subject Obj)
    (ref : NamespacedName) (obj : Obj) (s : Run World) where
  abbrev pub checked : Checked Obj
  checked = (check_inventory client lib subject ref obj s).0

  abbrev pub got_inventory : Result DbaasInventory × World
  got_inventory = client.get_inventory (ref_key ref) s.world

  abbrev pub got_policies : DbaasInventory → Result (List DbaasPolicy) × World
  got_policies i = client.list_policies i.meta.namespace got_inventory.1

  -- The state in which the object's namespace is checked.
  abbrev pub later : DbaasInventory → Run World
  later i = record { world = (got_policies i).1; calls = s.calls }

  abbrev pub answer : DbaasInventory → List DbaasPolicy → Result Bool
  answer i policies =
      (is_valid_connection_ns client lib (subject.namespace_of obj) i
        (get_active_policy lib.meta policies) (later i)).0

  abbrev pub ready_condition : DbaasInventory → Option Condition
  ready_condition i =
      lib.meta.find_status_condition i.status.conditions V1beta1.dbaas_inventory_ready_type

  -- An object that is let through, with no error and a valid namespace: its inventory was read and
  -- is ready, and so were the policies of the inventory's namespace; the object's namespace is
  -- allowed, and an instance has the right to provision.
  pub record LetThrough : Type 0 where
    pub inventory : DbaasInventory
    pub found : got_inventory.0 ≡ ok inventory
    pub policies : List DbaasPolicy
    pub listed_policies : (got_policies inventory).0 ≡ ok policies
    pub allowed :
        IsAllowed client lib
          (subject.namespace_of obj)
          inventory
          (get_active_policy lib.meta policies)
          (later inventory)
    pub ready : not_ready (ready_condition inventory) ≡ false
    pub provisions :
        subject.is_instance ≡ true
        → can_provision inventory (get_active_policy lib.meta policies) ≡ true

  module _ (i : DbaasInventory) (policies : List DbaasPolicy) (found : got_inventory.0 ≡ ok i)
      (listed_policies : (got_policies i).0 ≡ ok policies) where
    decided :
        (b : Bool)
        → answer i policies ≡ ok b
        → checked.error ≡ none
        → checked.valid_ns ≡ true
        → (b ≡ true)
          × (not_ready (ready_condition i) ≡ false)
          × (subject.is_instance ≡ true
              → can_provision i (get_active_policy lib.meta policies) ≡ true)
    unfolding check_inventory
    decided true q e v = ground arith
    decided false q e v = ground arith

  let_through : checked.error ≡ none → checked.valid_ns ≡ true → LetThrough
  unfolding check_inventory
  let_through e v = elim (Result-cases got_inventory.0) [
    | inr (u, q) ↦ absurd (ground arith)
    | inl (i, found) ↦ elim (Result-cases (got_policies i).0) [
      | inr (u, q) ↦ absurd (ground arith)
      | inl (policies, listed_policies) ↦ elim (Result-cases (answer i policies)) [
        | inr (u, q) ↦ absurd (ground arith)
        | inl (b, q) ↦
            let (valid, ready, provisions) = decided i policies found listed_policies b q e v in
            record {
              inventory = i;
              found = found;
              policies = policies;
              listed_policies = listed_policies;
              allowed = (is_valid_connection_ns_iff client lib _ i _ (later i)).0 (rw valid at q);
              ready = ready;
              provisions = provisions;
            }
      ]
    ]
  ]

  passed : LetThrough → (checked.error ≡ none) × (checked.valid_ns ≡ true)
  unfolding check_inventory
  passed l =
      let active = get_active_policy lib.meta l.policies in
      let valid =
        (is_valid_connection_ns_iff client lib (subject.namespace_of obj) l.inventory active
            (later l.inventory)).1
          l.allowed in
      ground (
        arith,
        l.found,
        l.listed_policies,
        l.ready,
        valid,
        λ (h : subject.is_instance ≡ true). l.provisions h,
      )

  -- A check of an inventory lets an object through exactly if the inventory and the policies of its
  -- namespace were read, the object's namespace is allowed, the inventory is ready, and an instance
  -- has the right to provision.
  pub check_inventory_iff : ((checked.error ≡ none) × (checked.valid_ns ≡ true)) ↔ LetThrough
  check_inventory_iff = ((λ h. let_through h.0 h.1), passed)

  -- An object that is let through is left as it is and nothing is written; the result has its
  -- inventory, and whether the policies allow provisioning.
  pub check_inventory_passes :
      (l : LetThrough)
      → (checked ≡ record {
        object = obj;
        inventory = some l.inventory;
        valid_ns = true;
        provision = can_provision l.inventory (get_active_policy lib.meta l.policies);
        error = none;
      })
        × ((check_inventory client lib subject ref obj s).1.calls ≡ s.calls)
  unfolding check_inventory
  check_inventory_passes l =
      let active = get_active_policy lib.meta l.policies in
      let ns = subject.namespace_of obj in
      let st = later l.inventory in
      ground (
        arith,
        l.found,
        l.listed_policies,
        l.ready,
        (is_valid_connection_ns_iff client lib ns l.inventory active st).1 l.allowed,
        is_valid_connection_ns_calls client lib ns l.inventory active st,
        λ (h : subject.is_instance ≡ true). l.provisions h,
      )

  -- Whatever the check finds, it writes nothing but the status of the object, at most once, as
  -- `statusErrorFn` left it.
  pub check_inventory_calls :
      ((check_inventory client lib subject ref obj s).1.calls ≡ s.calls)
      ⊎ ((check_inventory client lib subject ref obj s).1.calls
          ≡ update_status (subject.object_of checked.object) ∷ s.calls)
  unfolding check_inventory is_valid_connection_ns
  check_inventory_calls = ground arith
