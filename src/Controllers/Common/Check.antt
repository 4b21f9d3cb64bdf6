-- ===== src/Controllers/Common/Check.antt =====
-- `checkInventory`.
pub mod Laws
use dbaas_operator.Prelude.{
  String, Bool, true, false, not, ◌&&◌, Option, none, some, List, if◌then◌else◌, ◌+++◌,
}
use dbaas_operator.Kube.{ObjectKey}
use dbaas_operator.Kube.Conditions.{Condition, is_false}
use dbaas_operator.Kube.Errors.{Error, other, message, is_not_found, Result, ok, err}
use dbaas_operator.Api.V1beta1
use dbaas_operator.Api.V1beta1.{NamespacedName, DbaasInventory, DbaasPolicy}
use dbaas_operator.Convert.Instance.{ref_key}
use dbaas_operator.Controllers.Client.{
  Object, Call, update_status, Client, Library, Action, pure, ◌>>=◌, read, submit,
}
use dbaas_operator.Controllers.Common.Access.{
  get_active_policy, can_provision, is_valid_connection_ns,
}

-- The object that asks for an inventory: a connection or an instance.
pub record Subject (Obj : Type 0) : Type 0 where
  pub object_of : Obj → Object
  pub namespace_of : Obj → String
  -- `statusErrorFn`, on a reason and a message
  pub status_error : Obj → String → String → Obj
  -- `reflect.TypeOf(DBaaSObject) == reflect.TypeOf(&v1beta1.DBaaSInstance{})`
  pub is_instance : Bool

-- The named results, and the object as `statusErrorFn` left it. `inventory` is none where it was
-- not read.
pub record Checked (Obj : Type 0) : Type 0 where
  pub object : Obj
  pub inventory : Option DbaasInventory
  pub valid_ns : Bool
  pub provision : Bool
  pub error : Option Error

-- `invCond == nil || invCond.Status == metav1.ConditionFalse`
abbrev pub not_ready : Option Condition → Bool
not_ready none = true
not_ready (some c) = is_false c.status

-- `%v` of a reference
abbrev pub show_ref : NamespacedName → String
show_ref r = "{" +++ r.namespace +++ " " +++ r.name +++ "}"

module _ {World Obj : Type 0} (client : Client World) (lib : Library) (subject : Subject Obj) where
  -- An error in writing the status is logged and dropped.
  unfoldable pub report : Checked Obj → Action World (Checked Obj)
  report c = do e ← submit client (update_status (subject.object_of c.object)); pure c

  -- From the answer of `isValidConnectionNS` on.
  unfoldable pub decide :
      NamespacedName → Obj → DbaasInventory → Bool → Result Bool → Action World (Checked Obj)
  unfolding report
  decide ref obj inventory provision (err e) = pure (record {
    object = obj;
    inventory = some inventory;
    valid_ns = false;
    provision = provision;
    error = some e;
  })
  decide ref obj inventory provision (ok false) = report (record {
    object = subject.status_error obj V1beta1.dbaas_invalid_namespace V1beta1.msg_invalid_namespace;
    inventory = some inventory;
    valid_ns = false;
    provision = provision;
    error = none;
  })
  decide ref obj inventory provision (ok true) =
      let cond =
        lib.meta.find_status_condition inventory.status.conditions
          V1beta1.dbaas_inventory_ready_type in
      if not_ready cond
      then report (record {
        object =
            subject.status_error obj V1beta1.dbaas_inventory_not_ready
              V1beta1.msg_inventory_not_ready;
        inventory = some inventory;
        valid_ns = true;
        provision = provision;
        error = some (other ("inventory " +++ show_ref ref +++ " is not ready"));
      })
      else if not provision && subject.is_instance
      then report (record {
        object =
            subject.status_error obj V1beta1.dbaas_inventory_not_provisionable
              V1beta1.msg_inventory_not_provisionable;
        inventory = some inventory;
        valid_ns = true;
        provision = provision;
        error = some (other ("inventory " +++ show_ref ref +++ " provisioning is disabled"));
      })
      else pure (record {
        object = obj;
        inventory = some inventory;
        valid_ns = true;
        provision = provision;
        error = none;
      })

  abbrev pub not_read : Obj → Error → Checked Obj
  not_read obj e = record {
    object = obj;
    inventory = none;
    valid_ns = false;
    provision = false;
    error = some e;
  }

  -- An error in reading the inventory, which is reported if the inventory is not there.
  unfoldable pub unread : Obj → Error → Action World (Checked Obj)
  unfolding report
  unread obj e =
      if is_not_found e
      then report
          (not_read (subject.status_error obj V1beta1.dbaas_inventory_not_found (message e)) e)
      else pure (not_read obj e)

  -- From the answer of `policyListByNS` on.
  unfoldable pub with_policies :
      NamespacedName → Obj → DbaasInventory → Result (List DbaasPolicy) → Action World (Checked Obj)
  unfolding decide
  with_policies ref obj inventory (err e) = pure (record {
    object = obj;
    inventory = some inventory;
    valid_ns = false;
    provision = false;
    error = some e;
  })
  with_policies ref obj inventory (ok policies) =
      let active = get_active_policy lib.meta policies in
      let provision = can_provision inventory active in
      do
        valid ← is_valid_connection_ns client lib (subject.namespace_of obj) inventory active
        decide ref obj inventory provision valid

  unfoldable pub with_inventory :
      NamespacedName → Obj → Result DbaasInventory → Action World (Checked Obj)
  unfolding unread with_policies
  with_inventory ref obj (err e) = unread obj e
  with_inventory ref obj (ok inventory) = do
    policies ← read (client.list_policies inventory.meta.namespace)
    with_policies ref obj inventory policies

  unfoldable pub check_inventory : NamespacedName → Obj → Action World (Checked Obj)
  unfolding with_inventory
  check_inventory ref obj = do
    inventory ← read (client.get_inventory (ref_key ref))
    with_inventory ref obj inventory
