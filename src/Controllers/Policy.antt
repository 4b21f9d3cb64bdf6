-- ===== src/Controllers/Policy.antt =====
-- controllers/dbaaspolicy_controller.go and controllers/dbaasdefaultpolicy_controller.go. Metrics and
-- logging are left out.
pub mod Verdict
pub mod Active
pub mod Unique
use dbaas_operator.Prelude.{
  String, Bool, true, false, not, Option, none, some, List, [], ◌∷◌, ◌==◌, if◌then◌else◌, ◌+++◌,
}
use dbaas_operator.Kube.{ObjectKey, ObjectMeta}
use dbaas_operator.Kube.Conditions.{Condition, condition_true, condition_false, is_true}
use dbaas_operator.Kube.Errors.{Error, is_not_found, is_conflict, Result, ok, err}
use dbaas_operator.Api.V1beta1
use dbaas_operator.Api.V1beta1.{DbaasPolicy}
use dbaas_operator.Controllers.Client.{
  CtrlResult, Outcome, done, requeued, Object, policy, Call, update_status, create_or_update_quota,
  create_policy, Client, Library, Action, pure, ◌>>=◌, read, submit,
}
use dbaas_operator.Controllers.Common.Access.{get_active_policy}

abbrev pub policy_ready : Condition
policy_ready = record {
  type = V1beta1.dbaas_policy_ready_type;
  status = condition_true;
  reason = V1beta1.ready;
  message = V1beta1.msg_policy_ready;
}

abbrev pub policy_not_ready : String → Condition
policy_not_ready name = record {
  type = V1beta1.dbaas_policy_ready_type;
  status = condition_false;
  reason = V1beta1.dbaas_policy_not_ready;
  message = V1beta1.msg_policy_not_ready +++ " - " +++ name;
}

-- The condition that `Reconcile` decides on, from the active policy.
unfoldable pub verdict : Option DbaasPolicy → DbaasPolicy → Condition
verdict none p = policy_ready
verdict (some active) p =
    if not (active.meta.name == p.meta.name)
    then policy_not_ready active.meta.name
    else policy_ready

module _ {World : Type 0} (client : Client World) (lib : Library) where
  abbrev pub with_condition : DbaasPolicy → Condition → DbaasPolicy
  with_condition p c = record p {
    status = record { conditions = lib.meta.set_status_condition p.status.conditions c };
  }

  abbrev written : Option Error → Outcome
  written none = (done, none)
  written (some e) = if is_conflict e then (requeued, none) else (done, some e)

  unfoldable pub update_status_condition : DbaasPolicy → Condition → Action World Outcome
  update_status_condition p c = do
    e ← submit client (update_status (policy (with_condition p c)))
    pure (written e)

  -- From the answer of the quota's `CreateOrUpdate` on.
  unfoldable pub with_quota : DbaasPolicy → Condition → Option Error → Action World Outcome
  unfolding update_status_condition
  with_quota p c none = update_status_condition p c
  with_quota p c (some e) = pure (if is_conflict e then (requeued, some e) else (done, some e))

  -- What `Reconcile` does with the policy that it settles on.
  unfoldable pub settle : Option DbaasPolicy → DbaasPolicy → Action World Outcome
  unfolding with_quota update_status_condition
  settle active p =
      let c = verdict active p in
      if is_true c.status
      then (do e ← submit client (create_or_update_quota p); with_quota p c e)
      else update_status_condition p c

  -- The policy that is not there has been deleted: another one is taken if none is active.
  unfoldable pub deleted : List DbaasPolicy → Option DbaasPolicy → Action World Outcome
  unfolding settle
  deleted (first ∷ items) none = settle none first
  deleted _ _ = pure (done, none)

  unfoldable pub with_policy :
      List DbaasPolicy → Option DbaasPolicy → Result DbaasPolicy → Action World Outcome
  unfolding settle deleted
  with_policy items active (ok p) = settle active p
  with_policy items active (err e) =
      if is_not_found e then deleted items active else pure (done, some e)

  unfoldable pub with_policies : ObjectKey → Result (List DbaasPolicy) → Action World Outcome
  unfolding with_policy
  with_policies req (err e) = pure (done, some e)
  with_policies req (ok items) = do
    p ← read (client.get_policy req)
    with_policy items (get_active_policy lib.meta items) p

  unfoldable pub reconcile : ObjectKey → Action World Outcome
  unfolding with_policies
  reconcile req = do items ← read (client.list_policies req.namespace); with_policies req items

unfoldable pub get_default_policy : String → DbaasPolicy
get_default_policy inventory_namespace = record {
  meta = record {
    name = "cluster";
    namespace = inventory_namespace;
    labels = [];
    deletion_timestamp = none;
    owner_references = [];
  };
  spec = record {
    disable_provisions = none;
    connections = record { namespaces = some ("*" ∷ []); ns_selector = none };
  };
  status = record { conditions = [] };
}

module _ {World : Type 0} (client : Client World) (install_namespace : String) where
  abbrev pub default_policy : DbaasPolicy
  unfolding get_default_policy
  default_policy = get_default_policy install_namespace

  abbrev created : Option Error → Outcome
  created none = (done, none)
  created (some e) = (record { requeue = false; requeue_after = 30 }, some e)

  -- From the answer of `Get` on: an error other than "not found" is logged and dropped.
  unfoldable pub if_missing : Result DbaasPolicy → Action World Outcome
  if_missing (ok p) = pure (done, none)
  if_missing (err e) =
      if is_not_found e
      then (do
        e' ← submit client (create_policy (get_default_policy install_namespace))
        pure (created e'))
      else pure (done, none)

  unfoldable pub with_list : Result (List DbaasPolicy) → Action World Outcome
  unfolding if_missing
  with_list (err e) = pure (done, some e)
  with_list (ok (p ∷ items)) = pure (done, none)
  with_list (ok []) = do
    got ← read (client.get_policy (record { namespace = install_namespace; name = "cluster" }))
    if_missing got

  unfoldable pub create_default_policy : Action World Outcome
  unfolding with_list
  create_default_policy = do items ← read (client.list_policies install_namespace); with_list items
