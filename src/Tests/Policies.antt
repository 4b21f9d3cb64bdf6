-- ===== src/Tests/Policies.antt =====
-- The reconciliation of policies on the cluster of `Cluster`.
use dbaas_operator.Prelude.{◌≡◌, ◌↔◌, ◌⊎◌, refl, true, List, [], ◌∷◌, arith, String, if◌then◌else◌}
use dbaas_operator.Kube.Conditions.{is_true}
use dbaas_operator.Kube.Errors.{ok, err, not_found}
use dbaas_operator.Api.V1beta1.{DbaasPolicy}
use dbaas_operator.Controllers.Client.{policy, update_status, create_or_update_quota, create_policy}
use dbaas_operator.Controllers.Common.Access.{get_active_policy}
use dbaas_operator.Controllers.Policy.{
  verdict, with_condition, reconcile, get_default_policy, create_default_policy,
}
use dbaas_operator.Controllers.Policy.Active.{AtMostOneActive, OnlyActive}
use dbaas_operator.Controllers.Policy.Unique.{reconcile_keeps_Unique}
use dbaas_operator.Controllers.Policy.Verdict.{IsFree, reconcile_verdict, create_default_policy_iff}
use dbaas_operator.Tests.Conditions.{meta, meta_laws}
use dbaas_operator.Tests.Objects.{key_of, active_policy, other_policy}
use dbaas_operator.Tests.Cluster.{client, library, store, start}

abbrev two_policies : List DbaasPolicy
two_policies = active_policy ∷ other_policy ∷ []

one_is_active : AtMostOneActive meta two_policies
unfolding AtMostOneActive OnlyActive
one_is_active = ("first", ((λ t. refl), ((λ t. absurd (ground arith)), tt)))

reconcile_keeps_Unique_example :
    AtMostOneActive meta
      (reconcile client library (key_of "team" "second") (start two_policies)).1.world
reconcile_keeps_Unique_example =
    reconcile_keeps_Unique client library meta_laws "team" (λ w. w) store (key_of "team" "second")
      (start two_policies) refl one_is_active

reconcile_verdict_example :
    let c = verdict (get_active_policy meta two_policies) other_policy in
    ((is_true c.status ≡ true) ↔ IsFree (get_active_policy meta two_policies) other_policy)
    × ((reconcile client library (key_of "team" "second") (start two_policies)).1.calls
        ≡ update_status (policy (with_condition client library other_policy c))
          ∷ (if is_true c.status then create_or_update_quota other_policy ∷ [] else []))
reconcile_verdict_example =
    reconcile_verdict client library (key_of "team" "second") (start two_policies) two_policies
      other_policy refl refl refl

create_default_policy_iff_example :
    let run = create_default_policy client "team" (start []) in
    let got = client.get_policy (key_of "team" "cluster") [] in
    ((run.1.calls ≡ create_policy (get_default_policy "team") ∷ []) ↔ (
      ((client.list_policies "team" []).0 ≡ ok []) × ((m : String) × (got.0 ≡ err (not_found m)))))
    × ((run.1.calls ≡ []) ⊎ (run.1.calls ≡ create_policy (get_default_policy "team") ∷ []))
create_default_policy_iff_example = create_default_policy_iff client library "team" []
