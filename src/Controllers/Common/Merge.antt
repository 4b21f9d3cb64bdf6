-- ===== src/Controllers/Common/Merge.antt =====
-- What the functions `mergeInventoryStatus`, `mergeConnectionStatus` and `mergeInstanceStatus`
-- share: the ready condition that a provider's sync condition gives.
use dbaas_operator.Prelude.{String, ◌≡◌, Option, if◌then◌else◌, arith}
use dbaas_operator.Kube.Conditions.{Condition, condition_true, condition_false, is_true, has_true}
use dbaas_operator.Api.V1beta1

unfoldable pub ready_from_sync : String → Option Condition → Condition
ready_from_sync ready_type spec_sync =
    if has_true spec_sync
    then record {
      type = ready_type;
      status = condition_true;
      reason = V1beta1.ready;
      message = V1beta1.msg_provider_cr_status_sync_done;
    }
    else record {
      type = ready_type;
      status = condition_false;
      reason = V1beta1.provider_reconcile_inprogress;
      message = V1beta1.msg_provider_cr_reconcile_in_progress;
    }

pub ready_from_sync-type :
    (ready_type : String) (c : Option Condition) → (ready_from_sync ready_type c).type ≡ ready_type
unfolding ready_from_sync
ready_from_sync-type ready_type c = ground arith

pub ready_from_sync-is_true :
    (ready_type : String) (c : Option Condition)
    → is_true (ready_from_sync ready_type c).status ≡ has_true c
unfolding ready_from_sync
ready_from_sync-is_true ready_type c = ground arith
