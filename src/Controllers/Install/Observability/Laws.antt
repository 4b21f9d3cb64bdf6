-- ===== src/Controllers/Install/Observability/Laws.antt =====
-- What the installation of the observability objects writes.
use dbaas_operator.Prelude.{◌≡◌, refl, arith}
use dbaas_operator.Kube.Errors.{Result, ok, err}
use dbaas_operator.Api.V1beta1.{ObservabilityConfig, DbaasPlatform}
use dbaas_operator.Controllers.Objects.{
  subscription, csv, monitoring_stack, service_monitor, Manifest, key_of, applied, deleted,
}
use dbaas_operator.Controllers.Client.{Call, change}
use dbaas_operator.Controllers.Install.{ObjectClient, Toolkit, named_key}
use dbaas_operator.Controllers.Install.Answers.{
  conflict_waits-proper, IsStep, kept, wrote, succeeded-IsStep, followed_by-IsStep,
  after_delete-IsStep,
}
use dbaas_operator.Controllers.Install.Observability.{
  clean_obs_old_subscription, create_update_monitoring_stack, create_service_monitor,
  with_subscription, if_installed, reconcile, cleanup,
}

module _ {World : Type 0} (client : ObjectClient World) (tools : Toolkit)
    (config : ObservabilityConfig) (cr : DbaasPlatform) where
  -- The calls of `Reconcile` and of `Cleanup`. The subscription that is deleted is not that of the
  -- observability platform, whose name is "observability-subscription".
  abbrev pub Installs : Call → Type 0
  Installs (change (deleted subscription key)) = key ≡ named_key cr.meta.namespace "-subscription"
  Installs (change (deleted csv key)) =
      key ≡ named_key cr.meta.namespace "observability-operator.v0.0.13"
  Installs (change (applied monitoring_stack object)) =
      key_of object.meta ≡ named_key cr.meta.namespace "dbaas-operator-mso"
  Installs (change (applied service_monitor object)) =
      key_of object.meta ≡ named_key cr.meta.namespace "dbaas-operator-service-monitor"
  Installs _ = ⊥

  abbrev pub Removes : Call → Type 0
  Removes (change (deleted monitoring_stack key)) =
      key ≡ named_key cr.meta.namespace "dbaas-operator-mso"
  Removes (change (deleted service_monitor key)) =
      key ≡ named_key cr.meta.namespace "dbaas-operator-service-monitor"
  Removes _ = ⊥

  clean-IsStep : IsStep Installs (clean_obs_old_subscription client tools cr)
  unfolding clean_obs_old_subscription
  clean-IsStep =
      after_delete-IsStep client subscription _ _ refl
        (after_delete-IsStep client csv _ _ refl succeeded-IsStep)

  stack-IsStep : IsStep Installs (create_update_monitoring_stack client tools config cr)
  unfolding create_update_monitoring_stack
  stack-IsStep s = wrote (conflict_waits-proper _) refl

  monitor-IsStep : IsStep Installs (create_service_monitor client tools cr)
  unfolding create_service_monitor
  monitor-IsStep s = wrote (conflict_waits-proper _) refl

  with_subscription-IsStep :
      (r : Result (Manifest subscription))
      → IsStep Installs (with_subscription client tools config cr r)
  with_subscription-IsStep (err e) s = kept (ground arith)
  with_subscription-IsStep (ok found) s =
      followed_by-IsStep (create_update_monitoring_stack client tools config cr) _ stack-IsStep
        (followed_by-IsStep (create_service_monitor client tools cr) _ monitor-IsStep
          succeeded-IsStep)
        s

  if_installed-IsStep : IsStep Installs (if_installed client tools config cr)
  unfolding if_installed
  if_installed-IsStep s = with_subscription-IsStep _ _

  pub reconcile-IsStep : IsStep Installs (reconcile client tools config cr)
  unfolding reconcile
  reconcile-IsStep =
      followed_by-IsStep (clean_obs_old_subscription client tools cr) _ clean-IsStep
        if_installed-IsStep

  pub cleanup-IsStep : IsStep Removes (cleanup client tools cr)
  unfolding cleanup
  cleanup-IsStep =
      after_delete-IsStep client monitoring_stack _ _ refl
        (after_delete-IsStep client service_monitor _ _ refl succeeded-IsStep)
