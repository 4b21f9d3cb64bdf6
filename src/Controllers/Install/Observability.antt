-- ===== src/Controllers/Install/Observability.antt =====
-- controllers/reconcilers/observability/observability_operator_reconciler.go. `NewReconciler` leaves
-- the field `config` of the reconciler empty, so that its name is "".
pub mod RemoteWrite
pub mod Laws
pub mod Errors
use dbaas_operator.Prelude.{
  String, Bool, true, ◌&&◌, Option, none, some, [], ◌∷◌, non_empty, if◌then◌else◌,
}
use dbaas_operator.Prelude.GoMap.{GoMap}
use dbaas_operator.Kube.Errors.{Error, is_not_found, Result, ok, err}
use dbaas_operator.Api.V1beta1.{ObservabilityConfig, DbaasPlatform}
use dbaas_operator.Controllers.Objects.{
  subscription, csv, monitoring_stack, service_monitor, PrometheusConfig, Manifest, key_of,
}
use dbaas_operator.Controllers.Client
use dbaas_operator.Controllers.Client.{Action, pure, ◌>>=◌, read}
use dbaas_operator.Controllers.Install.{
  ObjectClient, Toolkit, Answer, succeeded, failed, conflict_waits, named_meta, named_key,
  followed_by, apply, delete_object, unless_failed, after_delete,
}
use dbaas_operator.Controllers.Install.Observability.RemoteWrite.{set_prometheus_config}

-- `setExporterLables`
abbrev pub exporter_labels : GoMap String
exporter_labels = ("app", "dbaas-prometheus") ∷ []

abbrev pub default_monitoring_stack : String → Manifest monitoring_stack
default_monitoring_stack namespace = record {
  meta = named_meta namespace "dbaas-operator-mso";
  annotations = [];
  body = record { log_level = ""; resource_selector = []; prometheus_config = none };
}

abbrev pub default_service_monitor : String → Manifest service_monitor
default_service_monitor namespace = record {
  meta = record (named_meta namespace "dbaas-operator-service-monitor") {
    labels = exporter_labels;
  };
  annotations = [];
  body = record {
    interval = "30s";
    path = "/metrics";
    port = "metrics";
    scheme = "http";
    selector = exporter_labels;
  };
}

module _ (tools : Toolkit) where
  -- `controllerutil.SetControllerReference`, on an object of either kind.
  abbrev pub own_stack :
      DbaasPlatform → Manifest monitoring_stack → Result (Manifest monitoring_stack)
  own_stack cr object = elim (tools.set_controller_reference cr object.meta.owner_references) [
    | err e ↦ err e
    | ok refs ↦ ok (record object { meta = record object.meta { owner_references = refs } })
  ]

  unfoldable pub own_monitor :
      DbaasPlatform → Manifest service_monitor → Result (Manifest service_monitor)
  own_monitor cr object = elim (tools.set_controller_reference cr object.meta.owner_references) [
    | err e ↦ err e
    | ok refs ↦ ok (record object { meta = record object.meta { owner_references = refs } })
  ]

-- The stack as the code sets it, with the configuration of Prometheus or none.
abbrev pub stack_with :
    Option PrometheusConfig → Manifest monitoring_stack → Manifest monitoring_stack
stack_with prometheus object = record object {
  meta = record object.meta { labels = ("managed-by", "dbaas-operator") ∷ [] };
  body = record {
    log_level = "debug";
    resource_selector = exporter_labels;
    prometheus_config = prometheus;
  };
}

abbrev pub writes_remotely : ObservabilityConfig → Bool
writes_remotely config =
    non_empty config.remote_writes_url && non_empty config.auth_type && non_empty config.addon_name

module _ {World : Type 0} (client : ObjectClient World) (tools : Toolkit) where
  -- What `CreateOrUpdate` does to the stack. The error of `setPrometheusConfig` is dropped.
  unfoldable pub mutate_stack :
      ObservabilityConfig
      → DbaasPlatform
      → Manifest monitoring_stack
      → World
      → Result (Manifest monitoring_stack) × World
  mutate_stack config cr object w =
      if writes_remotely config
      then (let ((prometheus, e), w') =
            set_prometheus_config client config object.meta.namespace w in
          (own_stack tools cr (stack_with (some prometheus) object), w'))
      else (own_stack tools cr (stack_with none object), w)

  unfoldable pub clean_obs_old_subscription : DbaasPlatform → Action World Answer
  clean_obs_old_subscription cr =
      after_delete client subscription (named_key cr.meta.namespace "-subscription") (
        after_delete client csv (named_key cr.meta.namespace "observability-operator.v0.0.13")
          (pure succeeded))

  unfoldable pub create_update_monitoring_stack :
      ObservabilityConfig → DbaasPlatform → Action World Answer
  unfolding mutate_stack
  create_update_monitoring_stack config cr = do
    e ←
        apply client monitoring_stack (default_monitoring_stack cr.meta.namespace)
          (mutate_stack config cr)
    pure (conflict_waits e)

  unfoldable pub create_service_monitor : DbaasPlatform → Action World Answer
  unfolding own_monitor
  create_service_monitor cr = do
    e ←
        apply client service_monitor (default_service_monitor cr.meta.namespace)
          (λ object w. (own_monitor tools cr object, w))
    pure (conflict_waits e)

  -- From the answer of `Get` of the observability operator's subscription on.
  abbrev pub with_subscription :
      ObservabilityConfig → DbaasPlatform → Result (Manifest subscription) → Action World Answer
  with_subscription config cr (err e) s = ((if is_not_found e then succeeded else failed e), s)
  with_subscription config cr (ok found) s =
      followed_by (create_update_monitoring_stack config cr)
        (followed_by (create_service_monitor cr) (pure succeeded)) s

  -- From `Get` of the observability operator's subscription on.
  unfoldable pub if_installed : ObservabilityConfig → DbaasPlatform → Action World Answer
  unfolding create_update_monitoring_stack create_service_monitor
  if_installed config cr = do
    found ← read (
        client.get subscription
          (named_key "openshift-observability-operator" "observability-operator"))
    with_subscription config cr found

  unfoldable pub reconcile : ObservabilityConfig → DbaasPlatform → Action World Answer
  unfolding clean_obs_old_subscription if_installed
  reconcile config cr = followed_by (clean_obs_old_subscription cr) (if_installed config cr)

  unfoldable pub cleanup : DbaasPlatform → Action World Answer
  cleanup cr =
      after_delete client monitoring_stack
        (key_of (default_monitoring_stack cr.meta.namespace).meta)
        (after_delete client service_monitor
          (key_of (default_service_monitor cr.meta.namespace).meta) (pure succeeded))
