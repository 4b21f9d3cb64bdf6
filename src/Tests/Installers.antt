-- ===== src/Tests/Installers.antt =====
-- The installers, the set-up and the fixes of the platform reconciler on the cluster of `Site`.
use dbaas_operator.Prelude.{
  String, true, false, ◌≡◌, refl, ◌⊎◌, none, List, [], ◌∷◌, arith, is_some, ◌==◌,
}
use dbaas_operator.Prelude.GoMap.{GoMap}
use dbaas_operator.Kube.{OwnerReference}
use dbaas_operator.Kube.Errors.{Error, not_found, Result, ok, err}
use dbaas_operator.Api.V1beta1.{ObservabilityConfig}
use dbaas_operator.Controllers.Objects
use dbaas_operator.Controllers.Objects.{cluster_version, platform_cr, crd, Manifest}
use dbaas_operator.Controllers.Install.{succeeded, named_meta}
use dbaas_operator.Controllers.Install.Answers.{IsStep, Extends}
use dbaas_operator.Controllers.Install.Providers
use dbaas_operator.Controllers.Install.Providers.Laws as ProviderLaws
use dbaas_operator.Controllers.Install.Providers.Progress.{after_rounds, reconcile-converges}
use dbaas_operator.Controllers.Install.Providers.Cleanup.{cleanup_calls, cleanup-succeeded}
use dbaas_operator.Controllers.Install.QuickStart
use dbaas_operator.Controllers.Install.QuickStart.Laws as QuickStartLaws
use dbaas_operator.Controllers.Install.ConsolePlugin
use dbaas_operator.Controllers.Install.ConsolePlugin.Laws as PluginLaws
use dbaas_operator.Controllers.Install.ConsolePlugin.Plugins.{
  contains_plugin, add_plugin, remove_plugin, count_plugin, remove_plugin-add_plugin,
}
use dbaas_operator.Controllers.Install.Observability
use dbaas_operator.Controllers.Install.Observability.Laws as ObservabilityLaws
use dbaas_operator.Controllers.Install.Observability.RemoteWrite.{
  configure_remote_write, set_prometheus_config, labels_of, empty_spec,
}
use dbaas_operator.Controllers.Install.Observability.Errors.{set_prometheus_config-drops_error}
use dbaas_operator.Controllers.Install.Platforms.Laws.{platforms-IsStep}
use dbaas_operator.Controllers.Upgrade.{check_conversion_webhook_health, fix_conversion_webhooks}
use dbaas_operator.Controllers.Upgrade.Laws.{DeletesStale, fix_conversion_webhooks-Extends}
use dbaas_operator.Controllers.Upgrade.SetUp.{create_platform_cr}
use dbaas_operator.Controllers.Upgrade.SetUp.Laws.{IsFirst, create_platform_cr-IsFirst}
use dbaas_operator.Controllers.Upgrade.Health.{
  all_names, verdict, check_conversion_webhook_health-verdict,
}
use dbaas_operator.Controllers.Objects.{key_of}
use dbaas_operator.Tests.Site.{Site, cr, rds, site, tools, start, site-Installed, fresh_csv-CanOwn}

abbrev monitored : ObservabilityConfig
monitored = record {
  remote_writes_url = "https://rhobs";
  auth_type = "dex";
  addon_name = "dbaas";
  rhsso_token_url = "";
  rhobs_secret_name = "dbaas-prom-remote-write";
}

abbrev unmarshal : String → Result String
unmarshal bytes = ok bytes

abbrev files : GoMap String
files = ("connecting", "spec") ∷ []

platforms-IsStep_example :
    IsStep (ProviderLaws.Installs site tools rds cr) (Providers.reconcile site tools rds cr)
    × IsStep (ProviderLaws.Removes site tools rds cr) (Providers.cleanup site tools rds cr)
    × IsStep (PluginLaws.Installs site tools rds cr) (ConsolePlugin.reconcile site tools rds cr)
    × IsStep (PluginLaws.Removes site tools rds cr) (ConsolePlugin.cleanup site tools rds cr)
    × IsStep
        (QuickStartLaws.Installs site unmarshal files)
        (QuickStart.reconcile site unmarshal files)
    × IsStep (QuickStartLaws.Removes site unmarshal files) (QuickStart.cleanup site unmarshal files)
    × IsStep
        (ObservabilityLaws.Installs site tools monitored cr)
        (Observability.reconcile site tools monitored cr)
    × IsStep
        (ObservabilityLaws.Removes site tools monitored cr)
        (Observability.cleanup site tools cr)
platforms-IsStep_example = platforms-IsStep site tools cr rds rds monitored unmarshal files

reconcile-converges_example :
    (Providers.reconcile site tools rds cr
      (after_rounds site tools rds cr (λ w. w) site-Installed 1 start)).0
    ≡ succeeded
reconcile-converges_example =
    reconcile-converges site tools rds cr (λ w. w) site-Installed 0 start fresh_csv-CanOwn

cleanup-succeeded_example :
    (w : Site) × (items : List (Manifest Objects.deployment)) × ((site.list Objects.deployment
        cr.meta.namespace w).0
      ≡ ok items)
    × ((Providers.cleanup site tools rds cr start).1.calls
        ≡ cleanup_calls site tools rds cr items start.calls)
unfolding Providers.cleanup
cleanup-succeeded_example = cleanup-succeeded site tools rds cr start refl

remove_plugin-add_plugin_example :
    (count_plugin "dbaas" (add_plugin "dbaas" ("acm" ∷ [])) ≡ 1)
    × ((other : String)
        → (other == "dbaas") ≡ false
        → count_plugin other (add_plugin "dbaas" ("acm" ∷ [])) ≡ count_plugin other ("acm" ∷ []))
    × (contains_plugin "dbaas" ("acm" ∷ []) ≡ false
        → remove_plugin "dbaas" (add_plugin "dbaas" ("acm" ∷ [])) ≡ "acm" ∷ [])
remove_plugin-add_plugin_example = remove_plugin-add_plugin "dbaas" ("acm" ∷ []) (omega arith)

abbrev version : Manifest cluster_version
version = record { meta = named_meta "" "version"; annotations = []; body = "1234" }

set_prometheus_config-drops_error_example :
    let (spec, e) = (configure_remote_write site monitored "team" start.world).0 in
    let r = (set_prometheus_config site monitored "team" start.world).0 in
    (r ≡ (
      record {
        replicas = 1;
        external_labels = labels_of site monitored version.body;
        remote_write = spec ∷ [];
      },
      none,
    ))
    × (is_some e ≡ true → r.0.remote_write ≡ empty_spec ∷ [])
    × ((spec ≡ empty_spec) ⊎ (spec.url ≡ "https://rhobs"))
set_prometheus_config-drops_error_example =
    set_prometheus_config-drops_error site monitored "team" start.world version refl

fix_conversion_webhooks-Extends_example :
    Extends
      (DeletesStale site "openshift-operators" "dbaas-operator.v0.4.0" start)
      start.calls
      (fix_conversion_webhooks site "openshift-operators" "dbaas-operator.v0.4.0" start).1.calls
fix_conversion_webhooks-Extends_example =
    fix_conversion_webhooks-Extends site "openshift-operators" "dbaas-operator.v0.4.0" start

abbrev trim_space : String → String
trim_space s = s

abbrev own : Manifest Objects.csv → List OwnerReference → Result (List OwnerReference)
own owner refs = ok refs

create_platform_cr-IsFirst_example :
    let create = create_platform_cr site "openshift-operators" "dbaas-operator" trim_space own in
    Extends
      (IsFirst site "openshift-operators" "dbaas-operator" trim_space own start.world)
      start.calls
      (create start).1.calls
    × ((cr : Manifest platform_cr)
        → (site.list platform_cr "openshift-operators" start.world).0 ≡ ok (cr ∷ [])
        → (create start).0 ≡ ok cr)
    × ((a b : Manifest platform_cr) (more : List (Manifest platform_cr))
        → (site.list platform_cr "openshift-operators" start.world).0 ≡ ok (a ∷ b ∷ more)
        → (e : Error) × ((create start).0 ≡ err e))
create_platform_cr-IsFirst_example =
    create_platform_cr-IsFirst site "openshift-operators" "dbaas-operator" trim_space own start

-- No CRD is there.
abbrev no_crd : Site → String → Result (Manifest crd)
no_crd w name = err (not_found name)

check_conversion_webhook_health-verdict_example :
    check_conversion_webhook_health site "openshift-operators" "dbaas-operator"
      (("dbaasproviders" ∷ []) ∷ [])
      start
    ≡ (verdict (no_crd start.world) (all_names (("dbaasproviders" ∷ []) ∷ [])), start)
check_conversion_webhook_health-verdict_example =
    check_conversion_webhook_health-verdict site "openshift-operators" "dbaas-operator" no_crd
      (λ w name. refl) (("dbaasproviders" ∷ []) ∷ []) start
