-- ===== src/Controllers/Install/Platforms.antt =====
-- The reconcilers that `getReconcilerForPlatform` of controllers/dbaasplatform_controller.go makes,
-- and `InstallationPlatforms` of controllers/reconcilers/constants.go.
pub mod Laws
use dbaas_operator.Prelude.{String, Option, none, some, [], ◌∷◌, ◌==◌, if◌then◌else◌}
use dbaas_operator.Prelude.GoMap.{GoMap}
use dbaas_operator.Kube.Errors.{Error, Result, ok, err}
use dbaas_operator.Api.V1beta1
use dbaas_operator.Api.V1beta1.{
  PlatformInstlnStatus, PlatformConfig, ObservabilityConfig, DbaasPlatform,
}
use dbaas_operator.Controllers.Client
use dbaas_operator.Controllers.Client.{Action}
use dbaas_operator.Controllers.Platform.{PlatformReconciler, NewReconciler}
use dbaas_operator.Controllers.Install.{ObjectClient, Toolkit, Answer}
use dbaas_operator.Controllers.Install.Providers
use dbaas_operator.Controllers.Install.QuickStart
use dbaas_operator.Controllers.Install.ConsolePlugin
use dbaas_operator.Controllers.Install.Observability

-- The loop of `getEnvVarValue`: the first variable of that name.
unfoldable pub get_env_var_value : String → GoMap String → String
get_env_var_value name [] = ""
get_env_var_value name ((k, v) ∷ env) =
    let rest = get_env_var_value name env in if k == name then v else rest

-- `fetchEnvValue`, with `os.LookupEnv` and the variables of the embedded deployment as arguments.
unfoldable pub fetch_env_value : (String → Option String) → Result (GoMap String) → String → String
unfolding get_env_var_value
fetch_env_value lookup_env embedded name = elim (lookup_env name) [
  | some value ↦ value
  | none ↦ elim embedded [ err e ↦ "" | ok env ↦ get_env_var_value name env ]
]

-- `InstallationPlatforms`, `fetch` being `fetchEnvValue`.
unfoldable pub installation_platforms : (String → String) → GoMap PlatformConfig
installation_platforms fetch =
    (
      "dbaas-dynamic-plugin",
      record {
        name = "dbaas-dynamic-plugin";
        csv = fetch "CSV_VERSION_DBAAS_DYNAMIC_PLUGIN";
        deployment_name = "";
        image = fetch "RELATED_IMAGE_DBAAS_DYNAMIC_PLUGIN";
        package_name = "";
        channel = "";
        display_name = "OpenShift Database as a Service Dynamic Plugin";
        envs = [];
        type = V1beta1.type_console_plugin;
      },
    )
    ∷ (
      "crunchy-bridge",
      record {
        name = "crunchy-bridge";
        csv = fetch "CSV_VERSION_CRUNCHY_BRIDGE";
        deployment_name = "crunchy-bridge-operator-controller-manager";
        image = fetch "RELATED_IMAGE_CRUNCHY_BRIDGE_CATALOG";
        package_name = "crunchy-bridge-operator";
        channel = "alpha";
        display_name = "Crunchy Bridge Operator";
        envs = [];
        type = V1beta1.type_operator;
      },
    )
    ∷ (
      "cockroachdb-cloud",
      record {
        name = "ccapi-k8s";
        csv = fetch "CSV_VERSION_COCKROACHDB";
        deployment_name = "ccapi-k8s-operator-controller-manager";
        image = fetch "RELATED_IMAGE_COCKROACHDB_CATALOG";
        package_name = "ccapi-k8s-operator";
        channel = "alpha";
        display_name = "CockroachDB Cloud Operator";
        envs = [];
        type = V1beta1.type_operator;
      },
    )
    ∷ (
      "dbaas-quick-starts",
      record {
        name = "";
        csv = "dbaas-quick-starts:0.6.0";
        deployment_name = "";
        image = "";
        package_name = "";
        channel = "";
        display_name = "";
        envs = [];
        type = V1beta1.type_quick_start;
      },
    )
    ∷ (
      "rds-provider",
      record {
        name = "rds-provider";
        csv = fetch "CSV_VERSION_RDS_PROVIDER";
        deployment_name = "rds-dbaas-operator-controller-manager";
        image = fetch "RELATED_IMAGE_RDS_PROVIDER_CATALOG";
        package_name = "rds-dbaas-operator";
        channel = "alpha";
        display_name = "OpenShift Database Access Provider Operator for Amazon RDS";
        envs = [];
        type = V1beta1.type_operator;
      },
    )
    ∷ (
      "observability",
      record {
        name = "observability";
        csv = "";
        deployment_name = "";
        image = "";
        package_name = "";
        channel = "";
        display_name = "Observability Operator";
        envs = [];
        type = V1beta1.type_observability;
      },
    )
    ∷ []

-- An answer as the platform reconciler reads it, which looks at the error first.
abbrev pub result_of : Answer → Result PlatformInstlnStatus
result_of (status, none) = ok status
result_of (status, some e) = err e

module _ {World : Type 0} where
  -- A run of a reconciler, from an empty log.
  abbrev pub run_from : Action World Answer → World → Result PlatformInstlnStatus × World
  run_from action w =
      let (a, s) = action (record { world = w; calls = [] }) in (result_of a, s.world)

  abbrev pub reconciler_of :
      (DbaasPlatform → Action World Answer)
      → (DbaasPlatform → Action World Answer)
      → PlatformReconciler World
  reconciler_of reconcile cleanup = record {
    reconcile = λ cr. run_from (reconcile cr);
    cleanup = λ cr. run_from (cleanup cr);
  }

  module _ (client : ObjectClient World) (tools : Toolkit) (config : ObservabilityConfig)
      (unmarshal : String → Result String) (quick_starts : GoMap String) where
    abbrev pub provider_reconciler : PlatformConfig → PlatformReconciler World
    provider_reconciler platform =
        reconciler_of (Providers.reconcile client tools platform)
          (Providers.cleanup client tools platform)

    abbrev pub plugin_reconciler : PlatformConfig → PlatformReconciler World
    plugin_reconciler platform =
        reconciler_of (ConsolePlugin.reconcile client tools platform)
          (ConsolePlugin.cleanup client tools platform)

    abbrev pub quick_start_reconciler : PlatformReconciler World
    quick_start_reconciler =
        reconciler_of (λ cr. QuickStart.reconcile client unmarshal quick_starts)
          (λ cr. QuickStart.cleanup client unmarshal quick_starts)

    abbrev pub observability_reconciler : PlatformReconciler World
    observability_reconciler =
        reconciler_of (Observability.reconcile client tools config)
          (Observability.cleanup client tools)

    abbrev pub operator_reconcilers : NewReconciler World
    operator_reconcilers = record {
      providers_installation = provider_reconciler;
      console_plugin = plugin_reconciler;
      quick_start_installation = quick_start_reconciler;
      observability = observability_reconciler;
    }
