-- ===== src/Controllers/Install/Platforms/Laws.antt =====
-- The reconcilers of the platforms together.
use dbaas_operator.Prelude.{String}
use dbaas_operator.Prelude.GoMap.{GoMap}
use dbaas_operator.Kube.Errors.{Result}
use dbaas_operator.Api.V1beta1.{PlatformConfig, ObservabilityConfig, DbaasPlatform}
use dbaas_operator.Controllers.Install.{ObjectClient, Toolkit}
use dbaas_operator.Controllers.Install.Answers.{IsStep}
use dbaas_operator.Controllers.Install.Providers
use dbaas_operator.Controllers.Install.Providers.Laws as ProviderLaws
use dbaas_operator.Controllers.Install.QuickStart
use dbaas_operator.Controllers.Install.QuickStart.Laws as QuickStartLaws
use dbaas_operator.Controllers.Install.ConsolePlugin
use dbaas_operator.Controllers.Install.ConsolePlugin.Laws as PluginLaws
use dbaas_operator.Controllers.Install.Observability
use dbaas_operator.Controllers.Install.Observability.Laws as ObservabilityLaws

module _ {World : Type 0} (client : ObjectClient World) (tools : Toolkit) (cr : DbaasPlatform) where
  -- Each reconciler of a platform answers success or in progress without an error, or failed with
  -- one, and each clean-up too. Installing a provider writes nothing but its catalog source, its
  -- subscription, the operator group, all by their names, and the CSV that was read under its name,
  -- where the platform did not own it, with its owners changed and nothing else. Installing the
  -- plugin writes its service, its deployment and the plugin object by their names, and the console
  -- "cluster" as it was read with the plugin added, where it lacked it. Installing the quick starts
  -- applies those of the given names. The observability reconciler applies the two monitoring
  -- objects, and deletes an old CSV and the subscription named "-subscription". A clean-up applies
  -- nothing: it deletes objects of these names (deployments of the operator's name for a provider),
  -- and writes the console as it was read without the plugin.
  pub platforms-IsStep :
      (provider plugin : PlatformConfig) (config : ObservabilityConfig)
      (unmarshal : String → Result String) (files : GoMap String)
      → IsStep
          (ProviderLaws.Installs client tools provider cr)
          (Providers.reconcile client tools provider cr)
        × IsStep
            (ProviderLaws.Removes client tools provider cr)
            (Providers.cleanup client tools provider cr)
        × IsStep
            (PluginLaws.Installs client tools plugin cr)
            (ConsolePlugin.reconcile client tools plugin cr)
        × IsStep
            (PluginLaws.Removes client tools plugin cr)
            (ConsolePlugin.cleanup client tools plugin cr)
        × IsStep
            (QuickStartLaws.Installs client unmarshal files)
            (QuickStart.reconcile client unmarshal files)
        × IsStep
            (QuickStartLaws.Removes client unmarshal files)
            (QuickStart.cleanup client unmarshal files)
        × IsStep
            (ObservabilityLaws.Installs client tools config cr)
            (Observability.reconcile client tools config cr)
        × IsStep
            (ObservabilityLaws.Removes client tools config cr)
            (Observability.cleanup client tools cr)
  platforms-IsStep provider plugin config unmarshal files = (
    ProviderLaws.reconcile-IsStep client tools provider cr,
    ProviderLaws.cleanup-IsStep client tools provider cr,
    PluginLaws.reconcile-IsStep client tools plugin cr,
    PluginLaws.cleanup-IsStep client tools plugin cr,
    QuickStartLaws.reconcile-IsStep client unmarshal files,
    QuickStartLaws.cleanup-IsStep client unmarshal files,
    ObservabilityLaws.reconcile-IsStep client tools config cr,
    ObservabilityLaws.cleanup-IsStep client tools config cr,
  )
