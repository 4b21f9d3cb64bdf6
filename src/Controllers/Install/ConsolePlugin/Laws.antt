-- ===== src/Controllers/Install/ConsolePlugin/Laws.antt =====
-- What the installation of the console plugin writes.
use dbaas_operator.Prelude.{true, false, ◌≡◌, refl, Option, none, some, arith, Bool-cases, inl, inr}
use dbaas_operator.Kube.Errors.{Error, Result, ok, err}
use dbaas_operator.Api.V1beta1.{PlatformConfig, DbaasPlatform}
use dbaas_operator.Controllers.Objects.{
  service, deployment, console_plugin, console, Manifest, key_of, applied, updated, deleted,
}
use dbaas_operator.Controllers.Client.{Call, change}
use dbaas_operator.Controllers.Install.{ObjectClient, Toolkit, named_key}
use dbaas_operator.Controllers.Install.Answers.{
  is_proper, conflict_waits-proper, IsStep, kept, wrote, wrote_before, succeeded-IsStep,
  followed_by-IsStep, after_delete-IsStep,
}
use dbaas_operator.Controllers.Install.ConsolePlugin.Plugins.{
  contains_plugin, add_plugin, remove_plugin,
}
use dbaas_operator.Controllers.Install.ConsolePlugin.{
  reconcile_service, deployment_answer, apply_deployment, check_deployment, reconcile_deployment,
  create_console_plugin_cr, update_answer, with_console, enable_console_plugin_config, reconcile,
  delete_all, after_update, without_plugin, cleanup,
}

module _ {World : Type 0} (client : ObjectClient World) (tools : Toolkit) (config : PlatformConfig)
    (cr : DbaasPlatform) where
  -- The console "cluster" as it was read, with the plugin at the end of its list, where the list
  -- lacks it.
  abbrev IsEnabled : Manifest console → Type 0
  IsEnabled object =
      (w : World) × (found : Manifest console) × ((client.get console (named_key "" "cluster") w).0
        ≡ ok found)
      × (contains_plugin config.name found.body.plugins ≡ false)
      × (object ≡ record found {
        body = record found.body { plugins = add_plugin config.name found.body.plugins };
      })

  abbrev IsDisabled : Manifest console → Type 0
  IsDisabled object =
      (w : World) × (found : Manifest console) × ((client.get console (named_key "" "cluster") w).0
        ≡ ok found)
      × (object ≡ record found {
        body = record found.body { plugins = remove_plugin config.name found.body.plugins };
      })

  -- The calls of `Reconcile` and of `Cleanup`.
  abbrev pub Installs : Call → Type 0
  Installs (change (applied service object)) =
      key_of object.meta ≡ named_key cr.meta.namespace config.name
  Installs (change (applied deployment object)) =
      key_of object.meta ≡ named_key cr.meta.namespace config.name
  Installs (change (applied console_plugin object)) = key_of object.meta ≡ named_key "" config.name
  Installs (change (updated console object)) = IsEnabled object
  Installs _ = ⊥

  abbrev pub Removes : Call → Type 0
  Removes (change (updated console object)) = IsDisabled object
  Removes (change (deleted console_plugin key)) = key ≡ named_key "" config.name
  Removes (change (deleted deployment key)) = key ≡ named_key cr.meta.namespace config.name
  Removes (change (deleted service key)) = key ≡ named_key cr.meta.namespace config.name
  Removes _ = ⊥

  deployment_answer-proper :
      (r : Result (Manifest deployment))
      → is_proper (deployment_answer client tools config r) ≡ true
  deployment_answer-proper (err e) = ground arith
  deployment_answer-proper (ok d) = ground arith

  update_answer-proper : (e : Option Error) → is_proper (update_answer client tools config e) ≡ true
  update_answer-proper none = refl
  update_answer-proper (some e) = ground arith

  with_console-IsStep :
      (r : Result (Manifest console)) (w : World)
      → (client.get console (named_key "" "cluster") w).0 ≡ r
      → IsStep Installs (with_console client tools config r)
  with_console-IsStep (err e) w g s = kept refl
  with_console-IsStep (ok object) w g s =
      elim (Bool-cases (contains_plugin config.name object.body.plugins)) [
        | inl e ↦ rw e (kept (ground arith))
        | inr e ↦ rw e (wrote (update_answer-proper _) (w, object, g, e, refl))
      ]

  service-IsStep : IsStep Installs (reconcile_service client tools config cr)
  unfolding reconcile_service
  service-IsStep s = wrote (conflict_waits-proper _) refl

  apply_deployment-IsStep : IsStep Installs (apply_deployment client tools config cr)
  unfolding apply_deployment
  apply_deployment-IsStep s = wrote (conflict_waits-proper _) refl

  check_deployment-IsStep : IsStep Installs (check_deployment client tools config cr)
  unfolding check_deployment
  check_deployment-IsStep s = kept (
      deployment_answer-proper
        (client.get deployment (named_key cr.meta.namespace config.name) s.world).0)

  deployment-IsStep : IsStep Installs (reconcile_deployment client tools config cr)
  unfolding reconcile_deployment
  deployment-IsStep =
      followed_by-IsStep (apply_deployment client tools config cr) _ apply_deployment-IsStep
        check_deployment-IsStep

  plugin-IsStep : IsStep Installs (create_console_plugin_cr client tools config cr)
  unfolding create_console_plugin_cr
  plugin-IsStep s = wrote (conflict_waits-proper _) refl

  enable-IsStep : IsStep Installs (enable_console_plugin_config client tools config)
  unfolding enable_console_plugin_config
  enable-IsStep s = with_console-IsStep _ s.world refl _

  pub reconcile-IsStep : IsStep Installs (reconcile client tools config cr)
  unfolding reconcile
  reconcile-IsStep =
      followed_by-IsStep (reconcile_service client tools config cr) _ service-IsStep (
        followed_by-IsStep (reconcile_deployment client tools config cr) _ deployment-IsStep (
          followed_by-IsStep (create_console_plugin_cr client tools config cr) _ plugin-IsStep (
            followed_by-IsStep (enable_console_plugin_config client tools config) _ enable-IsStep
              succeeded-IsStep)))

  delete_all-IsStep : IsStep Removes (delete_all client tools config cr)
  delete_all-IsStep = after_delete-IsStep client console_plugin _ _ refl (
      after_delete-IsStep client deployment _ _ refl
        (after_delete-IsStep client service _ _ refl succeeded-IsStep))

  after_update-IsStep : (e : Option Error) → IsStep Removes (after_update client tools config cr e)
  after_update-IsStep none s = delete_all-IsStep s
  after_update-IsStep (some e) s = kept refl

  without_plugin-IsStep :
      (r : Result (Manifest console)) (w : World)
      → (client.get console (named_key "" "cluster") w).0 ≡ r
      → IsStep Removes (without_plugin client tools config cr r)
  without_plugin-IsStep (err e) w g s = kept refl
  without_plugin-IsStep (ok object) w g s =
      wrote_before (w, object, g, refl) (after_update-IsStep _ _)

  pub cleanup-IsStep : IsStep Removes (cleanup client tools config cr)
  unfolding cleanup
  cleanup-IsStep s = without_plugin-IsStep _ s.world refl _
