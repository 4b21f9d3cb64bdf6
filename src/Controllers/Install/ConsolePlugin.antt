-- ===== src/Controllers/Install/ConsolePlugin.antt =====
-- controllers/reconcilers/consoleplugin/plugin_installation_reconciler.go: the service and the
-- deployment of the console plugin, and its entry in the configuration of the console.
pub mod Manifests
pub mod Plugins
pub mod Laws
use dbaas_operator.Prelude.{
  ℕ, zero, suc, String, Bool, true, false, Option, none, some, List, [], ◌∷◌, ◌++◌, ◌==◌,
  if◌then◌else◌,
}
use dbaas_operator.Prelude.GoMap.{GoMap}
use dbaas_operator.Kube.Errors.{Error, is_not_found, is_conflict, Result, ok, err}
use dbaas_operator.Api.V1beta1.{PlatformConfig, DbaasPlatform}
use dbaas_operator.Controllers.Objects.{
  service, deployment, console_plugin, console, Manifest, key_of,
}
use dbaas_operator.Controllers.Client
use dbaas_operator.Controllers.Client.{Action, pure, ◌>>=◌, read}
use dbaas_operator.Controllers.Install.{
  ObjectClient, Toolkit, Answer, succeeded, waiting, failed, conflict_waits, named_key, followed_by,
  apply, update_object, delete_object, unless_failed, after_delete,
}
use dbaas_operator.Controllers.Install.ConsolePlugin.Manifests.{
  empty_service, mutate_service, empty_deployment, mutate_deployment, empty_plugin, mutate_plugin,
}
use dbaas_operator.Controllers.Install.ConsolePlugin.Plugins.{
  contains_plugin, add_plugin, remove_plugin,
}

-- `m == n`
abbrev pub same_number : ℕ → ℕ → Bool
same_number zero zero = true
same_number (suc m) (suc n) = same_number m n
same_number _ _ = false

-- The loop over the conditions: the first one of that type decides.
unfoldable pub deployment_available : GoMap String → Bool
deployment_available [] = false
deployment_available ((type, status) ∷ conditions) =
    let rest = deployment_available conditions in
    if type == "DeploymentAvailable" then status == "True" else rest

module _ {World : Type 0} (client : ObjectClient World) (tools : Toolkit)
    (config : PlatformConfig) where
  unfoldable pub reconcile_service : DbaasPlatform → Action World Answer
  reconcile_service cr = do
    e ←
        apply client service (empty_service cr.meta.namespace config.name)
          (λ object w. (mutate_service tools config cr object, w))
    pure (conflict_waits e)

  -- From the answer of `Get` on.
  abbrev pub deployment_answer : Result (Manifest deployment) → Answer
  deployment_answer (err e) = if is_not_found e then waiting else failed e
  deployment_answer (ok d) =
      if same_number d.body.ready_replicas d.body.replicas then succeeded else waiting

  unfoldable pub apply_deployment : DbaasPlatform → Action World Answer
  apply_deployment cr = do
    e ←
        apply client deployment (empty_deployment cr.meta.namespace config.name)
          (λ object w. (mutate_deployment tools config cr object, w))
    pure (conflict_waits e)

  unfoldable pub check_deployment : DbaasPlatform → Action World Answer
  check_deployment cr = do
    d ← read (client.get deployment (named_key cr.meta.namespace config.name))
    pure (deployment_answer d)

  unfoldable pub reconcile_deployment : DbaasPlatform → Action World Answer
  unfolding apply_deployment check_deployment
  reconcile_deployment cr = followed_by (apply_deployment cr) (check_deployment cr)

  unfoldable pub create_console_plugin_cr : DbaasPlatform → Action World Answer
  create_console_plugin_cr cr = do
    e ←
        apply client console_plugin (empty_plugin config.name)
          (λ object w. (ok (mutate_plugin config cr object), w))
    pure (conflict_waits e)

  abbrev pub update_answer : Option Error → Answer
  update_answer none = waiting
  update_answer (some e) = if is_conflict e then waiting else failed e

  -- From the answer of `Get` on, the plugin added or not.
  abbrev pub with_console : Result (Manifest console) → Action World Answer
  with_console (err e) s = (failed e, s)
  with_console (ok object) s =
      if contains_plugin config.name object.body.plugins
      then ((if deployment_available object.body.conditions then succeeded else waiting), s)
      else (do
        e ← update_object client console (record object {
          body = record object.body { plugins = add_plugin config.name object.body.plugins };
        })
        pure (update_answer e))
          s

  unfoldable pub enable_console_plugin_config : Action World Answer
  unfolding deployment_available
  enable_console_plugin_config = do
    object ← read (client.get console (named_key "" "cluster"))
    with_console object

  unfoldable pub reconcile : DbaasPlatform → Action World Answer
  unfolding reconcile_service reconcile_deployment create_console_plugin_cr
      enable_console_plugin_config
  reconcile cr = followed_by (reconcile_service cr) (
      followed_by (reconcile_deployment cr) (
        followed_by (create_console_plugin_cr cr)
          (followed_by enable_console_plugin_config (pure succeeded))))

  -- What `Cleanup` deletes once the plugin is no longer in the configuration of the console.
  abbrev pub delete_all : DbaasPlatform → Action World Answer
  delete_all cr = after_delete client console_plugin (named_key "" config.name) (
      after_delete client deployment (named_key cr.meta.namespace config.name)
        (after_delete client service (named_key cr.meta.namespace config.name) (pure succeeded)))

  abbrev pub after_update : DbaasPlatform → Option Error → Action World Answer
  after_update cr none s = delete_all cr s
  after_update cr (some e) s = (failed e, s)

  abbrev pub without_plugin : DbaasPlatform → Result (Manifest console) → Action World Answer
  without_plugin cr (err e) s = (failed e, s)
  without_plugin cr (ok object) s =
      (do
        e ← update_object client console (record object {
          body = record object.body { plugins = remove_plugin config.name object.body.plugins };
        })
        after_update cr e)
        s

  unfoldable pub cleanup : DbaasPlatform → Action World Answer
  cleanup cr = do
    object ← read (client.get console (named_key "" "cluster"))
    without_plugin cr object
