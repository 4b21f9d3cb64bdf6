-- ===== src/Controllers/Install/Providers.antt =====
-- controllers/reconcilers/providersinstallation/providers_installation_reconciler.go: the
-- installation of a provider's operator through the lifecycle manager.
pub mod Laws
pub mod Cleanup
pub mod Installed
pub mod Progress
use dbaas_operator.Prelude.{
  ℕ, zero, suc, String, Bool, true, false, ◌&&◌, Option, none, some, List, [], ◌∷◌, ◌==◌, non_empty,
  if◌then◌else◌, ◌+++◌,
}
use dbaas_operator.Kube.{OwnerReference}
use dbaas_operator.Kube.Errors.{Error, is_not_found, Result, ok, err}
use dbaas_operator.Api.V1beta1.{PlatformConfig, DbaasPlatform}
use dbaas_operator.Controllers.Objects.{
  subscription, catalog_source, operator_group, csv, deployment, SubscriptionSpec,
  CatalogSourceSpec, no_targets, Manifest, key_of,
}
use dbaas_operator.Controllers.Client
use dbaas_operator.Controllers.Client.{Action, pure, ◌>>=◌, read}
use dbaas_operator.Controllers.Install.{
  ObjectClient, Toolkit, Answer, succeeded, waiting, failed, applied_answer, named_meta, named_key,
  followed_by, apply, update_object, delete_object, unless_failed, after_delete,
  check_owner_reference_set,
}

-- `InstallNamespace` and `CatalogNamespace` of constants.go
abbrev pub install_namespace : String
install_namespace = "openshift-operators"

abbrev pub catalog_namespace : String
catalog_namespace = "openshift-marketplace"

abbrev pub subscription_name : PlatformConfig → String
subscription_name config = config.name +++ "-subscription"

abbrev pub catalog_source_name : PlatformConfig → String
catalog_source_name config = config.name +++ "-catalogsource"

-- `n > 0`
abbrev pub positive : ℕ → Bool
positive zero = false
positive (suc n) = true

module _ (tools : Toolkit) (config : PlatformConfig) where
  abbrev pub subscription_spec : DbaasPlatform → SubscriptionSpec
  subscription_spec cr = record {
    catalog_source = catalog_source_name config;
    catalog_source_namespace = catalog_namespace;
    package_name = config.package_name;
    channel = config.channel;
    starting_csv = config.csv;
    install_plan_approval = "Automatic";
    env = elim cr.sync_period [
      | none ↦ none
      | some period ↦ some (("SYNC_PERIOD_MIN", tools.itoa period) ∷ [])
    ];
  }

  -- The object that `GetSubscription` makes.
  abbrev pub empty_subscription : DbaasPlatform → Manifest subscription
  empty_subscription cr = record {
    meta = named_meta cr.meta.namespace (subscription_name config);
    annotations = [];
    body = none;
  }

  -- What `CreateOrUpdate` does to the subscription. An empty `StartingCSV` is left as it is in a
  -- fresh spec, which is empty too.
  unfoldable pub mutate_subscription :
      DbaasPlatform → Manifest subscription → Result (Manifest subscription)
  mutate_subscription cr object =
      elim (tools.set_controller_reference cr object.meta.owner_references) [
        | err e ↦ err e
        | ok refs ↦ ok (record object {
          meta = record object.meta { owner_references = refs };
          body = some (subscription_spec cr);
        })
      ]

  unfoldable pub mutate_catalog_source : Manifest catalog_source → Manifest catalog_source
  mutate_catalog_source object = record object {
    body = record {
      source_type = "grpc";
      image = config.image;
      display_name = config.display_name;
      security_context_config = "legacy";
    };
  }

  -- The deployment of the operator, with a replica that is ready.
  abbrev pub is_running : Manifest deployment → Bool
  is_running d = (d.meta.name == config.deployment_name) && positive d.body.ready_replicas

  unfoldable pub any_running : List (Manifest deployment) → Bool
  any_running [] = false
  any_running (d ∷ items) = if is_running d then true else any_running items

module _ {World : Type 0} (client : ObjectClient World) (tools : Toolkit)
    (config : PlatformConfig) where
  unfoldable pub reconcile_catalog_source : Action World Answer
  unfolding mutate_catalog_source
  reconcile_catalog_source = do
    e ←
        apply client catalog_source
          (record {
            meta = named_meta catalog_namespace (catalog_source_name config);
            annotations = [];
            body = record {
              source_type = "";
              image = "";
              display_name = "";
              security_context_config = "";
            };
          })
          (λ object w. (ok (mutate_catalog_source tools config object), w))
    pure (applied_answer e)

  unfoldable pub reconcile_subscription : DbaasPlatform → Action World Answer
  unfolding mutate_subscription
  reconcile_subscription cr = do
    e ←
        apply client subscription (empty_subscription tools config cr)
          (λ object w. (mutate_subscription tools config cr object, w))
    pure (applied_answer e)

  unfoldable pub reconcile_operator_group : Action World Answer
  reconcile_operator_group = do
    e ←
        apply client operator_group
          (record {
            meta = named_meta install_namespace "global-operators";
            annotations = [];
            body = no_targets;
          })
          (λ object w. (ok (record object { body = no_targets }), w))
    pure (applied_answer e)

  abbrev pub operator_answer : Result (List (Manifest deployment)) → Answer
  operator_answer (err e) = failed e
  operator_answer (ok items) = if any_running tools config items then succeeded else waiting

  unfoldable pub wait_for_operator : DbaasPlatform → Action World Answer
  unfolding any_running
  wait_for_operator cr = do
    items ← read (client.list deployment cr.meta.namespace)
    pure (operator_answer items)

  abbrev pub update_answer : Option Error → Answer
  update_answer none = waiting
  update_answer (some e) = failed e

  -- From the answer of `SetControllerReference` on.
  abbrev pub with_owner : Manifest csv → Result (List OwnerReference) → Action World Answer
  with_owner object (err e) s = (failed e, s)
  with_owner object (ok refs) s =
      (do
        e ←
            update_object client csv
              (record object { meta = record object.meta { owner_references = refs } })
        pure (update_answer e))
        s

  -- From the answer of `CheckOwnerReferenceSet` on.
  abbrev pub with_check : DbaasPlatform → Manifest csv → Result Bool → Action World Answer
  with_check cr object (err e) s = (failed e, s)
  with_check cr object (ok true) s = (succeeded, s)
  with_check cr object (ok false) s =
      with_owner object (tools.set_controller_reference cr object.meta.owner_references) s

  -- From the answer of `Get` on.
  abbrev pub with_csv : DbaasPlatform → Result (Manifest csv) → Action World Answer
  with_csv cr (err e) s = ((if is_not_found e then waiting else failed e), s)
  with_csv cr (ok object) s = with_check cr object (check_owner_reference_set tools cr object) s

  unfoldable pub reconcile_csv : DbaasPlatform → Action World Answer
  reconcile_csv cr = do
    object ← read (client.get csv (named_key cr.meta.namespace config.csv))
    with_csv cr object

  unfoldable pub reconcile : DbaasPlatform → Action World Answer
  unfolding reconcile_catalog_source reconcile_subscription reconcile_operator_group
      wait_for_operator reconcile_csv
  reconcile cr = followed_by reconcile_catalog_source (
      followed_by (reconcile_subscription cr) (
        followed_by reconcile_operator_group
          (followed_by (wait_for_operator cr) (followed_by (reconcile_csv cr) (pure succeeded)))))

  -- The loop of `Cleanup` over the deployments; `rest` goes on after it.
  unfoldable pub delete_deployments :
      List (Manifest deployment) → Action World Answer → Action World Answer
  delete_deployments [] rest = rest
  delete_deployments (d ∷ items) rest =
      let after = delete_deployments items rest in
      if d.meta.name == config.deployment_name
      then after_delete client deployment (key_of d.meta) after
      else after

  abbrev pub delete_csv : DbaasPlatform → Action World Answer
  delete_csv cr = after_delete client csv (named_key cr.meta.namespace config.csv) (pure succeeded)

  abbrev pub with_deployments :
      DbaasPlatform → Result (List (Manifest deployment)) → Action World Answer
  with_deployments cr (err e) s = (failed e, s)
  with_deployments cr (ok items) s = delete_deployments items (delete_csv cr) s

  -- From the list of the deployments on.
  abbrev pub delete_operator : DbaasPlatform → Action World Answer
  delete_operator cr = do
    items ← read (client.list deployment cr.meta.namespace)
    with_deployments cr items

  abbrev pub delete_catalog_source : DbaasPlatform → Action World Answer
  delete_catalog_source cr =
      after_delete client catalog_source (named_key catalog_namespace (catalog_source_name config))
        (delete_operator cr)

  unfoldable pub cleanup : DbaasPlatform → Action World Answer
  unfolding delete_deployments
  cleanup cr =
      after_delete client subscription (named_key cr.meta.namespace (subscription_name config))
        (delete_catalog_source cr)
