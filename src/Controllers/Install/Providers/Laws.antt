-- ===== src/Controllers/Install/Providers/Laws.antt =====
-- What the installation of a provider's operator writes, and when it succeeds.
use dbaas_operator.Prelude.{
  Bool, true, false, ◌≡◌, refl, Option, none, some, List, [], ◌∷◌, arith, ◌==◌, eq_iff, Bool-cases,
  inl, inr,
}
use dbaas_operator.Kube.{OwnerReference}
use dbaas_operator.Kube.Errors.{Error, Result, ok, err}
use dbaas_operator.Api.V1beta1.{PlatformConfig, DbaasPlatform}
use dbaas_operator.Controllers.Objects.{
  subscription, catalog_source, operator_group, csv, deployment, Manifest, key_of, applied, updated,
  deleted,
}
use dbaas_operator.Controllers.Client.{Call, change, Action}
use dbaas_operator.Controllers.Install.{
  ObjectClient, Toolkit, Answer, named_key, check_owner_reference_set,
}
use dbaas_operator.Controllers.Install.Answers.{
  is_proper, applied_answer-proper, IsStep, succeeded-IsStep, kept, wrote, followed_by-IsStep,
  after_delete-IsStep,
}
use dbaas_operator.Controllers.Install.Providers.{
  install_namespace, catalog_namespace, subscription_name, catalog_source_name, operator_answer,
  update_answer, with_owner, with_check, with_csv, reconcile_catalog_source, reconcile_subscription,
  reconcile_operator_group, wait_for_operator, reconcile_csv, reconcile, delete_deployments,
  with_deployments, cleanup,
}

module _ {World : Type 0} (client : ObjectClient World) (tools : Toolkit) (config : PlatformConfig)
    (cr : DbaasPlatform) where
  -- The CSV that is written is the one that was read under the name of the configuration, with the
  -- platform as its owner, where the platform did not own it yet, and as it was but for that.
  pub record IsAdopted (object : Manifest csv) : Type 0 where
    pub world : World
    pub found : Manifest csv
    pub was_read : (client.get csv (named_key cr.meta.namespace config.csv) world).0 ≡ ok found
    pub not_owned : check_owner_reference_set tools cr found ≡ ok false
    pub owners : List OwnerReference
    pub owned : tools.set_controller_reference cr found.meta.owner_references ≡ ok owners
    pub is_found : object ≡ record found { meta = record found.meta { owner_references = owners } }

  -- The calls of `Reconcile` and of `Cleanup`.
  abbrev pub Installs : Call → Type 0
  Installs (change (applied catalog_source object)) =
      key_of object.meta ≡ named_key catalog_namespace (catalog_source_name config)
  Installs (change (applied subscription object)) =
      key_of object.meta ≡ named_key cr.meta.namespace (subscription_name config)
  Installs (change (applied operator_group object)) =
      key_of object.meta ≡ named_key install_namespace "global-operators"
  Installs (change (updated csv object)) = IsAdopted object
  Installs _ = ⊥

  abbrev pub Removes : Call → Type 0
  Removes (change (deleted subscription key)) =
      key ≡ named_key cr.meta.namespace (subscription_name config)
  Removes (change (deleted catalog_source key)) =
      key ≡ named_key catalog_namespace (catalog_source_name config)
  Removes (change (deleted deployment key)) = key.name ≡ config.deployment_name
  Removes (change (deleted csv key)) = key ≡ named_key cr.meta.namespace config.csv
  Removes _ = ⊥

  operator_answer-proper :
      (r : Result (List (Manifest deployment)))
      → is_proper (operator_answer client tools config r) ≡ true
  operator_answer-proper (err e) = refl
  operator_answer-proper (ok items) = ground arith

  update_answer-proper : (e : Option Error) → is_proper (update_answer client tools config e) ≡ true
  update_answer-proper none = refl
  update_answer-proper (some e) = refl

  with_owner-IsStep :
      (object : Manifest csv) (r : Result (List OwnerReference)) (w : World)
      → (client.get csv (named_key cr.meta.namespace config.csv) w).0 ≡ ok object
      → check_owner_reference_set tools cr object ≡ ok false
      → tools.set_controller_reference cr object.meta.owner_references ≡ r
      → IsStep Installs (with_owner client tools config object r)
  with_owner-IsStep object (err e) w g h q s = kept refl
  with_owner-IsStep object (ok refs) w g h q s = wrote (update_answer-proper _) (record {
    world = w;
    found = object;
    was_read = g;
    not_owned = h;
    owners = refs;
    owned = q;
    is_found = refl;
  })

  with_check-IsStep :
      (object : Manifest csv) (r : Result Bool) (w : World)
      → (client.get csv (named_key cr.meta.namespace config.csv) w).0 ≡ ok object
      → check_owner_reference_set tools cr object ≡ r
      → IsStep Installs (with_check client tools config cr object r)
  with_check-IsStep object (err e) w g h s = kept refl
  with_check-IsStep object (ok true) w g h s = kept refl
  with_check-IsStep object (ok false) w g h s = with_owner-IsStep object _ w g h refl s

  with_csv-IsStep :
      (r : Result (Manifest csv)) (w : World)
      → (client.get csv (named_key cr.meta.namespace config.csv) w).0 ≡ r
      → IsStep Installs (with_csv client tools config cr r)
  with_csv-IsStep (err e) w g s = kept (ground arith)
  with_csv-IsStep (ok object) w g s = with_check-IsStep object _ w g refl s

  catalog_source-IsStep : IsStep Installs (reconcile_catalog_source client tools config)
  unfolding reconcile_catalog_source
  catalog_source-IsStep s = wrote (applied_answer-proper _) refl

  subscription-IsStep : IsStep Installs (reconcile_subscription client tools config cr)
  unfolding reconcile_subscription
  subscription-IsStep s = wrote (applied_answer-proper _) refl

  operator_group-IsStep : IsStep Installs (reconcile_operator_group client tools config)
  unfolding reconcile_operator_group
  operator_group-IsStep s = wrote (applied_answer-proper _) refl

  wait_for_operator-IsStep : IsStep Installs (wait_for_operator client tools config cr)
  unfolding wait_for_operator
  wait_for_operator-IsStep s = kept (operator_answer-proper _)

  reconcile_csv-IsStep : IsStep Installs (reconcile_csv client tools config cr)
  unfolding reconcile_csv
  reconcile_csv-IsStep s = with_csv-IsStep _ s.world refl _

  -- Installing a provider's operator writes nothing but its catalog source, its subscription, the
  -- operator group, and the CSV with the platform as its owner; it fails exactly with an error.
  pub reconcile-IsStep : IsStep Installs (reconcile client tools config cr)
  unfolding reconcile
  reconcile-IsStep =
      followed_by-IsStep (reconcile_catalog_source client tools config) _ catalog_source-IsStep (
        followed_by-IsStep (reconcile_subscription client tools config cr) _ subscription-IsStep (
          followed_by-IsStep (reconcile_operator_group client tools config) _ operator_group-IsStep
            (followed_by-IsStep (wait_for_operator client tools config cr) _
              wait_for_operator-IsStep
              (followed_by-IsStep (reconcile_csv client tools config cr) _ reconcile_csv-IsStep
                succeeded-IsStep))))

  delete_deployments-IsStep :
      (items : List (Manifest deployment)) (rest : Action World Answer)
      → IsStep Removes rest
      → IsStep Removes (delete_deployments client tools config items rest)
  unfolding delete_deployments
  delete_deployments-IsStep [] rest h s = h s
  delete_deployments-IsStep (d ∷ items) rest h s =
      let after = delete_deployments-IsStep items rest h in
      elim (Bool-cases (d.meta.name == config.deployment_name)) [
        | inl e ↦ rw e (
            after_delete-IsStep client deployment (key_of d.meta) _
              ((eq_iff d.meta.name config.deployment_name).0 e) after s)
        | inr e ↦ rw e (after s)
      ]

  with_deployments-IsStep :
      (r : Result (List (Manifest deployment)))
      → IsStep Removes (with_deployments client tools config cr r)
  with_deployments-IsStep (err e) s = kept refl
  with_deployments-IsStep (ok items) s =
      delete_deployments-IsStep items _ (after_delete-IsStep client csv _ _ refl succeeded-IsStep) s

  -- The clean-up deletes nothing but the subscription, the catalog source, deployments of the
  -- operator's name and the CSV, and fails exactly with an error.
  pub cleanup-IsStep : IsStep Removes (cleanup client tools config cr)
  unfolding cleanup
  cleanup-IsStep =
      after_delete-IsStep client subscription _ _ refl
        (after_delete-IsStep client catalog_source _ _ refl (λ s. with_deployments-IsStep _ _))
