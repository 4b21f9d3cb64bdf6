-- ===== src/Controllers/Install/Providers/Cleanup.antt =====
-- What the clean-up of a provider's operator deletes when it succeeds.
use dbaas_operator.Prelude.{
  ◌≡◌, refl, sym, ap, ◌∙◌, Option, none, some, List, [], ◌∷◌, arith, ◌==◌, if◌then◌else◌,
  Bool-cases, inl, inr,
}
use dbaas_operator.Kube.{ObjectKey}
use dbaas_operator.Kube.Errors.{Error, Result, ok, err}
use dbaas_operator.Api.V1beta1.{PlatformConfig, DbaasPlatform}
use dbaas_operator.Controllers.Objects.{
  Kind, subscription, catalog_source, csv, deployment, Manifest, key_of, deleted,
}
use dbaas_operator.Controllers.Client.{Call, change, Action, Run, pure}
use dbaas_operator.Controllers.Install.{
  ObjectClient, Toolkit, Answer, succeeded, named_key, after_delete, unless_failed,
}
use dbaas_operator.Controllers.Install.Providers.{
  catalog_namespace, subscription_name, catalog_source_name, delete_deployments, delete_csv,
  with_deployments, delete_operator, delete_catalog_source, cleanup,
}

-- The log after the deployments of that name are deleted, in their order.
unfoldable pub deployment_calls :
    PlatformConfig → List (Manifest deployment) → List Call → List Call
deployment_calls config [] log = log
deployment_calls config (d ∷ items) log = deployment_calls config items (
    if d.meta.name == config.deployment_name
    then change (deleted deployment (key_of d.meta)) ∷ log
    else log)

unless_failed-succeeded :
    {World : Type 0} (rest : Action World Answer) (e : Option Error) (s : Run World)
    → (unless_failed rest e s).0 ≡ succeeded
    → unless_failed rest e s ≡ rest s
unless_failed-succeeded rest none s h = refl
unless_failed-succeeded rest (some e) s h = ground arith

-- A deletion that is followed by more, where all of it succeeds: the rest runs after the deletion.
module _ {World : Type 0} (client : ObjectClient World) (k : Kind) (key : ObjectKey)
    (rest : Action World Answer) (s : Run World) where
  abbrev deleted_run : Run World
  deleted_run = record {
    world = (client.delete k key s.world).1;
    calls = change (deleted k key) ∷ s.calls;
  }

  after_delete-succeeded :
      (after_delete client k key rest s).0 ≡ succeeded
      → after_delete client k key rest s ≡ rest deleted_run
  after_delete-succeeded h = unless_failed-succeeded rest _ deleted_run h

module _ {World : Type 0} (client : ObjectClient World) (tools : Toolkit) (config : PlatformConfig)
    (cr : DbaasPlatform) where
  -- `rest` ran at the end, from the log after the deletions.
  abbrev RunsAfter : Action World Answer → List Call → Answer × Run World → Type 0
  RunsAfter rest log r = (t : Run World) × (t.calls ≡ log) × (r ≡ rest t) × ((rest t).0 ≡ succeeded)

  delete_deployments-succeeded :
      (items : List (Manifest deployment)) (rest : Action World Answer) (s : Run World)
      → (delete_deployments client tools config items rest s).0 ≡ succeeded
      → RunsAfter rest
          (deployment_calls config items s.calls)
          (delete_deployments client tools config items rest s)
  unfolding delete_deployments deployment_calls
  delete_deployments-succeeded [] rest s h = (s, refl, refl, h)
  delete_deployments-succeeded (d ∷ items) rest s h =
      let after = delete_deployments client tools config items rest in
      elim (Bool-cases (d.meta.name == config.deployment_name)) [
        | inl e ↦
            let here = rw e at h in
            let same = after_delete-succeeded client deployment (key_of d.meta) after s here in
            rw e (
              rw same (
                delete_deployments-succeeded items rest
                  (deleted_run client deployment (key_of d.meta) after s)
                  (ap (λ r. r.0) (sym same) ∙ here)))
        | inr e ↦ rw e (delete_deployments-succeeded items rest s (rw e at h))
      ]

  -- The log after a clean-up in which the deployments are `items`.
  abbrev pub cleanup_calls : List (Manifest deployment) → List Call → List Call
  cleanup_calls items log =
      change (deleted csv (named_key cr.meta.namespace config.csv))
      ∷ deployment_calls config items (
          change (deleted catalog_source (named_key catalog_namespace (catalog_source_name config)))
          ∷ change (deleted subscription (named_key cr.meta.namespace (subscription_name config)))
          ∷ log)

  with_deployments-succeeded :
      (r : Result (List (Manifest deployment))) (s : Run World)
      → (with_deployments client tools config cr r s).0 ≡ succeeded
      → (items : List (Manifest deployment)) × (r ≡ ok items)
        × ((with_deployments client tools config cr r s).1.calls
            ≡ change (deleted csv (named_key cr.meta.namespace config.csv))
              ∷ deployment_calls config items s.calls)
  with_deployments-succeeded (err e) s h = absurd (ground (arith, h))
  with_deployments-succeeded (ok items) s h =
      let rest = delete_csv client tools config cr in
      let (t, log, same, good) = delete_deployments-succeeded items rest s h in
      let last =
        after_delete-succeeded client csv (named_key cr.meta.namespace config.csv) (pure succeeded)
          t good in
      (items, refl, rw same (rw last (rw log refl)))

  -- A clean-up of a provider's operator that succeeds has deleted the subscription, the catalog
  -- source, the deployments of the operator's name among those that the API server listed, in their
  -- order, and the CSV, and has written nothing else.
  pub cleanup-succeeded :
      (s : Run World)
      → (cleanup client tools config cr s).0 ≡ succeeded
      → (w : World) × (items : List (Manifest deployment)) × ((client.list deployment
            cr.meta.namespace w).0
          ≡ ok items)
        × ((cleanup client tools config cr s).1.calls ≡ cleanup_calls items s.calls)
  unfolding cleanup
  cleanup-succeeded s h =
      let rest = delete_catalog_source client tools config cr in
      let last = delete_operator client tools config cr in
      let key = named_key cr.meta.namespace (subscription_name config) in
      let source = named_key catalog_namespace (catalog_source_name config) in
      let one = after_delete-succeeded client subscription key rest s h in
      let s1 = deleted_run client subscription key rest s in
      let h1 = ap (λ r. r.0) (sym one) ∙ h in
      let two = after_delete-succeeded client catalog_source source last s1 h1 in
      let s2 = deleted_run client catalog_source source last s1 in
      let h2 = ap (λ r. r.0) (sym two) ∙ h1 in
      let (items, e, log) =
        with_deployments-succeeded _
          (record {
            world = (client.list deployment cr.meta.namespace s2.world).1;
            calls = s2.calls;
          })
          h2 in
      (s2.world, items, e, ap (λ r. r.1.calls) (one ∙ two) ∙ log)
