-- ===== src/Controllers/Install/Providers/Progress.antt =====
-- The installation of a provider's operator comes to its end, once the operator runs.
use dbaas_operator.Prelude.{ℕ, zero, suc, true, false, ◌≡◌, refl, ap, ◌∙◌, inl, inr, some, List}
use dbaas_operator.Kube.{OwnerReference}
use dbaas_operator.Kube.Errors.{Result, ok}
use dbaas_operator.Api.V1beta1.{PlatformConfig, DbaasPlatform}
use dbaas_operator.Controllers.Objects.{Kind, subscription, csv, Manifest, key_of}
use dbaas_operator.Controllers.Client.{Action, Run, pure}
use dbaas_operator.Controllers.Install.{
  ObjectClient, Toolkit, Answer, applied_answer, succeeded, waiting, followed_by,
  check_owner_reference_set,
}
use dbaas_operator.Controllers.Install.Providers.Installed.{is_csv, with_owners, Installed, CanOwn}
use dbaas_operator.Controllers.Install.Answers.{followed_by-succeeded}
use dbaas_operator.Controllers.Install.Providers.{
  subscription_spec, empty_subscription, mutate_subscription, mutate_catalog_source,
  reconcile_catalog_source, reconcile_subscription, reconcile_operator_group, wait_for_operator,
  reconcile_csv, reconcile,
}

module _ {World : Type 0} (client : ObjectClient World) (tools : Toolkit) (config : PlatformConfig)
    (cr : DbaasPlatform) (found : World → Manifest csv)
    (cluster : Installed client tools config cr found) where
  -- Of an action: it succeeds and leaves the CSV as it is.
  abbrev Passes : Action World Answer → Type 0
  Passes m = (s : Run World) → ((m s).0 ≡ succeeded) × (found (m s).1.world ≡ found s.world)

  -- Applying an object of another kind, where the function that changes it has no error.
  apply-Passes :
      (k : Kind) (object m : Manifest k) (mutate : Manifest k → Result (Manifest k)) (s : Run World)
      → is_csv k ≡ false
      → mutate (cluster.current k object s.world) ≡ ok m
      → key_of m.meta ≡ key_of object.meta
      → (applied_answer (client.create_or_update k object (λ o u. (mutate o, u)) s.world).0
          ≡ succeeded)
        × (found (client.create_or_update k object (λ o u. (mutate o, u)) s.world).1
            ≡ found s.world)
  apply-Passes k object m mutate s h e q = (
    ap applied_answer (cluster.applies k object m mutate s.world e q),
    cluster.undisturbed k object mutate s.world h,
  )

  catalog_source-Passes : Passes (reconcile_catalog_source client tools config)
  unfolding reconcile_catalog_source mutate_catalog_source
  catalog_source-Passes s = apply-Passes _ _ _ _ s refl refl (cluster.same_key _ _ s.world)

  subscription-Passes : Passes (reconcile_subscription client tools config cr)
  unfolding reconcile_subscription mutate_subscription
  subscription-Passes s =
      let (refs, owned) = cluster.owns_subscription s.world in
      let there = cluster.current subscription (empty_subscription tools config cr) s.world in
      let applied : Manifest subscription = record there {
        meta = record there.meta { owner_references = refs };
        body = some (subscription_spec tools config cr);
      } in
      apply-Passes _ _ applied (mutate_subscription tools config cr) s refl
        (rw (mutate_subscription, owned) refl) (cluster.same_key _ _ s.world)

  operator_group-Passes : Passes (reconcile_operator_group client tools config)
  unfolding reconcile_operator_group
  operator_group-Passes s = apply-Passes _ _ _ _ s refl refl (cluster.same_key _ _ s.world)

  wait_for_operator-Passes : Passes (wait_for_operator client tools config cr)
  unfolding wait_for_operator
  wait_for_operator-Passes s =
      (rw (cluster.lists s.world, cluster.runs) refl, rw (cluster.lists s.world) refl)

  abbrev last_step : Action World Answer
  last_step = followed_by (reconcile_csv client tools config cr) (pure succeeded)

  -- Up to the CSV.
  reconcile-last_step :
      (s : Run World)
      → (t : Run World) × (reconcile client tools config cr s ≡ last_step t)
        × (found t.world ≡ found s.world)
  unfolding reconcile
  reconcile-last_step s =
      let s1 = (reconcile_catalog_source client tools config s).1 in
      let s2 = (reconcile_subscription client tools config cr s1).1 in
      let s3 = (reconcile_operator_group client tools config s2).1 in
      let s4 = (wait_for_operator client tools config cr s3).1 in
      let from_wait = followed_by (wait_for_operator client tools config cr) last_step in
      let from_group = followed_by (reconcile_operator_group client tools config) from_wait in
      let from_subscription =
        followed_by (reconcile_subscription client tools config cr) from_group in
      (
        s4,
        followed_by-succeeded (reconcile_catalog_source client tools config) from_subscription s
              (catalog_source-Passes s).0
            ∙ followed_by-succeeded (reconcile_subscription client tools config cr) from_group s1
                (subscription-Passes s1).0
            ∙ followed_by-succeeded (reconcile_operator_group client tools config) from_wait s2
                (operator_group-Passes s2).0
            ∙ followed_by-succeeded (wait_for_operator client tools config cr) last_step s3
                (wait_for_operator-Passes s3).0,
        (wait_for_operator-Passes s3).1
            ∙ (operator_group-Passes s2).1
            ∙ (subscription-Passes s1).1
            ∙ (catalog_source-Passes s).1,
      )

  -- The platform owns the CSV already.
  last_step-IsOwned :
      (t : Run World)
      → check_owner_reference_set tools cr (found t.world) ≡ ok true
      → ((last_step t).0 ≡ succeeded) × ((last_step t).1.world ≡ t.world)
  unfolding reconcile_csv
  last_step-IsOwned t h = (rw (cluster.finds t.world, h) refl, rw (cluster.finds t.world, h) refl)

  last_step-adopts :
      (t : Run World) (refs : List OwnerReference)
      → check_owner_reference_set tools cr (found t.world) ≡ ok false
      → tools.set_controller_reference cr (found t.world).meta.owner_references ≡ ok refs
      → ((last_step t).0 ≡ waiting)
        × (found (last_step t).1.world ≡ with_owners (found t.world) refs)
  unfolding reconcile_csv
  last_step-adopts t refs h q =
      let kept = cluster.keeps refs t.world in
      (
        rw (cluster.finds t.world, h, q, kept.0) refl,
        rw (cluster.finds t.world, h, q, kept.0) kept.1,
      )

  abbrev IsOwned : Run World → Type 0
  IsOwned s = check_owner_reference_set tools cr (found s.world) ≡ ok true

  -- Where the platform owns the CSV, a reconciliation succeeds and leaves that so.
  reconcile-IsOwned :
      (s : Run World)
      → IsOwned s
      → ((reconcile client tools config cr s).0 ≡ succeeded)
        × IsOwned (reconcile client tools config cr s).1
  reconcile-IsOwned s h =
      let (t, e, same) = reconcile-last_step s in
      let owned : IsOwned t = rw same h in
      let step = last_step-IsOwned t owned in rw e (step.0, rw step.1 owned)

  reconcile-then-IsOwned :
      (s : Run World)
      → CanOwn tools cr (found s.world)
      → IsOwned (reconcile client tools config cr s).1
  reconcile-then-IsOwned s can =
      let (t, e, same) = reconcile-last_step s in
      let able : CanOwn tools cr (found t.world) = rw same can in
      elim able [
        | inl h ↦ rw e (rw (last_step-IsOwned t h).1 h)
        | inr (h, (refs, q, owned)) ↦ rw e (rw (last_step-adopts t refs h q).1 owned)
      ]

  -- The run after so many reconciliations.
  abbrev pub after_rounds : ℕ → Run World → Run World
  after_rounds zero s = s
  after_rounds (suc n) s = after_rounds n (reconcile client tools config cr s).1

  succeeds-IsOwned :
      (n : ℕ) (s : Run World)
      → IsOwned s
      → (reconcile client tools config cr (after_rounds n s)).0 ≡ succeeded
  succeeds-IsOwned zero s h = (reconcile-IsOwned s h).0
  succeeds-IsOwned (suc n) s h = succeeds-IsOwned n _ (reconcile-IsOwned s h).1

  -- In a cluster in which an object is applied unless the function that changes it has an error,
  -- the operator of a provider runs, the platform can own its subscription, its CSV is found and
  -- nobody else writes it, so that an update of its owners is kept (`Installed`), and where the
  -- platform owns that CSV at the start or can become its owner, every reconciliation of the
  -- installation but the first succeeds.
  pub reconcile-converges :
      (n : ℕ) (s : Run World)
      → CanOwn tools cr (found s.world)
      → (reconcile client tools config cr (after_rounds (suc n) s)).0 ≡ succeeded
  reconcile-converges n s can = succeeds-IsOwned n _ (reconcile-then-IsOwned s can)
