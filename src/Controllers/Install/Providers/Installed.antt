-- ===== src/Controllers/Install/Providers/Installed.antt =====
-- The cluster in which the installation of a provider's operator can come to its end, and when a
-- platform can own the CSV of the operator.
use dbaas_operator.Prelude.{Bool, true, false, ◌≡◌, ◌⊎◌, none, List}
use dbaas_operator.Kube.{OwnerReference}
use dbaas_operator.Kube.Errors.{Result, ok}
use dbaas_operator.Api.V1beta1.{PlatformConfig, DbaasPlatform}
use dbaas_operator.Controllers.Objects.{Kind, subscription, csv, deployment, Manifest, key_of}
use dbaas_operator.Controllers.Install.{ObjectClient, Toolkit, named_key, check_owner_reference_set}
use dbaas_operator.Controllers.Install.Providers.{empty_subscription, any_running}

abbrev pub is_csv : Kind → Bool
is_csv csv = true
is_csv _ = false

abbrev pub with_owners : Manifest csv → List OwnerReference → Manifest csv
with_owners object refs = record object { meta = record object.meta { owner_references = refs } }

-- A cluster in which the lifecycle manager has done its part, and in which nobody else writes to the
-- CSV between two calls: the API server takes what is applied, the operator runs, its CSV is `found`,
-- and an update of its owners is kept.
pub record Installed {World : Type 0} (client : ObjectClient World) (tools : Toolkit)
    (config : PlatformConfig) (cr : DbaasPlatform) (found : World → Manifest csv) : Type 0 where
  -- The object as it is in the cluster, or as it is given where it is not there: `CreateOrUpdate`
  -- gives it to the function that changes it, and writes what comes of it, or answers its error. The
  -- function must not change the name.
  pub current : (k : Kind) → Manifest k → World → Manifest k
  pub same_key :
      (k : Kind) (object : Manifest k) (w : World)
      → key_of (current k object w).meta ≡ key_of object.meta
  pub applies :
      (k : Kind) (object m : Manifest k) (mutate : Manifest k → Result (Manifest k)) (w : World)
      → mutate (current k object w) ≡ ok m
      → key_of m.meta ≡ key_of object.meta
      → (client.create_or_update k object (λ o u. (mutate o, u)) w).0 ≡ none
  -- A write to an object of another kind leaves the CSV.
  pub undisturbed :
      (k : Kind) (object : Manifest k) (mutate : Manifest k → Result (Manifest k)) (w : World)
      → is_csv k ≡ false
      → found (client.create_or_update k object (λ o u. (mutate o, u)) w).1 ≡ found w
  pub deployments : List (Manifest deployment)
  pub lists : (w : World) → client.list deployment cr.meta.namespace w ≡ (ok deployments, w)
  pub runs : any_running tools config deployments ≡ true
  pub finds :
      (w : World) → client.get csv (named_key cr.meta.namespace config.csv) w ≡ (ok (found w), w)
  -- The CSV that was found is updated with other owners.
  pub keeps :
      (refs : List OwnerReference) (w : World)
      → ((client.update csv (with_owners (found w) refs) w).0 ≡ none)
        × (found (client.update csv (with_owners (found w) refs) w).1 ≡ with_owners (found w) refs)
  -- `SetControllerReference` takes the platform as the owner of the subscription.
  pub owns_subscription :
      (w : World)
      → (refs : List OwnerReference) × (tools.set_controller_reference cr
            (current subscription (empty_subscription tools config cr) w).meta.owner_references
          ≡ ok refs)

-- The platform owns the CSV, or does not and can become its owner.
abbrev pub CanOwn : Toolkit → DbaasPlatform → Manifest csv → Type 0
CanOwn tools cr object =
    (check_owner_reference_set tools cr object ≡ ok true)
    ⊎ ((check_owner_reference_set tools cr object ≡ ok false)
        × ((refs : List OwnerReference) × (tools.set_controller_reference cr
                object.meta.owner_references
              ≡ ok refs)
            × (check_owner_reference_set tools cr (with_owners object refs) ≡ ok true)))
