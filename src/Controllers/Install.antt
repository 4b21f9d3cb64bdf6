-- ===== src/Controllers/Install.antt =====
-- What the reconcilers of the platforms under controllers/reconcilers/ share: the client for the
-- objects of the cluster, the library functions they call, the answers, and olm_helper.go. A call
-- that writes is recorded in the log of the run.
pub mod Answers
pub mod Providers
pub mod QuickStart
pub mod ConsolePlugin
pub mod Observability
pub mod Platforms
use dbaas_operator.Prelude.{
  ℤ, String, Bool, true, false, ◌&&◌, Option, none, some, List, [], ◌==◌, if◌then◌else◌,
}
use dbaas_operator.Kube.{OwnerReference, GroupVersion, ObjectMeta, ObjectKey}
use dbaas_operator.Kube.Errors.{Error, is_not_found, is_conflict, Result, ok, err, ◌>>=◌}
use dbaas_operator.Api.V1beta1.{
  PlatformInstlnStatus, result_success, result_failed, result_in_progress, DbaasPlatform,
}
use dbaas_operator.Controllers.Objects.{
  Kind, csv, Manifest, key_of, Change, applied, created, updated, deleted,
}
use dbaas_operator.Controllers.Client
use dbaas_operator.Controllers.Client.{Action, change, write}
use dbaas_operator.Controllers.Platform.{is_success}

-- The client, for an object of any kind. `create_or_update` is controllerutil.CreateOrUpdate: it is
-- given the object as the code makes it and what the code does to it or to the one that is there.
pub record ObjectClient (World : Type 0) : Type 0 where
  pub get : (k : Kind) → ObjectKey → World → Result (Manifest k) × World
  pub list : (k : Kind) → String → World → Result (List (Manifest k)) × World
  -- the objects of all namespaces with that label
  pub list_labelled : (k : Kind) → String × String → World → Result (List (Manifest k)) × World
  pub create_or_update :
      (k : Kind)
      → Manifest k
      → (Manifest k → World → Result (Manifest k) × World)
      → World
      → Option Error × World
  pub create : (k : Kind) → Manifest k → World → Option Error × World
  pub update : (k : Kind) → Manifest k → World → Option Error × World
  pub delete : Kind → ObjectKey → World → Option Error × World

pub record Toolkit : Type 0 where
  -- ctrl.SetControllerReference with a platform object as the owner
  pub set_controller_reference : DbaasPlatform → List OwnerReference → Result (List OwnerReference)
  -- metav1.GetControllerOf
  pub controller_of : List OwnerReference → Option OwnerReference
  -- apiutil.GVKForObject of a platform object
  pub platform_gvk : Result (GroupVersion × String)
  pub group_version_string : GroupVersion → String
  pub parse_group_version : String → Result GroupVersion
  -- strconv.Itoa
  pub itoa : ℤ → String

-- `(status, err)`, which `Reconcile` and `Cleanup` return.
abbrev pub Answer : Type 0
Answer = PlatformInstlnStatus × Option Error

abbrev pub succeeded : Answer
succeeded = (result_success, none)

abbrev pub waiting : Answer
waiting = (result_in_progress, none)

abbrev pub failed : Error → Answer
failed e = (result_failed, some e)

-- The answer for the error of a `CreateOrUpdate`, where a conflict is an error, and where the
-- reconciler waits for the next round.
abbrev pub applied_answer : Option Error → Answer
applied_answer none = succeeded
applied_answer (some e) = failed e

abbrev pub conflict_waits : Option Error → Answer
conflict_waits none = succeeded
conflict_waits (some e) = if is_conflict e then waiting else failed e

-- An object with that name, and nothing else.
abbrev pub named_meta : String → String → ObjectMeta
named_meta namespace name = record {
  name = name;
  namespace = namespace;
  labels = [];
  deletion_timestamp = none;
  owner_references = [];
}

-- `GetClusterServiceVersion`, `GetSubscription`, `GetOperatorGroup` and `GetCatalogSource` make an
-- object of which only this is set.
abbrev pub named_key : String → String → ObjectKey
named_key namespace name = record { namespace = namespace; name = name }

module _ {World : Type 0} where
  -- `status, err := first; if status != ResultSuccess { return status, err }`
  abbrev pub followed_by : Action World Answer → Action World Answer → Action World Answer
  followed_by first rest s = let (a, s') = first s in if is_success a.0 then rest s' else (a, s')

  -- `if err != nil && !errors.IsNotFound(err) { return ResultFailed, err }`
  abbrev pub unless_failed : Action World Answer → Option Error → Action World Answer
  unless_failed rest none s = rest s
  unless_failed rest (some e) s = if is_not_found e then rest s else (failed e, s)

  module _ (client : ObjectClient World) where
    abbrev pub apply :
        (k : Kind)
        → Manifest k
        → (Manifest k → World → Result (Manifest k) × World)
        → Action World (Option Error)
    apply k object mutate =
        write (change (applied k object)) (client.create_or_update k object mutate)

    abbrev pub create_object : (k : Kind) → Manifest k → Action World (Option Error)
    create_object k object = write (change (created k object)) (client.create k object)

    abbrev pub update_object : (k : Kind) → Manifest k → Action World (Option Error)
    update_object k object = write (change (updated k object)) (client.update k object)

    abbrev pub delete_object : Kind → ObjectKey → Action World (Option Error)
    delete_object k key = write (change (deleted k key)) (client.delete k key)

    abbrev pub after_delete : Kind → ObjectKey → Action World Answer → Action World Answer
    after_delete k key rest s = let (e, s') = delete_object k key s in unless_failed rest e s'

-- From the controller of the CSV on.
abbrev pub owner_set_by :
    Toolkit → DbaasPlatform → GroupVersion × String → OwnerReference → Result Bool
owner_set_by tools cr (gv, kind) existing =
    tools.parse_group_version (tools.group_version_string gv) >>= (λ own.
      tools.parse_group_version existing.api_version >>= (λ its.
        ok
          ((own.group == its.group) && (kind == existing.kind) && (cr.meta.name == existing.name))))

unfoldable pub check_owner_reference_set : Toolkit → DbaasPlatform → Manifest csv → Result Bool
check_owner_reference_set tools cr object = tools.platform_gvk >>= (λ gvk.
    elim (tools.controller_of object.meta.owner_references) [
      | none ↦ ok false
      | some existing ↦ owner_set_by tools cr gvk existing
    ])
