-- ===== src/Controllers/Common/Provider.antt =====
-- `getDBaaSProvider`, `createProviderObject`, `providerObjectMutateFn`, `reconcileProviderResource`,
-- `getProviderSpecStatusVersion`, and `GetDBaaSAPIGroupVersion` of
-- api/v1beta1/dbaasprovider_webhook.go.
pub mod Laws
pub mod Status
use dbaas_operator.Prelude.{
  String, Bool, true, false, not, ◌&&◌, Option, none, some, List, [], ◌==◌, if◌then◌else◌, is_empty,
}
use dbaas_operator.Kube.{GroupVersion, ObjectMeta, OwnerReference}
use dbaas_operator.Kube.Conditions.{Condition, condition_false}
use dbaas_operator.Kube.Errors.{
  Error, message, is_not_found, is_conflict, Result, ok, err, ◌>>=◌ as result_bind,
}
use dbaas_operator.Api.V1alpha1
use dbaas_operator.Api.V1beta1
use dbaas_operator.Api.V1beta1.{DbaasProvider}
use dbaas_operator.Controllers.Client.{
  CtrlResult, done, requeued, Object, ProviderSpec, ProviderKey, Unstructured, MutateFn, Call,
  update_status, create_or_update, Client, Library, Action, pure, ◌>>=◌, read, write, submit,
}

module _ (lib : Library) where
  unfoldable pub get_dbaas_api_group_version : DbaasProvider → GroupVersion
  get_dbaas_api_group_version r =
      if is_empty r.spec.group_version
      then V1alpha1.group_version
      else elim (lib.parse_group_version r.spec.group_version) [
        | some gv ↦ gv
        | none ↦ V1alpha1.group_version
      ]

  unfoldable pub get_provider_spec_status_version : DbaasProvider → GroupVersion
  get_provider_spec_status_version provider =
      if (lib.group_version_string (get_dbaas_api_group_version provider)
          == lib.group_version_string V1alpha1.group_version)
        && not (provider.meta.name == V1beta1.rds_registration)
      then V1alpha1.group_version
      else V1beta1.group_version

  -- The test that the reconcilers make on that version.
  unfoldable pub speaks_alpha : DbaasProvider → Bool
  speaks_alpha provider =
      lib.group_version_string (get_provider_spec_status_version provider)
      == lib.group_version_string V1alpha1.group_version

  abbrev pub set_owner : Unstructured → Result (List OwnerReference) → Result Unstructured
  set_owner u (err e) = err e
  set_owner u (ok refs) = ok (record u { owner_references = refs })

  unfoldable pub provider_object_mutate_fn : Object → ProviderSpec → MutateFn
  provider_object_mutate_fn object spec u =
      let u' = record u { spec = some spec; owner_references = [] } in
      set_owner u' (lib.set_controller_reference object [])

-- What `reconcileProviderResource` is told about the object, and the functions that it is given.
-- `P` is the type of the provider's object once it is parsed.
pub record Resource (World Obj P : Type 0) : Type 0 where
  pub object_of : Obj → Object
  pub meta_of : Obj → ObjectMeta
  pub conditions_of : Obj → List Condition
  pub with_conditions : Obj → List Condition → Obj
  pub ready_type : String
  pub kind_of : DbaasProvider → String
  pub spec_of : Action World ProviderSpec
  pub parse : Unstructured → Result P
  pub sync_status : Obj → P → Obj × Condition

-- What the body of `reconcileProviderResource` leaves to the deferred function.
pub record Attempt (Obj : Type 0) : Type 0 where
  pub object : Obj
  pub condition : Condition
  pub result : CtrlResult
  pub error : Option Error

module _ {World Obj P : Type 0} (client : Client World) (lib : Library)
    (res : Resource World Obj P) where
  abbrev pub not_true : String → String → Condition
  not_true reason text = record {
    type = res.ready_type;
    status = condition_false;
    reason = reason;
    message = text;
  }

  unfoldable pub initial_condition : Obj → Condition
  initial_condition obj =
      elim (lib.meta.find_status_condition (res.conditions_of obj) res.ready_type) [
        | some c ↦ c
        | none ↦
            not_true V1beta1.provider_reconcile_inprogress
              V1beta1.msg_provider_cr_reconcile_in_progress
      ]

  -- The deferred function: the status is written whatever happened before.
  unfoldable pub sync_deferred : Attempt Obj → Action World (CtrlResult × Option Error)
  sync_deferred a = do
    e ← submit client (
        update_status (
          res.object_of (
            res.with_conditions a.object
              (lib.meta.set_status_condition (res.conditions_of a.object) a.condition))))
    pure (elim e [
      | none ↦ (a.result, a.error)
      | some u ↦
          if is_conflict u
          then (requeued, a.error)
          else (a.result, elim a.error [ none ↦ some u | some e' ↦ some e' ])
    ])

  unfoldable pub create_provider_object : Obj → DbaasProvider → ProviderKey
  create_provider_object obj provider = record {
    group_version = get_dbaas_api_group_version lib provider;
    kind = res.kind_of provider;
    namespace = (res.meta_of obj).namespace;
    name = (res.meta_of obj).name;
  }

  -- From the answer of `parseProviderObject` on.
  unfoldable pub parsed : Obj → Result P → Attempt Obj
  parsed obj (err e) = record {
    object = obj;
    condition = not_true V1beta1.provider_parsing_error (message e);
    result = done;
    error = some e;
  }
  parsed obj (ok p) =
      let (obj', c) = res.sync_status obj p in
      record { object = obj'; condition = c; result = done; error = none }

  -- From the answer of `CreateOrUpdate` on.
  unfoldable pub applied : Obj → Condition → Result Unstructured → Attempt Obj
  unfolding parsed
  applied obj c (err e) =
      if is_conflict e
      then record { object = obj; condition = c; result = requeued; error = none }
      else record {
        object = obj;
        condition = not_true V1beta1.provider_reconcile_error (message e);
        result = done;
        error = some e;
      }
  applied obj c (ok u) = parsed obj (res.parse u)

  -- From the answer of `getDBaaSProvider` on.
  unfoldable pub attempt : Obj → Condition → Result DbaasProvider → Action World (Attempt Obj)
  unfolding applied
  attempt obj c (err e) = pure (record {
    object = obj;
    condition = if is_not_found e then not_true V1beta1.dbaas_provider_not_found (message e) else c;
    result = done;
    error = some e;
  })
  attempt obj c (ok provider) = do
    spec ← res.spec_of
    let key = create_provider_object obj provider
    let mutate = provider_object_mutate_fn lib (res.object_of obj) spec
    u ← write (create_or_update key mutate) (client.provider_object key mutate)
    pure (applied obj c u)

  unfoldable pub reconcile_provider_resource :
      String → Obj → Action World (CtrlResult × Option Error)
  unfolding sync_deferred attempt
  reconcile_provider_resource provider_name obj = do
    provider ← read (client.get_provider provider_name)
    a ← attempt obj (initial_condition obj) provider
    sync_deferred a
