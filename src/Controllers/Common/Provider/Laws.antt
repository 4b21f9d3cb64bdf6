-- ===== src/Controllers/Common/Provider/Laws.antt =====
-- What a reconciliation with a provider writes, and when it succeeds.
use dbaas_operator.Prelude.{
  String, ◌≡◌, refl, ◌≢◌, ◌↔◌, inl, inr, true, Option, none, some, List, [], ◌∷◌, arith, eq_iff,
}
use dbaas_operator.Kube.Conditions.{Condition}
use dbaas_operator.Kube.Errors.{Error, Result, Result-cases, ok}
use dbaas_operator.Api.V1alpha1
use dbaas_operator.Api.V1beta1
use dbaas_operator.Api.V1beta1.{DbaasProvider}
use dbaas_operator.Controllers.Client.{
  CtrlResult, MutateFn, ProviderKey, done, Object, ProviderSpec, Unstructured, Call, update_status,
  create_or_update, Client, Library, Run,
}
use dbaas_operator.Controllers.Common.Provider.{
  get_dbaas_api_group_version, get_provider_spec_status_version, speaks_alpha,
  provider_object_mutate_fn, Resource, create_provider_object, reconcile_provider_resource,
}

-- The mutation of a provider's object, where it succeeds, sets its spec and makes the operator's
-- object its one owner and controller, whatever it held before; the rest is kept. So a second
-- mutation changes nothing.
pub mutate_idempotent :
    (lib : Library) (object : Object) (spec : ProviderSpec) (u u' : Unstructured)
    → provider_object_mutate_fn lib object spec u ≡ ok u'
    → (u'.spec ≡ some spec)
      × (lib.set_controller_reference object [] ≡ ok u'.owner_references)
      × (u'.key ≡ u.key)
      × (u'.content ≡ u.content)
      × (provider_object_mutate_fn lib object spec u' ≡ ok u')
unfolding provider_object_mutate_fn
mutate_idempotent lib object spec u u' h = ground arith

-- The provider is spoken to in v1alpha1 exactly if its API version is v1alpha1, in writing, and it is not the
-- RDS provider.
pub speaks_alpha_iff :
    (lib : Library) (provider : DbaasProvider)
    → lib.group_version_string V1beta1.group_version
      ≢ lib.group_version_string V1alpha1.group_version
    → (speaks_alpha lib provider ≡ true) ↔ (
        (lib.group_version_string (get_dbaas_api_group_version lib provider)
          ≡ lib.group_version_string V1alpha1.group_version)
        × (provider.meta.name ≢ V1beta1.rds_registration))
unfolding speaks_alpha get_provider_spec_status_version
speaks_alpha_iff lib provider ne = ground (
  arith,
  eq_iff (lib.group_version_string (get_dbaas_api_group_version lib provider))
      (lib.group_version_string V1alpha1.group_version),
  eq_iff (lib.group_version_string V1beta1.group_version)
      (lib.group_version_string V1alpha1.group_version),
  eq_iff (lib.group_version_string V1alpha1.group_version)
      (lib.group_version_string V1alpha1.group_version),
  eq_iff provider.meta.name V1beta1.rds_registration,
)

module _ {World Obj P : Type 0} (client : Client World) (lib : Library) (res : Resource World Obj P)
    (provider_name : String) (obj : Obj) (s : Run World) where
  abbrev pub outcome : CtrlResult × Option Error
  outcome = (reconcile_provider_resource client lib res provider_name obj s).0

  abbrev pub calls_after : List Call
  calls_after = (reconcile_provider_resource client lib res provider_name obj s).1.calls

  abbrev pub got_provider : Result DbaasProvider × World
  got_provider = client.get_provider provider_name s.world

  -- The spec for the provider's object, and the state in which the object is written.
  abbrev pub spec_run : ProviderSpec × Run World
  spec_run = res.spec_of (record { world = got_provider.1; calls = s.calls })

  abbrev pub apply_call : DbaasProvider → Call
  apply_call provider =
      create_or_update (create_provider_object client lib res obj provider)
        (provider_object_mutate_fn lib (res.object_of obj) spec_run.0)

  abbrev pub apply_run : DbaasProvider → Result Unstructured × World
  apply_run provider =
      client.provider_object (create_provider_object client lib res obj provider)
        (provider_object_mutate_fn lib (res.object_of obj) spec_run.0) spec_run.1.world

  -- The object with a condition set, as its status is submitted.
  abbrev pub submitted : Obj × Condition → Call
  submitted (o, c) = update_status (
      res.object_of (res.with_conditions o (lib.meta.set_status_condition (res.conditions_of o) c)))

  -- The provider is there, its object was created or brought up to date and could be parsed, and
  -- the status that the object gives was written.
  pub record Succeeds : Type 0 where
    pub provider : DbaasProvider
    pub has_provider : got_provider.0 ≡ ok provider
    pub provider_object : Unstructured
    pub was_applied : (apply_run provider).0 ≡ ok provider_object
    pub content : P
    pub was_parsed : res.parse provider_object ≡ ok content
    pub was_written :
        (client.write (submitted (res.sync_status obj content)) (apply_run provider).1).0 ≡ none

  success_calls :
      (ok_run : Succeeds)
      → (outcome ≡ (done, none))
        × (calls_after
            ≡ submitted (res.sync_status obj ok_run.content)
              ∷ apply_call ok_run.provider
              ∷ spec_run.1.calls)
  unfolding reconcile_provider_resource
  success_calls o = ground (arith, o.has_provider, o.was_applied, o.was_parsed, o.was_written)

  success_of_outcome : outcome ≡ (done, none) → Succeeds
  unfolding reconcile_provider_resource
  success_of_outcome e = elim (Result-cases got_provider.0) [
    | inr (u, q) ↦ absurd (ground arith)
    | inl (provider, has_provider) ↦ elim (Result-cases (apply_run provider).0) [
      | inr (u, q) ↦ absurd (ground arith)
      | inl (u, was_applied) ↦ elim (Result-cases (res.parse u)) [
        | inr (e', q) ↦ absurd (ground arith)
        | inl (p, was_parsed) ↦ record {
          provider = provider;
          has_provider = has_provider;
          provider_object = u;
          was_applied = was_applied;
          content = p;
          was_parsed = was_parsed;
          was_written = ground arith;
        }
      ]
    ]
  ]

  -- A reconciliation with a provider ends with no error and no retry exactly if every step
  -- succeeded.
  pub reconcile_succeeds_iff : (outcome ≡ (done, none)) ↔ Succeeds
  reconcile_succeeds_iff = (success_of_outcome, λ o. (success_calls o).0)

  -- What a reconciliation writes: an object of the kind and the API version of the provider that was
  -- read, with the name and the namespace of `obj`, which is given the spec and has `obj` as its one
  -- owner and keeps the rest; and then the status of `obj` that this object gave.
  pub record Written : Type 0 where
    pub provider : DbaasProvider
    pub is_provider : got_provider.0 ≡ ok provider
    pub key : ProviderKey
    pub has_name : key.name ≡ (res.meta_of obj).name
    pub has_namespace : key.namespace ≡ (res.meta_of obj).namespace
    pub has_kind : key.kind ≡ res.kind_of provider
    pub has_version : key.group_version ≡ get_dbaas_api_group_version lib provider
    pub mutate : MutateFn
    pub mutated :
        (u u' : Unstructured)
        → mutate u ≡ ok u'
        → (u'.spec ≡ some spec_run.0)
          × (lib.set_controller_reference (res.object_of obj) [] ≡ ok u'.owner_references)
          × (u'.key ≡ u.key)
          × (u'.content ≡ u.content)
    pub object : Unstructured
    pub was_applied : (client.provider_object key mutate spec_run.1.world).0 ≡ ok object
    pub content : P
    pub was_parsed : res.parse object ≡ ok content
    pub calls :
        calls_after
        ≡ submitted (res.sync_status obj content) ∷ create_or_update key mutate ∷ spec_run.1.calls

  -- A reconciliation that ends with no error and no retry has written, after what the making of the
  -- spec wrote, the provider's object and then the status. The object is of the kind and the API
  -- version of the provider that was read and has the object's name and namespace; writing it sets
  -- its spec and makes the object its one owner, and keeps the rest. The status is the one that the
  -- provider's object gave as the API server answered it.
  pub reconcile_success_calls : outcome ≡ (done, none) → Written
  unfolding create_provider_object
  reconcile_success_calls e =
      let o = success_of_outcome e in
      let object = res.object_of obj in
      record {
        provider = o.provider;
        is_provider = o.has_provider;
        key = create_provider_object client lib res obj o.provider;
        has_name = refl;
        has_namespace = refl;
        has_kind = refl;
        has_version = refl;
        mutate = provider_object_mutate_fn lib object spec_run.0;
        mutated = λ u u' h.
            let m = mutate_idempotent lib object spec_run.0 u u' h in (m.0, m.1, m.2, m.3);
        object = o.provider_object;
        was_applied = o.was_applied;
        content = o.content;
        was_parsed = o.was_parsed;
        calls = (success_calls o).1;
      }
