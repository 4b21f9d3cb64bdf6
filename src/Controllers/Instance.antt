-- ===== src/Controllers/Instance.antt =====
-- controllers/dbaasinstance_controller.go. `webhook_client` is `v1beta1.WebhookAPIClient`, which the
-- conversion to v1alpha1 reads through. Metrics and logging are left out.
pub mod Laws
use dbaas_operator.Prelude.{
  String, Bool, true, false, not, Option, none, some, if◌then◌else◌, is_empty,
}
use dbaas_operator.Kube.{ObjectKey}
use dbaas_operator.Kube.Conditions.{Condition, condition_false}
use dbaas_operator.Kube.Errors.{Error, is_not_found, Result, ok, err}
use dbaas_operator.Api.V1alpha1
use dbaas_operator.Api.V1beta1
use dbaas_operator.Api.V1beta1.{DbaasInstance, DbaasInventory, DbaasProvider}
use dbaas_operator.Convert.Instance.{spec_convert_from, status_convert_to}
use dbaas_operator.Controllers.Client.{
  Outcome, done, instance_object, ProviderSpec, instance_alpha, instance_beta, Unstructured, Client,
  Library, Action, pure, ◌>>=◌, read,
}
use dbaas_operator.Controllers.Common.Check.{Subject, Checked, check_inventory}
use dbaas_operator.Controllers.Common.Merge.{ready_from_sync}
use dbaas_operator.Controllers.Common.Provider.{speaks_alpha, Resource, reconcile_provider_resource}

-- The provider's instance, in the version that was asked for.
pub data ProviderInstance : Type 0 where
  alpha : V1alpha1.DbaasProviderInstance → ProviderInstance
  beta : V1beta1.DbaasProviderInstance → ProviderInstance

abbrev pub status_of : ProviderInstance → V1beta1.DbaasInstanceStatus
unfolding status_convert_to
status_of (alpha p) = status_convert_to p.status
status_of (beta p) = p.status

abbrev pub not_ready_condition : String → String → Condition
not_ready_condition reason text = record {
  type = V1beta1.dbaas_instance_ready_type;
  status = condition_false;
  reason = reason;
  message = text;
}

abbrev pub phase_or_unknown : String → String
phase_or_unknown phase = if is_empty phase then V1beta1.instance_phase_unknown else phase

module _ {World : Type 0} (client : Client World) (lib : Library)
    (webhook_client : World → Option (ObjectKey → Result DbaasInventory)) where
  -- `statusErrorFn`: the condition, and the phase.
  abbrev pub with_error : DbaasInstance → String → String → DbaasInstance
  with_error i reason text = record i {
    status = record i.status {
      conditions =
          lib.meta.set_status_condition i.status.conditions (not_ready_condition reason text);
      phase = V1beta1.instance_phase_error;
    };
  }

  unfoldable pub merge_instance_status :
      DbaasInstance → V1beta1.DbaasInstanceStatus → DbaasInstance × Condition
  merge_instance_status i status = (
    record i { status = record status { phase = phase_or_unknown status.phase } },
    ready_from_sync V1beta1.dbaas_instance_ready_type (
        lib.meta.find_status_condition status.conditions V1beta1.dbaas_instance_provider_sync_type),
  )

  abbrev parse_alpha : Result V1alpha1.DbaasProviderInstance → Result ProviderInstance
  parse_alpha (ok p) = ok (alpha p)
  parse_alpha (err e) = err e

  abbrev parse_beta : Result V1beta1.DbaasProviderInstance → Result ProviderInstance
  parse_beta (ok p) = ok (beta p)
  parse_beta (err e) = err e

  -- What `Reconcile` passes to `checkInventory`.
  abbrev pub subject : Subject DbaasInstance
  subject = record {
    object_of = instance_object;
    namespace_of = λ i. i.meta.namespace;
    status_error = with_error;
    is_instance = true;
  }

  -- The spec's `ConvertFrom`, through the webhook client.
  unfoldable pub convert_spec :
      DbaasInstance → Action World (V1alpha1.DbaasInstanceSpec × Option Error)
  convert_spec i = read (λ w. (spec_convert_from (webhook_client w) i.spec, w))

  -- The spec for the provider's object: an error in the conversion is logged, and what was
  -- converted before it is used.
  unfoldable pub spec_for : DbaasProvider → DbaasInstance → Action World ProviderSpec
  unfolding convert_spec
  spec_for provider i =
      if speaks_alpha lib provider
      then (do converted ← convert_spec i; pure (instance_alpha converted.0))
      else pure (instance_beta i.spec)

  -- What `Reconcile` passes to `reconcileProviderResource`.
  unfoldable pub resource :
      DbaasProvider → DbaasInstance → Resource World DbaasInstance ProviderInstance
  unfolding spec_for
  resource provider inst = record {
    object_of = instance_object;
    meta_of = λ i. i.meta;
    conditions_of = λ i. i.status.conditions;
    with_conditions = λ i cs. record i { status = record i.status { conditions = cs } };
    ready_type = V1beta1.dbaas_instance_ready_type;
    kind_of = λ p. p.spec.instance_kind;
    spec_of = spec_for provider inst;
    parse = λ u.
        if speaks_alpha lib provider
        then parse_alpha (lib.parse_instance_alpha u)
        else parse_beta (lib.parse_instance_beta u);
    sync_status = λ i p. merge_instance_status i (status_of p);
  }

  -- From the first conversion of the spec on.
  unfoldable pub converted :
      DbaasInventory → DbaasInstance → DbaasProvider → Option Error → Action World Outcome
  unfolding reconcile_provider_resource
  converted inv i provider (some e) = pure (done, some e)
  converted inv i provider none =
      reconcile_provider_resource client lib (resource provider i) inv.spec.provider_ref.name i

  -- From the answer of `getDBaaSProvider` on.
  unfoldable pub with_provider :
      DbaasInventory → DbaasInstance → Result DbaasProvider → Action World Outcome
  unfolding converted convert_spec
  with_provider inv i (err e) = pure (done, some e)
  with_provider inv i (ok provider) =
      if speaks_alpha lib provider
      then (do c ← convert_spec i; converted inv i provider c.1)
      else converted inv i provider none

  -- From the answer of `checkInventory` on. An inventory that is let through has been read.
  unfoldable pub checked : Checked DbaasInstance → Action World Outcome
  unfolding with_provider
  checked c = elim c.error [
    | some e ↦ pure (done, some e)
    | none ↦
        if not c.valid_ns
        then pure (done, none)
        else if not c.provision
        then pure (done, none)
        else elim c.inventory [
          | none ↦ pure (done, none)
          | some inv ↦ (do
            provider ← read (client.get_provider inv.spec.provider_ref.name)
            with_provider inv c.object provider)
        ]
  ]

  unfoldable pub with_instance : Result DbaasInstance → Action World Outcome
  unfolding checked check_inventory
  with_instance (err e) = pure (done, if is_not_found e then none else some e)
  with_instance (ok i) = do c ← check_inventory client lib subject i.spec.inventory_ref i; checked c

  unfoldable pub reconcile : ObjectKey → Action World Outcome
  unfolding with_instance
  reconcile req = do i ← read (client.get_instance req); with_instance i
