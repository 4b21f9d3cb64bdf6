-- ===== src/Controllers/Connection.antt =====
-- controllers/dbaasconnection_controller.go. The mutation of the deployment is in `Deployment`, its
-- application one call here; metrics and logging are left out.
pub mod Deployment
pub mod Laws
use dbaas_operator.Prelude.{
  String, Bool, true, false, not, ◌||◌, Option, none, some, ◌==◌, if◌then◌else◌, ◌+++◌, is_empty,
}
use dbaas_operator.Kube.{ObjectKey}
use dbaas_operator.Kube.Conditions.{Condition, condition_false}
use dbaas_operator.Kube.Errors.{Error, other, message, is_not_found, is_conflict, Result, ok, err}
use dbaas_operator.Api.V1alpha1
use dbaas_operator.Api.V1beta1
use dbaas_operator.Api.V1beta1.{
  NamespacedName, DbaasConnection, DbaasConnectionSpec, DbaasInstance, DbaasInventory,
  DbaasProvider,
}
use dbaas_operator.Convert.Connection.{spec_convert_from, status_convert_to}
use dbaas_operator.Convert.Instance.{ref_key}
use dbaas_operator.Controllers.Client.{
  Outcome, done, requeued, connection, connection_alpha, connection_beta, Unstructured,
  update_status, create_or_update_deployment, Client, Library, Action, pure, ◌>>=◌, read, submit,
}
use dbaas_operator.Controllers.Common.Check.{Subject, Checked, check_inventory}
use dbaas_operator.Controllers.Common.Merge.{ready_from_sync}
use dbaas_operator.Controllers.Common.Provider.{speaks_alpha, Resource, reconcile_provider_resource}

-- The provider's connection, in the version that was asked for.
pub data ProviderConnection : Type 0 where
  alpha : V1alpha1.DbaasProviderConnection → ProviderConnection
  beta : V1beta1.DbaasProviderConnection → ProviderConnection

abbrev pub status_of : ProviderConnection → V1beta1.DbaasConnectionStatus
unfolding status_convert_to
status_of (alpha p) = status_convert_to p.status
status_of (beta p) = p.status

abbrev pub not_ready_condition : String → String → Condition
not_ready_condition reason text = record {
  type = V1beta1.dbaas_connection_ready_type;
  status = condition_false;
  reason = reason;
  message = text;
}

-- `instance.Spec.InventoryRef` and `spec.InventoryRef` differ.
abbrev pub differs : NamespacedName → NamespacedName → Bool
differs r r' = not (r.namespace == r'.namespace) || not (r.name == r'.name)

-- From the answer of `Get` on the instance on.
unfoldable pub use_instance :
    DbaasConnectionSpec → Result DbaasInstance → Result DbaasConnectionSpec
use_instance spec (err e) = err (other "cannot read the instance reference")
use_instance spec (ok i) =
    if differs i.spec.inventory_ref spec.inventory_ref
    then err (other "instance and connection don't use the same inventory reference")
    else if is_empty i.status.instance_id
    then err (other "instance ID is not available")
    else ok
        (record spec { database_service_id = i.status.instance_id; database_service_ref = none })

module _ {World : Type 0} (client : Client World) (lib : Library) where
  abbrev pub with_condition : DbaasConnection → Condition → DbaasConnection
  with_condition conn c = record conn {
    status = record conn.status {
      conditions = lib.meta.set_status_condition conn.status.conditions c;
    };
  }

  unfoldable pub merge_connection_status :
      DbaasConnection → V1beta1.DbaasConnectionStatus → DbaasConnection × Condition
  merge_connection_status conn status = (
    record conn { status = status },
    ready_from_sync V1beta1.dbaas_connection_ready_type (
        lib.meta.find_status_condition status.conditions
          V1beta1.dbaas_connection_provider_sync_type),
  )

  abbrev parse_alpha : Result V1alpha1.DbaasProviderConnection → Result ProviderConnection
  parse_alpha (ok p) = ok (alpha p)
  parse_alpha (err e) = err e

  abbrev parse_beta : Result V1beta1.DbaasProviderConnection → Result ProviderConnection
  parse_beta (ok p) = ok (beta p)
  parse_beta (err e) = err e

  -- What `Reconcile` passes to `checkInventory`.
  abbrev pub subject : Subject DbaasConnection
  subject = record {
    object_of = connection;
    namespace_of = λ conn. conn.meta.namespace;
    status_error = λ conn reason text. with_condition conn (not_ready_condition reason text);
    is_instance = false;
  }

  -- What `Reconcile` passes to `reconcileProviderResource`.
  unfoldable pub resource :
      DbaasProvider → DbaasConnectionSpec → Resource World DbaasConnection ProviderConnection
  resource provider spec = record {
    object_of = connection;
    meta_of = λ conn. conn.meta;
    conditions_of = λ conn. conn.status.conditions;
    with_conditions = λ conn cs. record conn { status = record conn.status { conditions = cs } };
    ready_type = V1beta1.dbaas_connection_ready_type;
    kind_of = λ p. p.spec.connection_kind;
    spec_of = pure (
        if speaks_alpha lib provider
        then connection_alpha (spec_convert_from spec)
        else connection_beta spec);
    parse = λ u.
        if speaks_alpha lib provider
        then parse_alpha (lib.parse_connection_alpha u)
        else parse_beta (lib.parse_connection_beta u);
    sync_status = λ conn p. merge_connection_status conn (status_of p);
  }

  -- An error in writing the status is logged and dropped.
  unfoldable pub update_connection_status :
      DbaasConnection → Condition → Action World (Option Error)
  update_connection_status conn c =
      submit client (update_status (connection (with_condition conn c)))

  -- `getConnectionSpec` with a service reference whose name is not empty.
  unfoldable pub spec_of_ref :
      DbaasConnectionSpec
      → NamespacedName
      → Option String
      → Action World (Result DbaasConnectionSpec)
  unfolding use_instance
  spec_of_ref spec ref none = do
    i ← read (client.get_instance (ref_key ref))
    pure (use_instance spec i)
  spec_of_ref spec ref (some type) = pure (
      err (
        other (
          "using database service reference of type "
          +++ lib.show_pointer type
          +++ " is not supported")))

  abbrev not_set : Error
  not_set = other "database service reference is not properly set"

  unfoldable pub get_connection_spec :
      DbaasConnectionSpec → Action World (Result DbaasConnectionSpec)
  unfolding spec_of_ref
  get_connection_spec spec =
      if not (is_empty spec.database_service_id)
      then pure (ok spec)
      else elim spec.database_service_ref [
        | none ↦ pure (err not_set)
        | some ref ↦
            if is_empty ref.name
            then pure (err not_set)
            else spec_of_ref spec ref spec.database_service_type
      ]

  -- From the answer of `getDBaaSProvider` on.
  unfoldable pub with_provider :
      DbaasInventory
      → DbaasConnection
      → DbaasConnectionSpec
      → Result DbaasProvider
      → Action World Outcome
  unfolding reconcile_provider_resource
  with_provider inv conn spec (err e) = pure (done, some e)
  with_provider inv conn spec (ok provider) =
      reconcile_provider_resource client lib (resource provider spec) inv.spec.provider_ref.name
        conn

  -- From the answer of `getConnectionSpec` on.
  unfoldable pub with_spec :
      DbaasInventory → DbaasConnection → Result DbaasConnectionSpec → Action World Outcome
  unfolding with_provider update_connection_status
  with_spec inv conn (err e) = do
    u ←
        update_connection_status conn
          (not_ready_condition V1beta1.dbaas_service_not_available (message e))
    pure (done, some e)
  with_spec inv conn (ok spec) = do
    provider ← read (client.get_provider inv.spec.provider_ref.name)
    with_provider inv conn spec provider

  -- From the answer of `checkInventory` on. An inventory that is let through has been read.
  unfoldable pub checked : Checked DbaasConnection → Action World Outcome
  unfolding with_spec get_connection_spec
  checked c = elim c.error [
    | some e ↦ pure (done, some e)
    | none ↦ if not c.valid_ns then pure (done, none) else elim c.inventory [
      | none ↦ pure (done, none)
      | some inv ↦ (do spec ← get_connection_spec c.object.spec; with_spec inv c.object spec)
    ]
  ]

  -- From the answer of `reconcileDevTopologyResource` on.
  unfoldable pub deployed : DbaasConnection → Option Error → Action World Outcome
  unfolding checked check_inventory
  deployed conn (some e) = pure (if is_conflict e then (requeued, none) else (done, some e))
  deployed conn none = do
    c ← check_inventory client lib subject conn.spec.inventory_ref conn
    checked c

  unfoldable pub with_connection : Result DbaasConnection → Action World Outcome
  unfolding deployed
  with_connection (err e) = pure (done, if is_not_found e then none else some e)
  with_connection (ok conn) = do
    e ← submit client (create_or_update_deployment conn)
    deployed conn e

  unfoldable pub reconcile : ObjectKey → Action World Outcome
  unfolding with_connection
  reconcile req = do conn ← read (client.get_connection req); with_connection conn
