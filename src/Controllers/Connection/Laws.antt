-- ===== src/Controllers/Connection/Laws.antt =====
-- The spec that a connection hands to its provider.
use dbaas_operator.Prelude.{
  is_empty, ◌≡◌, ◌≢◌, refl, ◌⊎◌, inl, inr, none, some, arith, eq_iff, Option-cases, Bool-cases,
}
use dbaas_operator.Kube.Errors.{Result-cases, ok}
use dbaas_operator.Api.V1beta1.{DbaasConnectionSpec, NamespacedName, DbaasInstance, DbaasProvider}
use dbaas_operator.Convert.Instance.{ref_key}
use dbaas_operator.Controllers.Client.{Client, Library, Run}
use dbaas_operator.Controllers.Common.Merge.{ready_from_sync-type}
use dbaas_operator.Controllers.Common.Provider.Status.{ResourceLaws}
use dbaas_operator.Controllers.Connection.{
  get_connection_spec, resource, merge_connection_status, use_instance,
}

use_instance_ok :
    (spec spec' : DbaasConnectionSpec) (i : DbaasInstance)
    → use_instance spec (ok i) ≡ ok spec'
    → (i.spec.inventory_ref ≡ spec.inventory_ref)
      × (i.status.instance_id ≢ "")
      × (spec'
          ≡ record spec { database_service_id = i.status.instance_id; database_service_ref = none })
unfolding use_instance
use_instance_ok spec spec' i h = ground (
  arith,
  eq_iff i.status.instance_id "",
  eq_iff i.spec.inventory_ref.name spec.inventory_ref.name,
  eq_iff i.spec.inventory_ref.namespace spec.inventory_ref.namespace,
)

module _ {World : Type 0} (client : Client World) (lib : Library) (provider : DbaasProvider)
    (spec : DbaasConnectionSpec) where
  pub resource_laws : ResourceLaws (resource client lib provider spec)
  unfolding resource merge_connection_status
  resource_laws = record {
    conditions_kept = λ o cs. refl;
    sync_type = λ o p. ready_from_sync-type _ _;
  }

module _ {World : Type 0} (client : Client World) (lib : Library) (spec : DbaasConnectionSpec)
    (s : Run World) where
  -- The spec refers to an instance that is there, of the same inventory, and that has an ID.
  pub record RefersTo (i : DbaasInstance) : Type 0 where
    pub ref : NamespacedName
    pub has_ref : spec.database_service_ref ≡ some ref
    pub is_named : ref.name ≢ ""
    pub no_type : spec.database_service_type ≡ none
    pub found : (client.get_instance (ref_key ref) s.world).0 ≡ ok i
    pub same_inventory : i.spec.inventory_ref ≡ spec.inventory_ref
    pub has_id : i.status.instance_id ≢ ""

  -- The spec that is got, where one is, names a database service by its ID: it is the spec as it is
  -- if that has an ID, and only then; else it has the ID of the instance of the same inventory that
  -- the spec refers to, in place of the reference.
  pub get_connection_spec_ok :
      (spec' : DbaasConnectionSpec)
      → (get_connection_spec client lib spec s).0 ≡ ok spec'
      → (spec'.database_service_id ≢ "")
        × (((spec.database_service_id ≢ "") × (spec' ≡ spec))
            ⊎ ((spec.database_service_id ≡ "")
                × (i : DbaasInstance) × RefersTo i
                × (spec' ≡ record spec {
                  database_service_id = i.status.instance_id;
                  database_service_ref = none;
                })))
  unfolding get_connection_spec
  get_connection_spec_ok spec' h = elim (Bool-cases (is_empty spec.database_service_id)) [
    | inr e ↦
        let given : spec.database_service_id ≢ "" =
          ground (arith, eq_iff spec.database_service_id "") in
        (ground (arith, eq_iff spec.database_service_id ""), inl (given, ground (arith, spec)))
    | inl e ↦ elim (Option-cases spec.database_service_ref) [
      | inl n ↦ absurd (ground arith)
      | inr (ref, has_ref) ↦ elim (Result-cases (client.get_instance (ref_key ref) s.world).0) [
        | inr (u, q) ↦ absurd (ground arith)
        | inl (i, found) ↦
            let resolved : use_instance spec (ok i) ≡ ok spec' = ground (arith, use_instance) in
            let (same_inventory, has_id, q) = use_instance_ok spec spec' i resolved in
            (
              rw q has_id,
              inr (
                ground (arith, eq_iff spec.database_service_id ""),
                i,
                record {
                  ref = ref;
                  has_ref = has_ref;
                  is_named = ground (arith, eq_iff ref.name "");
                  no_type = ground arith;
                  found = found;
                  same_inventory = same_inventory;
                  has_id = has_id;
                },
                q,
              ),
            )
      ]
    ]
  ]

  -- A reference to an instance of the same inventory that has an ID is resolved, if the spec names
  -- no service by its ID.
  pub get_connection_spec_resolves :
      (i : DbaasInstance)
      → spec.database_service_id ≡ ""
      → RefersTo i
      → (get_connection_spec client lib spec s).0
        ≡ ok (record spec {
          database_service_id = i.status.instance_id;
          database_service_ref = none;
        })
  unfolding get_connection_spec
  get_connection_spec_resolves i no_id r = ground (
    arith,
    r.has_ref,
    r.no_type,
    r.found,
    r.same_inventory,
    eq_iff r.ref.name "",
    eq_iff i.status.instance_id "",
    eq_iff spec.database_service_id "",
    eq_iff i.spec.inventory_ref.name spec.inventory_ref.name,
    eq_iff i.spec.inventory_ref.namespace spec.inventory_ref.namespace,
    r.is_named,
    r.has_id,
  )
