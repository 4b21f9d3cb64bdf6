-- ===== src/Controllers/Common/Provider/Status.antt =====
-- A reconciliation with a provider always writes the status, and never invents that it is ready.
use mathlib.Core.Path.{subst}
use dbaas_operator.Prelude.{
  String, ◌≡◌, ◌⊎◌, refl, inl, inr, true, some, List, ◌∷◌, arith, Option-cases,
}
use dbaas_operator.Kube.Conditions.{Condition, is_true, MetaLaws}
use dbaas_operator.Kube.Errors.{Result-cases, ok}
use dbaas_operator.Api.V1beta1.{DbaasProvider}
use dbaas_operator.Controllers.Client.{Unstructured, Call, update_status, Client, Library, Run}
use dbaas_operator.Controllers.Common.Provider.{
  Resource, Attempt, initial_condition, attempt, reconcile_provider_resource,
}
use dbaas_operator.Controllers.Common.Provider.Laws.{calls_after, got_provider, apply_run}

-- What the reconcilers pass: setters that set, and a sync that answers with the ready condition.
pub record ResourceLaws {World Obj P : Type 0} (res : Resource World Obj P) : Type 0 where
  pub conditions_kept :
      (o : Obj) (cs : List Condition) → res.conditions_of (res.with_conditions o cs) ≡ cs
  pub sync_type : (o : Obj) (p : P) → (res.sync_status o p).1.type ≡ res.ready_type

module _ {World Obj P : Type 0} (client : Client World) (lib : Library) (res : Resource World Obj P)
    (provider_name : String) (obj : Obj) (s : Run World) (meta_laws : MetaLaws lib.meta)
    (res_laws : ResourceLaws res) where
  attempted : Attempt Obj × Run World
  attempted =
      let got = got_provider client lib res provider_name obj s in
      attempt client lib res obj (initial_condition client lib res obj) got.0
        (record { world = got.1; calls = s.calls })

  abbrev pub FoundBefore : Condition → Type 0
  FoundBefore c = lib.meta.find_status_condition (res.conditions_of obj) res.ready_type ≡ some c

  -- The condition is what the provider's object gave, once it was applied and parsed.
  pub record FromProvider (c : Condition) : Type 0 where
    pub provider : DbaasProvider
    pub has_provider : (got_provider client lib res provider_name obj s).0 ≡ ok provider
    pub provider_object : Unstructured
    pub was_applied : (apply_run client lib res provider_name obj s provider).0 ≡ ok provider_object
    pub content : P
    pub was_parsed : res.parse provider_object ≡ ok content
    pub given : c ≡ (res.sync_status obj content).1

  initial-type : (initial_condition client lib res obj).type ≡ res.ready_type
  unfolding initial_condition
  initial-type =
      elim (Option-cases (lib.meta.find_status_condition (res.conditions_of obj) res.ready_type)) [
        | inl e ↦ ground arith
        | inr (c, e) ↦ ground (arith, meta_laws.find-type _ _ c e)
      ]

  attempted-type : attempted.0.condition.type ≡ res.ready_type
  unfolding attempted attempt
  attempted-type = elim (Result-cases (got_provider client lib res provider_name obj s).0) [
    | inr (e, q) ↦ ground (arith, initial-type)
    | inl (provider, has_provider) ↦
        elim (Result-cases (apply_run client lib res provider_name obj s provider).0) [
          | inr (e, q) ↦ ground (arith, initial-type)
          | inl (u, applied) ↦ elim (Result-cases (res.parse u)) [
            | inr (e, q) ↦ ground arith
            | inl (p, parsed) ↦ ground (arith, res_laws.sync_type obj p)
          ]
        ]
  ]

  attempted-true :
      is_true attempted.0.condition.status ≡ true
      → FromProvider attempted.0.condition ⊎ FoundBefore attempted.0.condition
  unfolding attempted attempt initial_condition
  attempted-true t = elim (Result-cases (got_provider client lib res provider_name obj s).0) [
    | inr (e, q) ↦ inr (ground arith)
    | inl (provider, has_provider) ↦
        elim (Result-cases (apply_run client lib res provider_name obj s provider).0) [
          | inr (e, q) ↦ inr (ground arith)
          | inl (u, applied) ↦ elim (Result-cases (res.parse u)) [
            | inr (e, q) ↦ absurd (ground arith)
            | inl (p, parsed) ↦ inl (record {
              provider = provider;
              has_provider = has_provider;
              provider_object = u;
              was_applied = applied;
              content = p;
              was_parsed = parsed;
              given = ground arith;
            })
          ]
        ]
  ]

  -- The last call of every reconciliation with a provider, failed or not, writes the status of the
  -- object with a ready condition; if that condition is true, it is what the provider's object gave
  -- in this reconciliation, or what the object had before. Conditions are set and found as
  -- documented, and the resource's setters set.
  pub status_always_written :
      (o : Obj) × (c : Condition) × (earlier : List Call) × (calls_after client lib res
          provider_name obj s
        ≡ update_status (res.object_of o) ∷ earlier)
      × (lib.meta.find_status_condition (res.conditions_of o) res.ready_type ≡ some c)
      × (is_true c.status ≡ true → FromProvider c ⊎ FoundBefore c)
  unfolding reconcile_provider_resource attempted
  status_always_written =
      let a = attempted.0 in
      let cs = lib.meta.set_status_condition (res.conditions_of a.object) a.condition in
      (
        res.with_conditions a.object cs,
        a.condition,
        attempted.1.calls,
        refl,
        rw (res_laws.conditions_kept a.object cs) (
            subst (λ t. lib.meta.find_status_condition cs t ≡ some a.condition) attempted-type
              (meta_laws.find-set (res.conditions_of a.object) a.condition)),
        attempted-true,
      )
