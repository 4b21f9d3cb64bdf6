-- ===== src/Controllers/Policy/Unique.antt =====
-- At most one policy of a namespace is active. The API server is taken to answer the calls of one
-- reconciliation from one state: what it lists and gets is there, and a status that was written is
-- there afterwards.
use mathlib.Core.Path.{subst}
use dbaas_operator.Prelude.{
  ap, String, ◌≡◌, refl, ◌∙◌, sym, inl, inr, true, none, some, List, [], ◌∷◌, arith, Option,
  Option-cases, Bool-cases, eq_iff,
}
use dbaas_operator.Kube.{ObjectKey}
use dbaas_operator.Kube.Conditions.{MetaLaws, is_true, has_true}
use dbaas_operator.Kube.Errors.{Error, Result-cases, ok, is_not_found}
use dbaas_operator.Api.V1beta1
use dbaas_operator.Api.V1beta1.{DbaasPolicy}
use dbaas_operator.Controllers.Client.{
  policy, update_status, create_or_update_quota, Client, Library, Run,
}
use dbaas_operator.Controllers.Common.Access.{get_active_policy}
use dbaas_operator.Controllers.Policy.{
  verdict, with_condition, settle, update_status_condition, with_quota, deleted, with_policy,
  with_policies, reconcile,
}
use dbaas_operator.Controllers.Policy.Active.{
  is_active, replace, InNamespace, OnlyActive, AtMostOneActive, none_active, active_name,
  replace-OnlyActive,
}

-- What the reconciler relies on of the API server: a list of the namespace gives its policies, a
-- policy that it gets has the key's namespace, and of the calls that write only the update of a
-- policy's status changes a policy, if it succeeds.
pub record PolicyStore {World : Type 0} (client : Client World) (ns : String)
    (policies : World → List DbaasPolicy) : Type 0 where
  pub listed :
      (w : World) (items : List DbaasPolicy)
      → (client.list_policies ns w).0 ≡ ok items
      → (items ≡ policies w) × InNamespace ns items
  pub list_keeps : (w : World) → policies (client.list_policies ns w).1 ≡ policies w
  pub got :
      (key : ObjectKey) (w : World) (p : DbaasPolicy)
      → (client.get_policy key w).0 ≡ ok p
      → p.meta.namespace ≡ key.namespace
  pub get_keeps : (key : ObjectKey) (w : World) → policies (client.get_policy key w).1 ≡ policies w
  pub quota_keeps :
      (p : DbaasPolicy) (w : World)
      → policies (client.write (create_or_update_quota p) w).1 ≡ policies w
  pub status_written :
      (p : DbaasPolicy) (w : World)
      → p.meta.namespace ≡ ns
      → (client.write (update_status (policy p)) w).0 ≡ none
      → policies (client.write (update_status (policy p)) w).1 ≡ replace p (policies w)
  pub status_not_written :
      (p : DbaasPolicy) (w : World) (e : Error)
      → (client.write (update_status (policy p)) w).0 ≡ some e
      → policies (client.write (update_status (policy p)) w).1 ≡ policies w

module _ {World : Type 0} (client : Client World) (lib : Library) (meta_laws : MetaLaws lib.meta)
    (ns : String) (policies : World → List DbaasPolicy)
    (store : PolicyStore client ns policies) where
  abbrev pub Unique : World → Type 0
  Unique w = AtMostOneActive lib.meta (policies w)

  verdict-type :
      (active : Option DbaasPolicy) (p : DbaasPolicy)
      → (verdict active p).type ≡ V1beta1.dbaas_policy_ready_type
  unfolding verdict
  verdict-type active p = ground arith

  -- With the condition that `Reconcile` decides on, a policy is active exactly if that is true.
  verdict-is_active :
      (active : Option DbaasPolicy) (p : DbaasPolicy)
      → is_active lib.meta (with_condition client lib p (verdict active p))
        ≡ is_true (verdict active p).status
  verdict-is_active active p =
      let c = verdict active p in
      let cs = p.status.conditions in
      let found : lib.meta.find_status_condition (lib.meta.set_status_condition cs c)
            V1beta1.dbaas_policy_ready_type
          ≡ some c =
        subst (λ t. lib.meta.find_status_condition (lib.meta.set_status_condition cs c) t ≡ some c)
          (verdict-type active p) (meta_laws.find-set cs c) in
      meta_laws.is_true-find _ _ ∙ ap has_true found

  -- Only the policy that is active, if one is, is given the true condition.
  verdict-only :
      (items : List DbaasPolicy) (p : DbaasPolicy)
      → AtMostOneActive lib.meta items
      → (name : String) × OnlyActive lib.meta name items
        × (is_true (verdict (get_active_policy lib.meta items) p).status ≡ true
            → p.meta.name ≡ name)
  unfolding AtMostOneActive verdict
  verdict-only items p (name, only) = elim (Option-cases (get_active_policy lib.meta items)) [
    | inl e ↦ (p.meta.name, none_active lib.meta p.meta.name items e, λ t. refl)
    | inr (a, e) ↦ (
      name,
      only,
      λ t. ground (arith, active_name lib.meta name items a only e, eq_iff a.meta.name p.meta.name),
    )
  ]

  replaced-Unique :
      (items : List DbaasPolicy) (p : DbaasPolicy)
      → AtMostOneActive lib.meta items
      → AtMostOneActive lib.meta (
          replace
            (with_condition client lib p (verdict (get_active_policy lib.meta items) p))
            items)
  unfolding AtMostOneActive
  replaced-Unique items p unique =
      let (name, only, named) = verdict-only items p unique in
      let active = get_active_policy lib.meta items in
      (
        name,
        replace-OnlyActive lib.meta name (with_condition client lib p (verdict active p)) items
            (λ t. named (sym (verdict-is_active active p) ∙ t)) only,
      )

  -- What a write of a policy's status leaves of the policies.
  status_call-Unique :
      (p : DbaasPolicy) (s : Run World)
      → p.meta.namespace ≡ ns
      → AtMostOneActive lib.meta (policies s.world)
      → AtMostOneActive lib.meta (replace p (policies s.world))
      → Unique (client.write (update_status (policy p)) s.world).1
  status_call-Unique p s in_ns before after =
      elim (Option-cases (client.write (update_status (policy p)) s.world).0) [
        | inl e ↦ rw (store.status_written p s.world in_ns e) after
        | inr (u, e) ↦ rw (store.status_not_written p s.world u e) before
      ]

  updated-Unique :
      (items : List DbaasPolicy) (p : DbaasPolicy) (s : Run World)
      → items ≡ policies s.world
      → p.meta.namespace ≡ ns
      → AtMostOneActive lib.meta items
      → Unique
          (update_status_condition client lib p
            (verdict (get_active_policy lib.meta items) p)
            s).1.world
  unfolding update_status_condition
  updated-Unique items p s same in_ns unique =
      let p' = with_condition client lib p (verdict (get_active_policy lib.meta items) p) in
      status_call-Unique p' s in_ns (subst (AtMostOneActive lib.meta) same unique) (
        subst (λ now. AtMostOneActive lib.meta (replace p' now)) same
          (replaced-Unique items p unique))

  settle-Unique :
      (items : List DbaasPolicy) (p : DbaasPolicy) (s : Run World)
      → items ≡ policies s.world
      → p.meta.namespace ≡ ns
      → AtMostOneActive lib.meta items
      → Unique (settle client lib (get_active_policy lib.meta items) p s).1.world
  unfolding settle
  settle-Unique items p s same in_ns unique =
      let c = verdict (get_active_policy lib.meta items) p in
      let quota = client.write (create_or_update_quota p) s.world in
      let s' : Run World = record { world = quota.1; calls = create_or_update_quota p ∷ s.calls } in
      let same' : items ≡ policies quota.1 = same ∙ sym (store.quota_keeps p s.world) in
      elim (Bool-cases (is_true c.status)) [
        | inr e ↦ rw e (updated-Unique items p s same in_ns unique)
        | inl t ↦ elim (Option-cases quota.0) [
          | inl e ↦ rw (t, e, with_quota) (updated-Unique items p s' same' in_ns unique)
          | inr (u, e) ↦ rw (t, e, with_quota) (subst (AtMostOneActive lib.meta) same' unique)
        ]
      ]

  deleted-Unique :
      (items : List DbaasPolicy) (s : Run World)
      → items ≡ policies s.world
      → InNamespace ns items
      → AtMostOneActive lib.meta items
      → Unique (deleted client lib items (get_active_policy lib.meta items) s).1.world
  unfolding deleted InNamespace
  deleted-Unique [] s same all_in unique = subst (AtMostOneActive lib.meta) same unique
  deleted-Unique (first ∷ items) s same all_in unique =
      elim (Option-cases (get_active_policy lib.meta (first ∷ items))) [
        | inl e ↦
            rw (e, deleted)
              (subst (λ active. Unique (settle client lib active first s).1.world) e
                (settle-Unique (first ∷ items) first s same all_in.0 unique))
        | inr (a, e) ↦ rw (e, deleted) (subst (AtMostOneActive lib.meta) same unique)
      ]

  with_policy-Unique :
      (items : List DbaasPolicy) (req : ObjectKey) (s : Run World)
      → req.namespace ≡ ns
      → items ≡ policies s.world
      → InNamespace ns items
      → AtMostOneActive lib.meta items
      → Unique (with_policies client lib req (ok items) s).1.world
  unfolding with_policies with_policy deleted
  with_policy-Unique items req s in_ns same all_in unique =
      let got = client.get_policy req s.world in
      let s' : Run World = record { world = got.1; calls = s.calls } in
      let same' : items ≡ policies got.1 = same ∙ sym (store.get_keeps req s.world) in
      let kept : Unique got.1 = subst (AtMostOneActive lib.meta) same' unique in
      elim (Result-cases got.0) [
        | inl (p, e) ↦
            rw e (settle-Unique items p s' same' (store.got req s.world p e ∙ in_ns) unique)
        | inr (u, e) ↦ elim (Bool-cases (is_not_found u)) [
          | inr n ↦ rw (e, n) kept
          | inl n ↦ rw (e, n) (deleted-Unique items s' same' all_in unique)
        ]
      ]

  -- A reconciliation of a policy, whatever comes of it, leaves at most one policy of the namespace
  -- active if there was at most one before. The API server is taken to answer the calls of the
  -- reconciliation from one state (`PolicyStore`).
  pub reconcile_keeps_Unique :
      (req : ObjectKey) (s : Run World)
      → req.namespace ≡ ns
      → Unique s.world
      → Unique (reconcile client lib req s).1.world
  unfolding reconcile
  reconcile_keeps_Unique req s in_ns unique =
      let items = client.list_policies req.namespace s.world in
      let kept : policies s.world ≡ policies items.1 =
        subst (λ n. policies s.world ≡ policies (client.list_policies n s.world).1) (sym in_ns)
          (sym (store.list_keeps s.world)) in
      elim (Result-cases items.0) [
        | inr (u, e) ↦ rw (e, with_policies) (subst (AtMostOneActive lib.meta) kept unique)
        | inl (l, e) ↦
            let (same, all_in) = store.listed s.world l (rw in_ns at e) in
            rw e (
              with_policy-Unique l req (record { world = items.1; calls = s.calls }) in_ns
                (same ∙ kept) all_in (subst (AtMostOneActive lib.meta) (sym same) unique))
      ]
