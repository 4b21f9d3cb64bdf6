-- ===== src/Controllers/Policy/Verdict.antt =====
-- Which policy becomes active, and when the default policy is created.
use dbaas_operator.Prelude.{
  String, ◌≡◌, ◌↔◌, refl, ◌⊎◌, inl, inr, true, none, some, List, [], ◌∷◌, arith, Option, Bool-cases,
  eq_iff, if◌then◌else◌,
}
use dbaas_operator.Kube.{ObjectKey}
use dbaas_operator.Kube.Conditions.{is_true}
use dbaas_operator.Kube.Errors.{Result-cases, ok, err, not_found, conflict, other, panic}
use dbaas_operator.Api.V1beta1.{DbaasPolicy}
use dbaas_operator.Controllers.Client.{
  policy, update_status, create_or_update_quota, create_policy, Client, Library, Run,
}
use dbaas_operator.Controllers.Common.Access.{get_active_policy}
use dbaas_operator.Controllers.Policy.{
  verdict, with_condition, reconcile, get_default_policy, create_default_policy,
}

-- The policy is the active one, or none is active.
abbrev pub IsFree : Option DbaasPolicy → DbaasPolicy → Type 0
IsFree active p =
    (active ≡ none) ⊎ ((a : DbaasPolicy) × (active ≡ some a) × (a.meta.name ≡ p.meta.name))

verdict_iff :
    (active : Option DbaasPolicy) (p : DbaasPolicy)
    → (is_true (verdict active p).status ≡ true) ↔ IsFree active p
unfolding verdict
verdict_iff none p = (λ t. inl refl, λ f. refl)
verdict_iff (some a) p = (
  λ t. inr (a, refl, ground (arith, eq_iff a.meta.name p.meta.name)),
  λ f. elim f [
    | inl e ↦ absurd (ground arith)
    | inr (b, e, n) ↦ ground (arith, e, n, eq_iff a.meta.name p.meta.name)
  ],
)

List-cases : {A : Type 0} (l : List A) → (l ≡ []) ⊎ ((a : A) × (rest : List A) × (l ≡ a ∷ rest))
List-cases [] = inl refl
List-cases (a ∷ rest) = inr (a, rest, refl)

module _ {World : Type 0} (client : Client World) (lib : Library) where
  -- A policy that is read, where the list is read and a write of its quota would succeed, is given
  -- its verdict: it is ready exactly if no policy of the namespace is active or the one of its name
  -- is. The status with the verdict is written last; before it the quota is, for a policy that is
  -- ready and for no other.
  pub reconcile_verdict :
      (req : ObjectKey) (s : Run World) (items : List DbaasPolicy) (p : DbaasPolicy)
      → (client.list_policies req.namespace s.world).0 ≡ ok items
      → (client.get_policy req (client.list_policies req.namespace s.world).1).0 ≡ ok p
      → (client.write
          (create_or_update_quota p)
          (client.get_policy req (client.list_policies req.namespace s.world).1).1).0
        ≡ none
      → let c = verdict (get_active_policy lib.meta items) p in
        ((is_true c.status ≡ true) ↔ IsFree (get_active_policy lib.meta items) p)
        × ((reconcile client lib req s).1.calls
            ≡ update_status (policy (with_condition client lib p c))
              ∷ (if is_true c.status then create_or_update_quota p ∷ s.calls else s.calls))
  unfolding reconcile
  reconcile_verdict req s items p listed got quota =
      let active = get_active_policy lib.meta items in
      (
        verdict_iff active p,
        elim (Bool-cases (is_true (verdict active p).status)) [
          | inl t ↦ ground arith
          | inr t ↦ ground arith
        ],
      )

  -- The default policy is created exactly if the namespace was listed and has no policy, and the
  -- one of its name is not found; nothing else is written in any case.
  pub create_default_policy_iff :
      (ns : String) (w : World)
      → let run = create_default_policy client ns (record { world = w; calls = [] }) in
        let list = client.list_policies ns w in
        let got = client.get_policy (record { namespace = ns; name = "cluster" }) list.1 in
        ((run.1.calls ≡ create_policy (get_default_policy ns) ∷ [])
          ↔ ((list.0 ≡ ok []) × ((m : String) × (got.0 ≡ err (not_found m)))))
        × ((run.1.calls ≡ []) ⊎ (run.1.calls ≡ create_policy (get_default_policy ns) ∷ []))
  unfolding create_default_policy
  create_default_policy_iff ns w =
      let list = client.list_policies ns w in
      let got = client.get_policy (record { namespace = ns; name = "cluster" }) list.1 in
      elim (Result-cases list.0) [
        | inr (e, q) ↦ ((λ h. absurd (ground arith), λ h. absurd (ground arith)), ground arith)
        | inl (items, q) ↦ elim (List-cases items) [
          | inr (p, rest, n) ↦
              ((λ h. absurd (ground arith), λ h. absurd (ground arith)), ground arith)
          | inl n ↦ elim (Result-cases got.0) [
            | inl (p, g) ↦
                ((λ h. absurd (ground arith), λ (h, (m, g')). absurd (ground arith)), ground arith)
            | inr (not_found m, g) ↦
                ((λ h. (ground arith, (m, g)), λ h. ground arith), ground arith)
            | inr (conflict m, g) ↦
                ((λ h. absurd (ground arith), λ (h, (m', g')). absurd (ground arith)), ground arith)
            | inr (other m, g) ↦
                ((λ h. absurd (ground arith), λ (h, (m', g')). absurd (ground arith)), ground arith)
            | inr (panic, g) ↦
                ((λ h. absurd (ground arith), λ (h, (m', g')). absurd (ground arith)), ground arith)
          ]
        ]
      ]
