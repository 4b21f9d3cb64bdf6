-- ===== src/Controllers/Policy/Active.antt =====
-- Lists of policies, of which at most one is active.
use dbaas_operator.Prelude.{
  String, ◌≡◌, inl, inr, Bool, true, none, some, List, [], ◌∷◌, arith, Bool-cases, ◌==◌,
  if◌then◌else◌,
}
use dbaas_operator.Kube.Conditions.{Meta}
use dbaas_operator.Api.V1beta1
use dbaas_operator.Api.V1beta1.{DbaasPolicy}
use dbaas_operator.Controllers.Common.Access.{get_active_policy}

abbrev pub is_active : Meta → DbaasPolicy → Bool
is_active meta p = meta.is_status_condition_true p.status.conditions V1beta1.dbaas_policy_ready_type

-- The policies with one in place of that of its name.
unfoldable pub replace : DbaasPolicy → List DbaasPolicy → List DbaasPolicy
replace p [] = []
replace p (q ∷ items) = (if q.meta.name == p.meta.name then p else q) ∷ replace p items

unfoldable pub InNamespace : String → List DbaasPolicy → Type 0
InNamespace ns [] = Unit
InNamespace ns (p ∷ items) = (p.meta.namespace ≡ ns) × InNamespace ns items

-- No policy is active but that of a name.
unfoldable pub OnlyActive : Meta → String → List DbaasPolicy → Type 0
OnlyActive meta name [] = Unit
OnlyActive meta name (p ∷ items) =
    (is_active meta p ≡ true → p.meta.name ≡ name) × OnlyActive meta name items

-- At most one policy is active, where no two have one name.
unfoldable pub AtMostOneActive : Meta → List DbaasPolicy → Type 0
AtMostOneActive meta items = (name : String) × OnlyActive meta name items

module _ (meta : Meta) where
  pub none_active :
      (name : String) (items : List DbaasPolicy)
      → get_active_policy meta items ≡ none
      → OnlyActive meta name items
  unfolding get_active_policy OnlyActive
  none_active name [] h = tt
  none_active name (p ∷ items) h = elim (Bool-cases (is_active meta p)) [
    | inl a ↦ absurd (ground arith)
    | inr a ↦ (λ t. absurd (ground arith), none_active name items (ground arith))
  ]

  pub active_name :
      (name : String) (items : List DbaasPolicy) (a : DbaasPolicy)
      → OnlyActive meta name items
      → get_active_policy meta items ≡ some a
      → a.meta.name ≡ name
  unfolding get_active_policy OnlyActive
  active_name name [] a o h = absurd (ground arith)
  active_name name (p ∷ items) a o h = elim (Bool-cases (is_active meta p)) [
    | inl t ↦ ground (arith, o.0 t)
    | inr t ↦ active_name name items a o.1 (ground arith)
  ]

  pub replace-OnlyActive :
      (name : String) (p : DbaasPolicy) (items : List DbaasPolicy)
      → (is_active meta p ≡ true → p.meta.name ≡ name)
      → OnlyActive meta name items
      → OnlyActive meta name (replace p items)
  unfolding replace OnlyActive
  replace-OnlyActive name p [] h o = tt
  replace-OnlyActive name p (q ∷ items) h o = (
    elim (Bool-cases (q.meta.name == p.meta.name)) [ inl e ↦ rw e h | inr e ↦ rw e o.0 ],
    replace-OnlyActive name p items h o.1,
  )
