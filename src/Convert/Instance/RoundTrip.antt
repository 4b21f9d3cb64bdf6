-- ===== src/Convert/Instance/RoundTrip.antt =====
-- What is left of the parameters of a v1beta1 instance that goes to v1alpha1 and back.
use dbaas_operator.Prelude.{
  String, ◌≡◌, ◌≢◌, refl, sym, ◌∙◌, ap, inl, inr, Bool, false, not, ◌&&◌, none, some, [], ◌∷◌,
  arith, ◌==◌, eq_iff, if◌then◌else◌, is_empty, Bool-cases,
}
use dbaas_operator.Prelude.GoMap.{GoMap, HasDistinctKeys, lookup, insert, insert-HasDistinctKeys}
use dbaas_operator.Kube.{ObjectKey}
use dbaas_operator.Kube.Errors.{Result, ok}
use dbaas_operator.Api.V1alpha1
use dbaas_operator.Api.V1beta1
use dbaas_operator.Convert.Names.{convert_name_to, convert_name_from}
use dbaas_operator.Convert.Names.Inverse.{
  convert_name_iff, convert_name_to_tweaked, convert_name_from_project,
}
use dbaas_operator.Convert.Instance.{
  spec_from, ref_key, tweak, copy_params_from, params_from, params_to, field_params,
  spec_convert_to, spec_convert_from,
}
use dbaas_operator.Convert.Instance.Params.{
  or_else, renamed, original, lookup-params_to, lookup-params_from,
}

copy_params_from-HasDistinctKeys :
    (p : String) (params dst : GoMap String)
    → HasDistinctKeys dst
    → HasDistinctKeys (copy_params_from p params dst)
unfolding copy_params_from
copy_params_from-HasDistinctKeys p [] dst h = h
copy_params_from-HasDistinctKeys p ((key, val) ∷ rest) dst h =
    elim (Bool-cases (is_empty (convert_name_from p key))) [
      | inl e ↦ rw e (copy_params_from-HasDistinctKeys p rest dst h)
      | inr e ↦ rw e (
          copy_params_from-HasDistinctKeys p rest _
            (insert-HasDistinctKeys (tweak (convert_name_from p key)) val dst h))
    ]

-- The parameter `k` has a v1alpha1 name that the way back knows.
abbrev pub comes_back : String → String → Bool
comes_back p k =
    not (is_empty (convert_name_from p k)) && not (convert_name_from p k == "ProjectName")

original-name :
    (p k name : String) (params : GoMap String)
    → convert_name_to p name ≡ k
    → name ≢ ""
    → k ≢ ""
    → original p name params
      ≡ (if not false && not (name == "ProjectName") then lookup k params else none)
original-name p k name params back ne hk = elim (Bool-cases (name == "ProjectName")) [
  | inl e ↦ rw e
  | inr e ↦ elim (Bool-cases (name == "projectName")) [
    | inl t ↦
        absurd
          (hk (sym (back) ∙ ap (convert_name_to p) ((eq_iff _ _).0 t) ∙ convert_name_to_tweaked p))
    | inr t ↦ rw (e, t, back) (rw (ne_empty k hk))
  ]
]
  where
    ne_empty : (s : String) → s ≢ "" → is_empty s ≡ false
    ne_empty s h = ground (arith, eq_iff s "")

params_from-HasDistinctKeys :
    (p : String) (params : GoMap String) → HasDistinctKeys (params_from p params)
unfolding params_from
params_from-HasDistinctKeys p params = copy_params_from-HasDistinctKeys p params [] tt

not_comes_back : (p : String) → comes_back p V1beta1.provisioning_team_project ≡ false
not_comes_back p = ground (arith, convert_name_from_project p)

renamed-params_from :
    (p k : String) (params : GoMap String)
    → k ≢ ""
    → HasDistinctKeys params
    → renamed p k (params_from p params) ≡ (if comes_back p k then lookup k params else none)
renamed-params_from p k params hk d =
    let name = convert_name_from p k in
    elim (Bool-cases (is_empty name)) [
      | inl e ↦ rw e
      | inr e ↦
          let ne : name ≢ "" = ground (arith, eq_iff name "") in
          rw e (
            rw (lookup-params_from p name params ne d)
              (original-name p k name params ((convert_name_iff p name k ne hk).1 refl) ne hk))
    ]

spec_convert_from_ok :
    (get : ObjectKey → Result V1beta1.DbaasInventory) (src : V1beta1.DbaasInstanceSpec)
    (inv : V1beta1.DbaasInventory)
    → get (ref_key src.inventory_ref) ≡ ok inv
    → (spec_convert_from (some get) src).0 ≡ spec_from inv.spec.provider_ref.name src
unfolding spec_convert_from
spec_convert_from_ok get src inv e = rw (e, spec_convert_from)

spec_convert_to-spec_from :
    (get : ObjectKey → Result V1alpha1.DbaasInventory) (src : V1beta1.DbaasInstanceSpec)
    (inv : V1alpha1.DbaasInventory) (p : String)
    → get (ref_key src.inventory_ref) ≡ ok inv
    → (spec_convert_to (some get) (spec_from p src)).0.provisioning_parameters
      ≡ params_to inv.spec.provider_ref.name (spec_from p src)
unfolding spec_convert_to spec_from
spec_convert_to-spec_from get src inv p e = rw (e, spec_convert_to)

lookup-params_to-spec_from :
    (p k : String) (src : V1beta1.DbaasInstanceSpec)
    → k ≢ ""
    → HasDistinctKeys src.provisioning_parameters
    → lookup k (params_to p (spec_from p src)) ≡ (
        if V1beta1.provisioning_plan == k
        then some V1beta1.provisioning_plan_free_trial
        else or_else
            (if comes_back p k then lookup k src.provisioning_parameters else none)
            (lookup k (field_params (spec_from p src))))
unfolding spec_from
lookup-params_to-spec_from p k src hk d =
    let distinct = params_from-HasDistinctKeys p src.provisioning_parameters in
    rw (lookup-params_to p k (spec_from p src) hk distinct)
      (rw (renamed-params_from p k src.provisioning_parameters hk d))

-- The parameters of a v1beta1 spec after both conversions.
abbrev pub there_and_back :
    (ObjectKey → Result V1beta1.DbaasInventory)
    → (ObjectKey → Result V1alpha1.DbaasInventory)
    → V1beta1.DbaasInstanceSpec
    → GoMap String
there_and_back get_beta get_alpha src =
    (spec_convert_to (some get_alpha)
      (spec_convert_from (some get_beta) src).0).0.provisioning_parameters

pub lookup_round_trip :
    (get_beta : ObjectKey → Result V1beta1.DbaasInventory)
    (get_alpha : ObjectKey → Result V1alpha1.DbaasInventory) (src : V1beta1.DbaasInstanceSpec)
    (beta : V1beta1.DbaasInventory) (alpha : V1alpha1.DbaasInventory) (k : String)
    → get_beta (ref_key src.inventory_ref) ≡ ok beta
    → get_alpha (ref_key src.inventory_ref) ≡ ok alpha
    → alpha.spec.provider_ref.name ≡ beta.spec.provider_ref.name
    → HasDistinctKeys src.provisioning_parameters
    → k ≢ ""
    → lookup k (there_and_back get_beta get_alpha src) ≡ (
        if V1beta1.provisioning_plan == k
        then some V1beta1.provisioning_plan_free_trial
        else or_else
            (if comes_back beta.spec.provider_ref.name k
              then lookup k src.provisioning_parameters
              else none)
            (lookup k (field_params (spec_from beta.spec.provider_ref.name src))))
lookup_round_trip get_beta get_alpha src beta alpha k got_beta got_alpha same d hk =
    let p = beta.spec.provider_ref.name in
    ap (λ s. lookup k (spec_convert_to (some get_alpha) s).0.provisioning_parameters)
      (spec_convert_from_ok get_beta src beta got_beta)
    ∙ ap (lookup k) (spec_convert_to-spec_from get_alpha src alpha p got_alpha)
    ∙ ap (λ q. lookup k (params_to q (spec_from p src))) same
    ∙ lookup-params_to-spec_from p k src hk d

-- A team project never comes back, whatever the provider, where both conversions read an inventory
-- of the same provider: MongoDB Atlas is given it under a name that the way back does not know, and
-- the others are not given it.
pub team_project_lost :
    (get_beta : ObjectKey → Result V1beta1.DbaasInventory)
    (get_alpha : ObjectKey → Result V1alpha1.DbaasInventory) (src : V1beta1.DbaasInstanceSpec)
    (beta : V1beta1.DbaasInventory) (alpha : V1alpha1.DbaasInventory)
    → get_beta (ref_key src.inventory_ref) ≡ ok beta
    → get_alpha (ref_key src.inventory_ref) ≡ ok alpha
    → alpha.spec.provider_ref.name ≡ beta.spec.provider_ref.name
    → HasDistinctKeys src.provisioning_parameters
    → lookup V1beta1.provisioning_team_project (there_and_back get_beta get_alpha src) ≡ none
unfolding lookup insert
team_project_lost get_beta get_alpha src beta alpha got_beta got_alpha same d =
    let p = beta.spec.provider_ref.name in
    let k = V1beta1.provisioning_team_project in
    lookup_round_trip get_beta get_alpha src beta alpha k got_beta got_alpha same d
      (ground (arith, eq_iff k ""))
    ∙ (rw (not_comes_back p))
