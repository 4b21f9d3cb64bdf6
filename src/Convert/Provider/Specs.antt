-- ===== src/Convert/Provider/Specs.antt =====
-- The parameter specs that a v1beta1 provider is given in v1alpha1.
use mathlib.Core.Path.{subst}
use dbaas_operator.Prelude.{
  String, ◌≡◌, ◌≢◌, refl, true, false, Option, none, some, List, [], ◌∷◌, arith, ◌==◌, ◌||◌, sym,
  Bool-cases, eq_iff, Option-cases, is_empty, inl, inr, if◌then◌else◌,
}
use dbaas_operator.Prelude.GoMap.{GoMap, lookup, index, AllValues, lookup-AllValues}
use dbaas_operator.Api.V1alpha1.{InstanceParameterSpec}
use dbaas_operator.Api.V1beta1
use dbaas_operator.Api.V1beta1.{ProvisioningParameter}
use dbaas_operator.Convert.Names.{provider_fields_map, convert_name_to, convert_name_from}
use dbaas_operator.Convert.Names.Inverse.{convert_name_iff, convert_name_to_empty}
use dbaas_operator.Convert.Provider.{is_converted, spec_of, add_specs}
use dbaas_operator.Convert.Provider.Parameters.{last_spec}

abbrev IsConverted : GoMap String → Type 0
IsConverted m = AllValues (λ v. is_converted v ≡ true) m

provider_fields_map-IsConverted : AllValues IsConverted provider_fields_map
unfolding is_converted
provider_fields_map-IsConverted = ground arith

index-is_converted :
    (n : String) (m : GoMap String)
    → IsConverted m
    → (is_empty (index n m) || is_converted (index n m)) ≡ true
unfolding index
index-is_converted n m h = elim (Option-cases (lookup n m)) [
  | inl e ↦ rw (e, index) refl
  | inr (v, e) ↦
      rw (e, index) (ground (arith, lookup-AllValues (λ v. is_converted v ≡ true) n m v h e))
]

-- What a name is converted to is one of the four names of the switch.
convert_name_to-is_converted :
    (p n : String) → (is_empty (convert_name_to p n) || is_converted (convert_name_to p n)) ≡ true
unfolding convert_name_to
convert_name_to-is_converted p n = elim (Option-cases (lookup p provider_fields_map)) [
  | inl e ↦ rw (e, convert_name_to) refl
  | inr (m, e) ↦
      rw (e, convert_name_to)
        (index-is_converted n m
          (lookup-AllValues IsConverted p provider_fields_map m provider_fields_map-IsConverted e))
]

pub is_converted-non_empty : (k : String) → is_converted k ≡ true → k ≢ ""
unfolding is_converted
is_converted-non_empty k h e = ground (arith, subst (λ j. is_converted j ≡ true) e h)

-- No name is converted to the plan.
pub convert_name_to-plan :
    (p n : String) → (V1beta1.provisioning_plan == convert_name_to p n) ≡ false
unfolding is_converted
convert_name_to-plan p n = ground (
  arith,
  eq_iff V1beta1.provisioning_plan (convert_name_to p n),
  λ (e : V1beta1.provisioning_plan ≡ convert_name_to p n).
      subst (λ k. (is_empty k || is_converted k) ≡ true) (sym e) (convert_name_to-is_converted p n),
)

-- The first spec of that name.
unfoldable pub find_spec : String → List InstanceParameterSpec → Option InstanceParameterSpec
find_spec n [] = none
find_spec n (v ∷ specs) = if v.name == n then some v else find_spec n specs

abbrev pub spec_or : String → Option ProvisioningParameter → Option InstanceParameterSpec
spec_or n none = none
spec_or n (some v) = some (spec_of n v)

pub find_spec-add_specs :
    (p n : String) (m : GoMap ProvisioningParameter)
    → is_empty (convert_name_to p n) ≡ false
    → n ≢ ""
    → find_spec n (add_specs p m) ≡ spec_or n (lookup (convert_name_to p n) m)
unfolding find_spec add_specs lookup
find_spec-add_specs p n [] h hn = refl
find_spec-add_specs p n ((k, v) ∷ m) h hn =
    let ih = find_spec-add_specs p n m h hn in
    let agree = convert_name_to-is_converted p n in
    elim (Bool-cases (is_converted k)) [
      | inl e ↦ rw e (
          ground (
            arith,
            ih,
            convert_name_iff p n k hn (is_converted-non_empty k e),
            eq_iff k (convert_name_to p n),
            eq_iff (convert_name_from p k) n,
          ))
      | inr e ↦ rw e (ground (arith, ih, agree, eq_iff k (convert_name_to p n)))
    ]

-- The last spec of that name.
unfoldable pub last_named : String → List InstanceParameterSpec → Option InstanceParameterSpec
last_named n [] = none
last_named n (v ∷ specs) = elim (last_named n specs) [
  | some w ↦ some w
  | none ↦ if v.name == n then some v else none
]

pub last_spec-last_named :
    (p n : String) (specs : List InstanceParameterSpec)
    → is_empty (convert_name_to p n) ≡ false
    → n ≢ ""
    → last_spec p (convert_name_to p n) specs ≡ last_named n specs
unfolding last_spec last_named
last_spec-last_named p n [] h hn = refl
last_spec-last_named p n (v ∷ specs) h hn =
    let k = convert_name_to p n in
    ground (
      arith,
      last_spec-last_named p n specs h hn,
      convert_name_iff p v.name k,
      convert_name_iff p n k hn,
      convert_name_to_empty p,
      eq_iff (convert_name_to p v.name) k,
      eq_iff v.name n,
      eq_iff v.name "",
      eq_iff k "",
    )
