-- ===== src/Convert/Provider/Parameters.antt =====
-- The provisioning parameters that a v1alpha1 provider is given in v1beta1.
use dbaas_operator.Prelude.{
  elements, String, ◌≡◌, refl, Option, none, some, List, [], ◌∷◌, arith, ◌==◌, eq_iff, false,
  is_empty, if◌then◌else◌,
}
use dbaas_operator.Prelude.GoMap.{GoMap, insert, lookup, lookup-insert}
use dbaas_operator.Api.V1alpha1
use dbaas_operator.Api.V1alpha1.{InstanceParameterSpec}
use dbaas_operator.Api.V1beta1
use dbaas_operator.Api.V1beta1.{ProvisioningParameter}
use dbaas_operator.Convert.Names.{convert_name_to}
use dbaas_operator.Convert.Provider.{parameter_of, add_parameters, hosting_plan, convert_to}

-- The last spec whose name is converted to `k`.
unfoldable pub last_spec :
    String → String → List InstanceParameterSpec → Option InstanceParameterSpec
last_spec provider k [] = none
last_spec provider k (v ∷ specs) = elim (last_spec provider k specs) [
  | some w ↦ some w
  | none ↦ if convert_name_to provider v.name == k then some v else none
]

-- The parameter made from it, and else `other`.
abbrev pub parameter_or :
    String
    → Option ProvisioningParameter
    → Option InstanceParameterSpec
    → Option ProvisioningParameter
parameter_or k other none = other
parameter_or k other (some v) = some (parameter_of k v)

lookup-add_parameters :
    (provider k : String) (specs : List InstanceParameterSpec) (m : GoMap ProvisioningParameter)
    → is_empty k ≡ false
    → lookup k (add_parameters provider specs m)
      ≡ parameter_or k (lookup k m) (last_spec provider k specs)
unfolding add_parameters last_spec
lookup-add_parameters provider k [] m h = refl
lookup-add_parameters provider k (v ∷ specs) m h =
    let name = convert_name_to provider v.name in
    let m' = if is_empty name then m else insert name (parameter_of name v) m in
    ground (
      arith,
      lookup-add_parameters provider k specs m' h,
      lookup-insert name k (parameter_of name v) m,
      eq_iff name k,
      eq_iff name "",
    )

-- A parameter of the provider in v1beta1, by its name: the plan is the free trial, and any other is
-- made from the last spec whose name is converted to it.
pub lookup-convert_to :
    (p : V1alpha1.DbaasProvider) (k : String)
    → is_empty k ≡ false
    → lookup k (convert_to p).spec.provisioning_parameters ≡ (
        if V1beta1.provisioning_plan == k
        then some hosting_plan
        else parameter_or k none
            (last_spec p.meta.name k (elements p.spec.instance_parameter_specs)))
unfolding convert_to lookup
lookup-convert_to p k h = ground (
  arith,
  lookup-insert V1beta1.provisioning_plan k hosting_plan
      (add_parameters p.meta.name (elements p.spec.instance_parameter_specs) []),
  lookup-add_parameters p.meta.name k (elements p.spec.instance_parameter_specs) [] h,
)
