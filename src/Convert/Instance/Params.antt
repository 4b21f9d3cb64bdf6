-- ===== src/Convert/Instance/Params.antt =====
-- The provisioning parameters that a conversion gives, whatever the order in which the loops visit
-- the source map.
use dbaas_operator.Prelude.{
  String, ◌≡◌, ◌≢◌, Option, none, some, [], ◌∷◌, arith, ◌==◌, eq_iff, if◌then◌else◌, is_empty,
}
use dbaas_operator.Prelude.GoMap.{
  GoMap, HasDistinctKeys, lookup, insert, lookup-insert, lookup-Fresh,
}
use dbaas_operator.Api.V1alpha1
use dbaas_operator.Api.V1beta1
use dbaas_operator.Convert.Names.{convert_name_to, convert_name_from}
use dbaas_operator.Convert.Names.Inverse.{
  convert_name_iff, convert_name_to_empty, convert_name_from_empty, convert_name_to_tweaked,
}
use dbaas_operator.Convert.Instance.{
  copy_params_to, field_params, params_to, tweak, copy_params_from, params_from,
}

-- `some v` if there is one, else what follows.
abbrev pub or_else : Option String → Option String → Option String
or_else none b = b
or_else (some v) b = some v

-- The value in a v1alpha1 map of the parameter that v1beta1 names `k`.
abbrev pub renamed : String → String → GoMap String → Option String
renamed provider k other =
    if is_empty (convert_name_from provider k)
    then none
    else lookup (convert_name_from provider k) other

lookup-copy_params_to :
    (p k : String) (other dst : GoMap String)
    → k ≢ ""
    → HasDistinctKeys other
    → lookup k (copy_params_to p other dst) ≡ or_else (renamed p k other) (lookup k dst)
unfolding copy_params_to lookup
lookup-copy_params_to p k [] dst hk d = ground arith
lookup-copy_params_to p k ((key, val) ∷ rest) dst hk (fresh, d) =
    let name = convert_name_to p key in
    let dst' = if is_empty name then dst else insert name val dst in
    ground (
      arith,
      lookup-copy_params_to p k rest dst' hk d,
      lookup-insert name k val dst,
      convert_name_iff p key k,
      convert_name_to_empty p,
      eq_iff name k,
      eq_iff name "",
      eq_iff key (convert_name_from p k),
      eq_iff (convert_name_from p k) "",
      eq_iff key "",
      lookup-Fresh key rest fresh,
    )

-- The parameters of a converted instance depend on the source map through its lookups alone, so
-- not on the order in which the loop visits it: the plan is the free trial, any other parameter is
-- that of the source map which the provider's table renames to it, and failing that one of the
-- three fields of the spec.
pub lookup-params_to :
    (p k : String) (src : V1alpha1.DbaasInstanceSpec)
    → k ≢ ""
    → HasDistinctKeys src.other_instance_params
    → lookup k (params_to p src) ≡ (
        if V1beta1.provisioning_plan == k
        then some V1beta1.provisioning_plan_free_trial
        else or_else (renamed p k src.other_instance_params) (lookup k (field_params src)))
unfolding params_to
lookup-params_to p k src hk d =
    rw (lookup-insert V1beta1.provisioning_plan k)
      (rw (lookup-copy_params_to p k src.other_instance_params (field_params src) hk d))

-- The v1beta1 parameter that ends up under the v1alpha1 name `j`, "" if there is none.
abbrev pub origin : String → String → String
origin p j =
    if j == "ProjectName"
    then ""
    else convert_name_to p (if j == "projectName" then "ProjectName" else j)

abbrev pub original : String → String → GoMap String → Option String
original p j params = if is_empty (origin p j) then none else lookup (origin p j) params

project_name-ne-empty : ◌≢◌ {A = String} "ProjectName" ""
project_name-ne-empty = ground (arith, eq_iff "ProjectName" "")

lookup-copy_params_from :
    (p j : String) (params dst : GoMap String)
    → j ≢ ""
    → HasDistinctKeys params
    → lookup j (copy_params_from p params dst) ≡ or_else (original p j params) (lookup j dst)
unfolding copy_params_from lookup
lookup-copy_params_from p j [] dst hj d = ground arith
lookup-copy_params_from p j ((key, val) ∷ rest) dst hj (fresh, d) =
    let name = convert_name_from p key in
    let dst' = if is_empty name then dst else insert (tweak name) val dst in
    ground (
      arith,
      lookup-copy_params_from p j rest dst' hj d,
      lookup-insert (tweak name) j val dst,
      convert_name_iff p j key,
      λ (h : key ≢ ""). convert_name_iff p "ProjectName" key project_name-ne-empty h,
      project_name-ne-empty,
      convert_name_iff p name key,
      convert_name_from_empty p,
      convert_name_to_tweaked p,
      eq_iff (tweak name) j,
      eq_iff name "",
      eq_iff name "ProjectName",
      eq_iff j "ProjectName",
      eq_iff j "projectName",
      eq_iff j "",
      eq_iff key (origin p j),
      eq_iff (origin p j) "",
      eq_iff key "",
      lookup-Fresh key rest fresh,
    )

-- The same for the way to v1alpha1.
pub lookup-params_from :
    (p j : String) (params : GoMap String)
    → j ≢ ""
    → HasDistinctKeys params
    → lookup j (params_from p params) ≡ original p j params
unfolding params_from lookup
lookup-params_from p j params hj d = ground (arith, lookup-copy_params_from p j params [] hj d)
