-- ===== src/Convert/Provider/RoundTrip.antt =====
-- Converting a provider to the other version and back.
use dbaas_operator.Prelude.{
  elements, String, ◌≡◌, ◌≢◌, refl, true, false, Option, none, some, List, [], ◌∷◌, map, arith,
  ◌==◌, ◌&&◌, non_empty, ◌∙◌, Bool-cases, eq_iff, is_empty, inl, inr, ap, if◌then◌else◌,
}
use dbaas_operator.Prelude.GoMap.{GoMap, HasDistinctKeys, lookup, lookup-Fresh}
use dbaas_operator.Api.V1alpha1
use dbaas_operator.Api.V1alpha1.{InstanceParameterSpec}
use dbaas_operator.Api.V1beta1
use dbaas_operator.Api.V1beta1.{ProvisioningParameter}
use dbaas_operator.Convert.Inventory.{appended}
use dbaas_operator.Convert.Names.{convert_name_to, convert_name_from}
use dbaas_operator.Convert.Names.Inverse.{convert_name_iff, convert_name_to_empty}
use dbaas_operator.Convert.Provider.{
  is_converted, add_specs, convert_to, convert_from, default_or_aws, field_to, field_from,
  fields_to, fields_from, parameter_of, hosting_plan, group_version_string,
}
use dbaas_operator.Convert.Provider.Parameters.{last_spec, parameter_or, lookup-convert_to}
use dbaas_operator.Convert.Provider.Specs.{
  is_converted-non_empty, convert_name_to-plan, find_spec, spec_or, find_spec-add_specs, last_named,
  last_spec-last_named,
}

-- What comes back of a parameter spec.
abbrev pub restored : String → String → Option InstanceParameterSpec → Option InstanceParameterSpec
restored provider n none = none
restored provider n (some v) = some (record {
  name = n;
  display_name = v.display_name;
  type = "string";
  required = true;
  default_value =
      if convert_name_to provider n == V1beta1.provisioning_cloud_provider
      then default_or_aws v.default_value
      else "";
})

spec_or-parameter_or :
    (p n : String) (o : Option InstanceParameterSpec)
    → spec_or n (parameter_or (convert_name_to p n) none o) ≡ restored p n o
unfolding parameter_of
spec_or-parameter_or p n none = refl
spec_or-parameter_or p n (some v) = ground arith

elements-appended : {A : Type 0} (l : List A) → elements (appended l) ≡ l
elements-appended [] = refl
elements-appended (x ∷ l) = refl

-- Of a v1alpha1 provider that is converted to v1beta1 and back, a name that v1beta1 knows, and that
-- is not empty, has the last parameter spec of that name, if there is one, with its display name,
-- required and of type "string"; the default value is kept for the cloud provider, where an empty
-- one becomes "AWS", and is lost for the others.
pub find_spec-convert_from-convert_to :
    (p : V1alpha1.DbaasProvider) (n : String)
    → is_empty (convert_name_to p.meta.name n) ≡ false
    → n ≢ ""
    → find_spec n (elements (convert_from (convert_to p)).spec.instance_parameter_specs)
      ≡ restored p.meta.name n (last_named n (elements p.spec.instance_parameter_specs))
unfolding convert_from convert_to
find_spec-convert_from-convert_to p n h hn =
    let k = convert_name_to p.meta.name n in
    rw (elements-appended (add_specs p.meta.name (convert_to p).spec.provisioning_parameters)) (
      rw (find_spec-add_specs p.meta.name n (convert_to p).spec.provisioning_parameters h hn) (
        rw (lookup-convert_to p k h) (
          rw (convert_name_to-plan p.meta.name n) (
            spec_or-parameter_or p.meta.name n
              (last_spec p.meta.name k (elements p.spec.instance_parameter_specs))
            ∙ ap (restored p.meta.name n) (
                last_spec-last_named p.meta.name n (elements p.spec.instance_parameter_specs) h
                  hn)))))

-- The parameter of a v1beta1 provider that comes back from v1alpha1.
abbrev pub back : String → String → Option ProvisioningParameter → Option ProvisioningParameter
back provider k o =
    if is_converted k && non_empty (convert_name_from provider k)
    then parameter_or k none (spec_or (convert_name_from provider k) o)
    else none

names_agree :
    (p k j : String)
    → is_converted j ≡ true
    → is_empty k ≡ false
    → (convert_name_to p (convert_name_from p j) == k)
      ≡ (non_empty (convert_name_from p j) && (j == k))
names_agree p k j e h =
    let a = convert_name_from p j in
    ground (
      arith,
      eq_iff a "",
      convert_name_to_empty p,
      eq_iff j k,
      eq_iff k "",
      eq_iff (convert_name_to p a) k,
      eq_iff (convert_name_to p "") k,
      λ (ha : a ≢ ""). (convert_name_iff p a j ha (is_converted-non_empty j e)).1 refl,
    )

last_spec-add_specs :
    (p k : String) (m : GoMap ProvisioningParameter)
    → HasDistinctKeys m
    → is_empty k ≡ false
    → last_spec p k (add_specs p m) ≡ (
        if is_converted k && non_empty (convert_name_from p k)
        then spec_or (convert_name_from p k) (lookup k m)
        else none)
unfolding last_spec add_specs lookup
last_spec-add_specs p k [] d h = ground arith
last_spec-add_specs p k ((j, v) ∷ m) d h =
    let ih = last_spec-add_specs p k m d.1 h in
    let same = λ (q : j ≡ k). ap is_converted q in
    elim (Bool-cases (is_converted j)) [
      | inl e ↦
          rw e (ground (arith, ih, same, names_agree p k j e h, lookup-Fresh j m d.0, eq_iff j k))
      | inr e ↦ rw e (ground (arith, ih, same, eq_iff j k))
    ]

-- Of a v1beta1 provider, whose parameters have distinct names, that is converted to v1alpha1 and
-- back, the plan is the free trial, whatever it was; another parameter is there, made anew from its
-- display name and its first default value, if it was there and its name is one of the four that
-- are converted and has a v1alpha1 name for this provider; and no other is left. The name that is
-- looked up is not empty.
pub lookup-convert_to-convert_from :
    (q : V1beta1.DbaasProvider) (k : String)
    → HasDistinctKeys q.spec.provisioning_parameters
    → is_empty k ≡ false
    → lookup k (convert_to (convert_from q)).spec.provisioning_parameters ≡ (
        if V1beta1.provisioning_plan == k
        then some hosting_plan
        else back q.meta.name k (lookup k q.spec.provisioning_parameters))
unfolding convert_from
lookup-convert_to-convert_from q k d h = rw (lookup-convert_to (convert_from q) k h) (
    rw (elements-appended (add_specs q.meta.name q.spec.provisioning_parameters))
      (rw (last_spec-add_specs q.meta.name k q.spec.provisioning_parameters d h) (ground arith)))

map-field_from-field_to : (l : List V1alpha1.CredentialField) → map field_from (map field_to l) ≡ l
map-field_from-field_to [] = refl
map-field_from-field_to (f ∷ l) = ap (λ r. f ∷ r) (map-field_from-field_to l)

map-field_to-field_from : (l : List V1beta1.CredentialField) → map field_to (map field_from l) ≡ l
map-field_to-field_from [] = refl
map-field_to-field_from (f ∷ l) = ap (λ r. f ∷ r) (map-field_to-field_from l)

-- The fields that come back: an empty slice comes back as nil.
abbrev pub nil_if_empty {ℓ} : {A : Type ℓ} → Option (List A) → Option (List A)
nil_if_empty (some []) = none
nil_if_empty fields = fields

fields_from-fields_to :
    (o : Option (List V1alpha1.CredentialField)) → fields_from (fields_to o) ≡ nil_if_empty o
unfolding fields_from fields_to
fields_from-fields_to none = refl
fields_from-fields_to (some []) = refl
fields_from-fields_to (some (f ∷ l)) = ap (λ r. some (f ∷ r)) (map-field_from-field_to l)

fields_to-fields_from :
    (o : Option (List V1beta1.CredentialField)) → fields_to (fields_from o) ≡ nil_if_empty o
unfolding fields_from fields_to
fields_to-fields_from none = refl
fields_to-fields_from (some []) = refl
fields_to-fields_from (some (f ∷ l)) = ap (λ r. some (f ∷ r)) (map-field_to-field_from l)

-- What of a provider is not a parameter comes back from the other version as it was, in both
-- directions, but for the status, which is emptied, the credential fields where they are an empty
-- slice, which becomes nil, and the group version of a v1beta1 provider, which becomes that of
-- v1alpha1.
pub provider_round_trip :
    (p : V1alpha1.DbaasProvider) (q : V1beta1.DbaasProvider)
    → (convert_from (convert_to p) ≡ record {
      meta = p.meta;
      spec = record p.spec {
        credential_fields = nil_if_empty p.spec.credential_fields;
        instance_parameter_specs = (convert_from (convert_to p)).spec.instance_parameter_specs;
      };
      status = record { conditions = [] };
    })
      × (convert_to (convert_from q) ≡ record {
        meta = q.meta;
        spec = record q.spec {
          group_version = group_version_string;
          credential_fields = nil_if_empty q.spec.credential_fields;
          provisioning_parameters = (convert_to (convert_from q)).spec.provisioning_parameters;
        };
        status = record { conditions = [] };
      })
unfolding convert_from convert_to
provider_round_trip p q = (
  (λ i. record {
    meta = p.meta;
    spec = record p.spec {
      credential_fields = fields_from-fields_to p.spec.credential_fields i;
      instance_parameter_specs = (convert_from (convert_to p)).spec.instance_parameter_specs;
    };
    status = record { conditions = [] };
  }),
  (λ i. record {
    meta = q.meta;
    spec = record q.spec {
      group_version = group_version_string;
      credential_fields = fields_to-fields_from q.spec.credential_fields i;
      provisioning_parameters = (convert_to (convert_from q)).spec.provisioning_parameters;
    };
    status = record { conditions = [] };
  }),
)
