-- ===== src/Webhook/Inventory/Fields.antt =====
-- Exactly which inventories are accepted.
use dbaas_operator.Prelude.{
  elements, String, Bool, false, ◌&&◌, if◌then◌else◌, is_empty, ◌≡◌, ◌≢◌, ◌↔◌, refl, true, Option,
  none, some, List, [], ◌∷◌, arith, eq_iff, Bool-cases, Option-cases, inl, inr,
}
use dbaas_operator.Prelude.GoMap.{lookup}
use dbaas_operator.Kube.Errors.{ok, Result-cases}
use dbaas_operator.Api.V1beta1
use dbaas_operator.Api.V1beta1.{
  CredentialField, DbaasInventory, DbaasProvider, LocalObjectReference,
}
use dbaas_operator.Webhook.Rejection.{Rejection}
use dbaas_operator.Webhook.Inventory.{
  Secret, WebhookClient, is_missing, provider_changed, validate_fields,
  validate_inventory_mandatory_fields, validate_rds, validate_ns_selector, check_rds,
  validate_contents, validate_inventory,
}

-- A value that is there and is not empty.
abbrev pub IsPresent : Option String → Type 0
IsPresent none = ⊥
IsPresent (some v) = v ≢ ""

-- The secret has such a value for every required field.
abbrev pub HasRequired : Secret → List CredentialField → Type 0
HasRequired secret [] = Unit
HasRequired secret (f ∷ fields) =
    (f.required ≡ true → IsPresent (lookup f.key secret.contents)) × HasRequired secret fields

one_field :
    (b : Bool) (o : Option String) (r : Rejection) (rest : Option Rejection) (R : Type 0)
    → (rest ≡ none) ↔ R
    → ((if b && is_missing o then some r else rest) ≡ none) ↔ ((b ≡ true → IsPresent o) × R)
one_field false o r rest R h = ((λ e. ((λ t. cc), h.0 e)), (λ p. h.1 p.1))
one_field true none r rest R h = ((λ e. cc), (λ p. absurd (p.0 refl)))
one_field true (some v) r rest R h = elim (Bool-cases (is_empty v)) [
  | inl e ↦ rw e ((λ q. cc), (λ p. absurd (p.0 refl ((eq_iff v "").0 e))))
  | inr e ↦ rw e ((λ q. ((λ t. ground (arith, eq_iff v "")), h.0 q)), (λ p. h.1 p.1))
]

validate_fields_iff :
    (fields : List CredentialField) (secret : Secret)
    → (validate_fields fields secret ≡ none) ↔ HasRequired secret fields
unfolding validate_fields
validate_fields_iff [] secret = ((λ _. tt), (λ _. refl))
validate_fields_iff (f ∷ fields) secret =
    one_field f.required (lookup f.key secret.contents) _ (validate_fields fields secret)
      (HasRequired secret fields) (validate_fields_iff fields secret)

module _ (client : WebhookClient) (inv : DbaasInventory) (old : Option DbaasInventory) where
  -- What is asked of an inventory: its provider is the one it had, its secret and its provider can
  -- be read, a new RDS account is the only one, the selector of its policy has a meaning, and the
  -- secret has the required fields.
  pub record IsAccepted : Type 0 where
    pub provider_kept :
        (o : DbaasInventory) → old ≡ some o → o.spec.provider_ref.name ≡ inv.spec.provider_ref.name
    pub ref : LocalObjectReference
    pub has_ref : inv.spec.credentials_ref ≡ some ref
    pub secret : Secret
    pub has_secret :
        client.get_secret (record { namespace = inv.meta.namespace; name = ref.name }) ≡ ok secret
    pub provider : DbaasProvider
    pub has_provider : client.get_provider inv.spec.provider_ref.name ≡ ok provider
    pub only_rds :
        old ≡ none
        → inv.spec.provider_ref.name ≡ V1beta1.rds_registration
        → client.list_inventories V1beta1.rds_registration ≡ ok []
    pub selector_ok : validate_ns_selector client inv.spec.policy ≡ none
    pub has_required : HasRequired secret (elements provider.spec.credential_fields)

  check_rds_iff : (check_rds client inv old ≡ none) ↔ (
      old ≡ none
      → inv.spec.provider_ref.name ≡ V1beta1.rds_registration
      → client.list_inventories V1beta1.rds_registration ≡ ok [])
  unfolding check_rds validate_rds
  check_rds_iff = ground (arith, eq_iff inv.spec.provider_ref.name V1beta1.rds_registration)

  provider_kept_iff : (provider_changed inv old ≡ false) ↔ (
      (o : DbaasInventory) → old ≡ some o → o.spec.provider_ref.name ≡ inv.spec.provider_ref.name)
  provider_kept_iff = elim (Option-cases old) [
    | inl e ↦ rw e ((λ _ o q. cc), (λ _. refl))
    | inr (o, e) ↦ rw e (
      (λ h q same. ground (arith, eq_iff o.spec.provider_ref.name inv.spec.provider_ref.name)),
      (λ h. ground (arith, h o refl, eq_iff o.spec.provider_ref.name inv.spec.provider_ref.name)),
    )
  ]

  validate_of_IsAccepted : IsAccepted → validate_inventory client inv old ≡ none
  unfolding validate_inventory validate_inventory_mandatory_fields
  validate_of_IsAccepted a =
      rw (provider_kept_iff.1 a.provider_kept, a.has_ref, validate_inventory)
        (rw (a.has_secret, validate_inventory)
          (rw (a.has_provider, validate_inventory)
            (rw (check_rds_iff.1 a.only_rds, a.selector_ok)
              ((validate_fields_iff (elements a.provider.spec.credential_fields) a.secret).1
                a.has_required))))

  -- The checks that come after the two reads.
  contents_iff :
      (secret : Secret) (provider : DbaasProvider)
      → validate_contents client inv old secret provider ≡ none
      → (check_rds client inv old ≡ none)
        × (validate_ns_selector client inv.spec.policy ≡ none)
        × HasRequired secret (elements provider.spec.credential_fields)
  unfolding validate_contents validate_inventory_mandatory_fields
  contents_iff secret provider h =
      ground (arith, validate_fields_iff (elements provider.spec.credential_fields) secret)

  IsAccepted_of_validate : validate_inventory client inv old ≡ none → IsAccepted
  unfolding validate_inventory
  IsAccepted_of_validate h = elim (Bool-cases (provider_changed inv old)) [
    | inl e ↦ absurd (ground arith)
    | inr kept ↦ elim (Option-cases inv.spec.credentials_ref) [
      | inl e ↦ absurd (ground arith)
      | inr (ref, has_ref) ↦
          elim (Result-cases
            (client.get_secret (record { namespace = inv.meta.namespace; name = ref.name }))) [
              | inr (e, q) ↦ absurd (ground arith)
              | inl (secret, has_secret) ↦
                  elim (Result-cases (client.get_provider inv.spec.provider_ref.name)) [
                    | inr (e, q) ↦ absurd (ground arith)
                    | inl (provider, has_provider) ↦
                        let rest = contents_iff secret provider (ground arith) in
                        record {
                          provider_kept = provider_kept_iff.0 kept;
                          ref = ref;
                          has_ref = has_ref;
                          secret = secret;
                          has_secret = has_secret;
                          provider = provider;
                          has_provider = has_provider;
                          only_rds = check_rds_iff.0 rest.0;
                          selector_ok = rest.1;
                          has_required = rest.2;
                        }
                  ]
            ]
    ]
  ]

  -- An inventory is accepted, at its creation and at an update, exactly if it is what `IsAccepted`
  -- asks.
  pub validate_inventory_iff : (validate_inventory client inv old ≡ none) ↔ IsAccepted
  validate_inventory_iff = (IsAccepted_of_validate, validate_of_IsAccepted)
