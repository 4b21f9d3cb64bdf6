-- ===== src/Controllers/Upgrade/Health.antt =====
-- The health of the conversion webhooks, over an API server that answers from one state.
use dbaas_operator.Prelude.{
  String, Bool, true, false, ◌≡◌, refl, List, [], ◌∷◌, ◌++◌, Bool-cases, inl, inr, if◌then◌else◌,
}
use dbaas_operator.Kube.Errors.{Result, ok, err, Result-cases}
use dbaas_operator.Controllers.Objects.{crd, Manifest}
use dbaas_operator.Controllers.Client.{Action, Run}
use dbaas_operator.Controllers.Install.{ObjectClient, named_key}
use dbaas_operator.Controllers.Upgrade.{is_healthy, check_crds, check_conversion_webhook_health}

-- The names of all webhooks, in their order.
abbrev pub all_names : List (List String) → List String
all_names [] = []
all_names (names ∷ webhooks) = names ++ all_names webhooks

-- The verdict on a list of names: the first CRD that cannot be read or is not healthy decides, and
-- where there is none, all is well.
abbrev pub verdict : (String → Result (Manifest crd)) → List String → Result Bool
verdict store [] = ok true
verdict store (name ∷ names) =
    let rest = verdict store names in
    elim (store name) [ err e ↦ err e | ok c ↦ if is_healthy c.body then rest else ok false ]

module _ {World : Type 0} (client : ObjectClient World) (namespace operator : String)
    (store : World → String → Result (Manifest crd))
    (reads : (w : World) (name : String)
      → client.get crd (named_key "" name) w ≡ (store w name, w)) where
  check_crds-verdict :
      (names more : List String) (rest : Action World (Result Bool)) (s : Run World)
      → rest s ≡ (verdict (store s.world) more, s)
      → check_crds client namespace operator names rest s
        ≡ (verdict (store s.world) (names ++ more), s)
  unfolding check_crds
  check_crds-verdict [] more rest s h = h
  check_crds-verdict (name ∷ names) more rest s h =
      let ih = check_crds-verdict names more rest s h in
      rw (reads s.world name) (elim (Result-cases (store s.world name)) [
        | inr (e, q) ↦ rw q refl
        | inl (c, q) ↦ rw q (elim (Bool-cases (is_healthy c.body)) [
          | inl good ↦ rw good ih
          | inr bad ↦ rw bad refl
        ])
      ])

  -- Over an API server that answers from a state which reading leaves as it is, the two loops of
  -- the check implement one pass over the names of all webhooks, in which the first CRD that cannot
  -- be read or is not healthy decides, and leave the run as it is.
  pub check_conversion_webhook_health-verdict :
      (webhooks : List (List String)) (s : Run World)
      → check_conversion_webhook_health client namespace operator webhooks s
        ≡ (verdict (store s.world) (all_names webhooks), s)
  unfolding check_conversion_webhook_health
  check_conversion_webhook_health-verdict [] s = refl
  check_conversion_webhook_health-verdict (names ∷ webhooks) s =
      check_crds-verdict names (all_names webhooks) _ s
        (check_conversion_webhook_health-verdict webhooks s)
