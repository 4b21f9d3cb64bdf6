-- ===== src/Controllers/Upgrade.antt =====
-- The fixes of each reconciliation in controllers/dbaasplatform_controller.go:
-- `fixConversionWebhooks` and `fixRDSControllerUpgrade`.
pub mod SetUp
pub mod Laws
pub mod Health
use dbaas_operator.Prelude.{
  ℕ, zero, suc, String, Bool, true, false, not, ◌&&◌, ◌||◌, Option, none, some, List, [], ◌∷◌, ◌==◌,
  if◌then◌else◌,
}
use dbaas_operator.Prelude.GoMap.{GoMap}
use dbaas_operator.Kube.{OwnerReference}
use dbaas_operator.Kube.Errors.{Error, other, is_not_found, Result, ok, err}
use dbaas_operator.Controllers.Objects.{
  Kind, CsvPhase, phase_succeeded, phase_installing, phase_failed, CsvReason, component_failed, csv,
  crd, deployment, secret, config_map, validating_webhook, platform_cr, Body, Conversion, Manifest,
  key_of,
}
use dbaas_operator.Controllers.Client
use dbaas_operator.Controllers.Client.{Action, pure, ◌>>=◌, read}
use dbaas_operator.Controllers.Install.{
  ObjectClient, named_meta, named_key, create_object, delete_object,
}

-- The condition on `crd.Spec.Conversion`.
abbrev pub is_healthy : Option Conversion → Bool
is_healthy none = false
is_healthy (some c) = (c.strategy == "Webhook") && c.has_ca_bundle

-- `v1alpha1.CSVPhaseSucceeded` or `v1alpha1.CSVPhaseInstalling`
abbrev pub is_active : CsvPhase → Bool
is_active phase_succeeded = true
is_active phase_installing = true
is_active _ = false

abbrev pub is_failed : CsvPhase → CsvReason → Bool
is_failed phase_failed component_failed = true
is_failed _ _ = false

-- `m < n`
abbrev pub ltb : ℕ → ℕ → Bool
ltb m zero = false
ltb zero (suc n) = true
ltb (suc m) (suc n) = ltb m n

-- `t.Before(u)` of two times, the latter a pointer.
abbrev pub before : ℕ → Option ℕ → Bool
before t none = false
before t (some u) = ltb t u

-- The message of the failed upgrade of the RDS controller.
abbrev pub selector_message : String
selector_message =
    "install strategy failed: Deployment.apps \"ack-rds-controller\" is invalid: spec.selector: Invalid value: v1.LabelSelector{MatchLabels:map[string]string{\"app.kubernetes.io/name\":\"ack-rds-controller\"}, MatchExpressions:[]v1.LabelSelectorRequirement(nil)}: field is immutable"

module _ {World : Type 0} (client : ObjectClient World) (namespace operator : String) where
  -- From the answer of `Get` on.
  abbrev pub with_crd :
      Action World (Result Bool) → Result (Manifest crd) → Action World (Result Bool)
  with_crd after (err e) s = (err e, s)
  with_crd after (ok c) s = if is_healthy c.body then after s else (ok false, s)

  -- The inner loop of `checkConversionWebhookHealth`; `rest` goes on with the next webhook.
  unfoldable pub check_crds : List String → Action World (Result Bool) → Action World (Result Bool)
  check_crds [] rest = rest
  check_crds (name ∷ names) rest =
      let after = check_crds names rest in
      (do found ← read (client.get crd (named_key "" name)); with_crd after found)

  unfoldable pub check_conversion_webhook_health : List (List String) → Action World (Result Bool)
  unfolding check_crds
  check_conversion_webhook_health [] = pure (ok true)
  check_conversion_webhook_health (crds ∷ webhooks) =
      let rest = check_conversion_webhook_health webhooks in check_crds crds rest

  -- `if err != nil { return err }`
  abbrev pub unless_error : Action World (Option Error) → Option Error → Action World (Option Error)
  unless_error rest none s = rest s
  unless_error rest (some e) s = (some e, s)

  -- The loop over the validating webhooks, which ends at the first error.
  unfoldable pub delete_older :
      Option ℕ → List (Manifest validating_webhook) → Action World (Option Error)
  delete_older time [] = pure none
  delete_older time (v ∷ items) =
      let rest = delete_older time items in
      if before v.body time
      then (do e ← delete_object client validating_webhook (key_of v.meta); unless_error rest e)
      else rest

  abbrev pub with_webhooks :
      Option ℕ → Result (List (Manifest validating_webhook)) → Action World (Option Error)
  with_webhooks time (err e) s = (some e, s)
  with_webhooks time (ok items) s = delete_older time items s

  -- From the answer of `checkConversionWebhookHealth` on.
  abbrev pub with_health : Manifest csv → Result Bool → Action World (Option Error)
  with_health owner (err e) s = (some e, s)
  with_health owner (ok true) s = (none, s)
  with_health owner (ok false) s =
      (do
        items ← read (client.list_labelled validating_webhook ("olm.owner", operator))
        with_webhooks owner.body.last_update_time items)
        s

  abbrev pub with_operator : Result (Manifest csv) → Action World (Option Error)
  with_operator (err e) s = (some e, s)
  with_operator (ok owner) s =
      if is_active owner.body.phase
      then (do
        healthy ← check_conversion_webhook_health owner.body.conversion_crds
        with_health owner healthy)
          s
      else (none, s)

  unfoldable pub fix_conversion_webhooks : Action World (Option Error)
  unfolding check_conversion_webhook_health delete_older
  fix_conversion_webhooks = do
    owner ← read (client.get csv (named_key namespace operator))
    with_operator owner

  abbrev pub ack_failed : Manifest csv → Bool
  ack_failed c = is_failed c.body.phase c.body.reason && (c.body.message == selector_message)

  abbrev pub with_ack : Result (Manifest csv) → Action World (Option Error)
  with_ack (err e) s = ((if is_not_found e then none else some e), s)
  with_ack (ok c) s =
      if ack_failed c
      then delete_object client deployment (named_key namespace "ack-rds-controller") s
      else (none, s)

  unfoldable pub fix_rds_controller_upgrade : Action World (Option Error)
  fix_rds_controller_upgrade = do
    c ← read (client.get csv (named_key namespace "ack-rds-controller.v0.1.3"))
    with_ack c

  -- What the two fixes of a reconciliation leave, their errors dropped.
  abbrev pub run_fixes : World → World
  run_fixes w =
      let (e, s) = fix_conversion_webhooks (record { world = w; calls = [] }) in
      let (e', t) = fix_rds_controller_upgrade s in t.world
