-- ===== src/Controllers/Upgrade/Laws.antt =====
-- What the fixes of the platform reconciler write.
use mathlib.Core.Path.{subst}
use mathlib.Core.List.{Memᴰ}
use dbaas_operator.Kube.{ObjectKey}
use dbaas_operator.Prelude.{
  ℕ, String, Bool, true, false, ◌≡◌, refl, inl, inr, Option, none, some, List, [], ◌∷◌, Bool-cases,
}
use dbaas_operator.Kube.Errors.{Error, Result, ok, err}
use dbaas_operator.Controllers.Objects.{csv, crd, validating_webhook, Manifest, key_of, deleted}
use dbaas_operator.Controllers.Client.{Call, change, Action, Run}
use dbaas_operator.Controllers.Install.{ObjectClient, named_key}
use dbaas_operator.Controllers.Install.Answers.{Extends, unchanged, one_more, Extends-trans}
use dbaas_operator.Controllers.Upgrade.{
  is_healthy, is_active, before, with_crd, unless_error, check_crds,
  check_conversion_webhook_health, delete_older, with_webhooks, with_health, with_operator,
  fix_conversion_webhooks,
}

module _ {World : Type 0} (client : ObjectClient World) (namespace operator : String) where
  -- The health of the conversion webhooks is only read.
  abbrev IsSilent : Action World (Result Bool) → Type 0
  IsSilent m = (s : Run World) → (m s).1.calls ≡ s.calls

  with_crd-IsSilent :
      (after : Action World (Result Bool)) (r : Result (Manifest crd))
      → IsSilent after
      → IsSilent (with_crd client namespace operator after r)
  with_crd-IsSilent after (err e) h s = refl
  with_crd-IsSilent after (ok c) h s = elim (Bool-cases (is_healthy c.body)) [
    | inl e ↦ rw e (h s)
    | inr e ↦ rw e refl
  ]

  check_crds-IsSilent :
      (names : List String) (rest : Action World (Result Bool))
      → IsSilent rest
      → IsSilent (check_crds client namespace operator names rest)
  unfolding check_crds
  check_crds-IsSilent [] rest h s = h s
  check_crds-IsSilent (name ∷ names) rest h s =
      with_crd-IsSilent (check_crds client namespace operator names rest)
        (client.get crd (named_key "" name) s.world).0 (check_crds-IsSilent names rest h)
        (record { world = (client.get crd (named_key "" name) s.world).1; calls = s.calls })

  check-IsSilent :
      (webhooks : List (List String))
      → IsSilent (check_conversion_webhook_health client namespace operator webhooks)
  unfolding check_conversion_webhook_health
  check-IsSilent [] s = refl
  check-IsSilent (crds ∷ webhooks) s = check_crds-IsSilent crds _ (check-IsSilent webhooks) s

  -- What the fix reads when it is run from `s`: the operator's CSV, the health of its conversion
  -- webhooks, and the validating webhooks with the operator's label.
  abbrev pub after_owner : Run World → Run World
  after_owner s = record {
    world = (client.get csv (named_key namespace operator) s.world).1;
    calls = s.calls;
  }

  abbrev pub health_of : Manifest csv → Run World → Result Bool × Run World
  health_of owner s =
      check_conversion_webhook_health client namespace operator owner.body.conversion_crds
        (after_owner s)

  -- The deletion, by the fix that is run from `s`, of a validating webhook that was listed under the
  -- operator's label and is older than the last update of the operator's CSV, where that CSV was
  -- read and is active, and its conversion webhooks were found not to be healthy.
  pub record IsStale (s : Run World) (key : ObjectKey) : Type 0 where
    pub owner : Manifest csv
    pub is_owner : (client.get csv (named_key namespace operator) s.world).0 ≡ ok owner
    pub active : is_active owner.body.phase ≡ true
    pub ill : (health_of owner s).0 ≡ ok false
    pub items : List (Manifest validating_webhook)
    pub listed :
        (client.list_labelled validating_webhook
          ("olm.owner", operator)
          (health_of owner s).1.world).0
        ≡ ok items
    pub webhook : Manifest validating_webhook
    pub is_listed : Memᴰ webhook items
    pub has_key : key ≡ key_of webhook.meta
    pub is_older : before webhook.body owner.body.last_update_time ≡ true

  abbrev pub DeletesStale : Run World → Call → Type 0
  DeletesStale s (change (deleted validating_webhook key)) = IsStale s key
  DeletesStale s _ = ⊥

  module _ (P : Call → Type 0) where
    unless_error-Extends :
        (rest : Action World (Option Error)) (e : Option Error)
        → ((s : Run World) → Extends P s.calls (rest s).1.calls)
        → (s : Run World)
        → Extends P s.calls (unless_error client namespace operator rest e s).1.calls
    unless_error-Extends rest none h s = h s
    unless_error-Extends rest (some e) h s = unchanged

    delete_older-Extends :
        (time : Option ℕ) (items : List (Manifest validating_webhook))
        → ((v : Manifest validating_webhook)
            → Memᴰ v items
            → before v.body time ≡ true
            → P (change (deleted validating_webhook (key_of v.meta))))
        → (s : Run World)
        → Extends P s.calls (delete_older client namespace operator time items s).1.calls
    unfolding delete_older
    delete_older-Extends time [] h s = unchanged
    delete_older-Extends time (v ∷ items) h s =
        let rest = delete_older-Extends time items (λ u m. h u (Memᴰ.tail m)) in
        elim (Bool-cases (before v.body time)) [
          | inl e ↦ rw e (
              Extends-trans _ (one_more (h v (Memᴰ.head refl) e) unchanged)
                (unless_error-Extends (delete_older client namespace operator time items) _ rest _))
          | inr e ↦ rw e (rest s)
        ]

  module _ (s : Run World) (owner : Manifest csv)
      (is_owner : (client.get csv (named_key namespace operator) s.world).0 ≡ ok owner)
      (active : is_active owner.body.phase ≡ true) where
    with_webhooks-Extends :
        (r : Result (List (Manifest validating_webhook))) (t : Run World)
        → (health_of owner s).0 ≡ ok false
        → (client.list_labelled validating_webhook
            ("olm.owner", operator)
            (health_of owner s).1.world).0
          ≡ r
        → Extends
            (DeletesStale s)
            t.calls
            (with_webhooks client namespace operator owner.body.last_update_time r t).1.calls
    with_webhooks-Extends (err e) t ill q = unchanged
    with_webhooks-Extends (ok items) t ill q =
        delete_older-Extends (DeletesStale s) owner.body.last_update_time items
          (λ v m older. record {
            owner = owner;
            is_owner = is_owner;
            active = active;
            ill = ill;
            items = items;
            listed = q;
            webhook = v;
            is_listed = m;
            has_key = refl;
            is_older = older;
          })
          t

    with_health-Extends :
        (r : Result Bool)
        → (health_of owner s).0 ≡ r
        → Extends
            (DeletesStale s)
            (health_of owner s).1.calls
            (with_health client namespace operator owner r (health_of owner s).1).1.calls
    with_health-Extends (err e) h = unchanged
    with_health-Extends (ok true) h = unchanged
    with_health-Extends (ok false) h = with_webhooks-Extends _ _ h refl

  with_operator-Extends :
      (r : Result (Manifest csv)) (s : Run World)
      → (client.get csv (named_key namespace operator) s.world).0 ≡ r
      → Extends
          (DeletesStale s)
          s.calls
          (with_operator client namespace operator r (after_owner s)).1.calls
  with_operator-Extends (err e) s q = unchanged
  with_operator-Extends (ok owner) s q = elim (Bool-cases (is_active owner.body.phase)) [
    | inl e ↦ rw e (
        subst
          (λ log.
            Extends (DeletesStale s) log
              (with_health client namespace operator owner (health_of owner s).0
                (health_of owner s).1).1.calls)
          (check-IsSilent owner.body.conversion_crds (after_owner s))
          (with_health-Extends s owner q e (health_of owner s).0 refl))
    | inr e ↦ rw e unchanged
  ]

  -- The fix of the conversion webhooks writes nothing but deletions of validating webhooks. Each
  -- was in the list that the fix read, of those with the operator's label, and is older than the
  -- last update of the operator's CSV; that CSV was read before and is active, and the check of its
  -- conversion webhooks answered that they are not healthy.
  pub fix_conversion_webhooks-Extends :
      (s : Run World)
      → Extends
          (DeletesStale s)
          s.calls
          (fix_conversion_webhooks client namespace operator s).1.calls
  unfolding fix_conversion_webhooks
  fix_conversion_webhooks-Extends s = with_operator-Extends _ s refl
