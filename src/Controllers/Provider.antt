-- ===== src/Controllers/Provider.antt =====
-- controllers/dbaasprovider_controller.go, with `watchDBaaSProviderObject` of
-- controllers/dbaas_reconciler.go. `begin` is `Watch` of one of the three controllers.
use dbaas_operator.Prelude.{
  ℕ, zero, suc, String, Bool, true, false, not, ◌≡◌, refl, sym, ap, ◌∙◌, Option, none, some, ◌∷◌,
  arith, if◌then◌else◌,
}
use dbaas_operator.Kube.{GroupVersion}
use dbaas_operator.Kube.Errors.{Error, is_not_found, Result, ok, err}
use dbaas_operator.Api.V1beta1.{DbaasProvider}
use dbaas_operator.Controllers.Client.{
  done, Outcome, Watcher, inventory_ctrl, connection_ctrl, instance_ctrl, watch, Client, Library,
  Action, Run, ◌>>=◌, read, write,
}
use dbaas_operator.Controllers.Common.Provider.{get_dbaas_api_group_version}

-- The events of the controller, an update with the old and the new generation.
pub data Event : Type 0 where
  create_event delete_event generic_event : Event
  update_event : ℕ → ℕ → Event

abbrev same : ℕ → ℕ → Bool
same zero zero = true
same (suc m) (suc n) = same m n
same _ _ = false

-- `filterEventPredicate`
unfoldable pub filter_event : Event → Bool
filter_event create_event = true
filter_event (update_event old new) = not (same new old)
filter_event delete_event = false
filter_event generic_event = false

module _ {World : Type 0} (client : Client World) (lib : Library)
    (begin : Watcher → GroupVersion → String → World → Option Error × World) where
  abbrev pub watch_provider_object : Watcher → String → GroupVersion → Action World (Option Error)
  watch_provider_object ctrl kind gv = write (watch ctrl gv kind) (begin ctrl gv kind)

  -- `if err != nil { return ctrl.Result{}, err }`
  abbrev pub or_error : Action World Outcome → Option Error → Action World Outcome
  or_error rest none s = rest s
  or_error rest (some e) s = ((done, some e), s)

  abbrev pub watch_instances : DbaasProvider → GroupVersion → Action World Outcome
  watch_instances provider gv = do
    e ← watch_provider_object instance_ctrl provider.spec.instance_kind gv
    or_error (λ s. ((done, none), s)) e

  abbrev pub watch_connections : DbaasProvider → GroupVersion → Action World Outcome
  watch_connections provider gv = do
    e ← watch_provider_object connection_ctrl provider.spec.connection_kind gv
    or_error (watch_instances provider gv) e

  abbrev pub watch_inventories : DbaasProvider → GroupVersion → Action World Outcome
  watch_inventories provider gv = do
    e ← watch_provider_object inventory_ctrl provider.spec.inventory_kind gv
    or_error (watch_connections provider gv) e

  -- From the answer of `Get` on.
  abbrev pub with_provider : Result DbaasProvider → Action World Outcome
  with_provider (err e) s = ((done, if is_not_found e then none else some e), s)
  with_provider (ok provider) s =
      watch_inventories provider (get_dbaas_api_group_version lib provider) s

  unfoldable pub reconcile : String → Action World Outcome
  reconcile name = do provider ← read (client.get_provider name); with_provider provider

  or_error-none :
      (rest : Action World Outcome) (e : Option Error) (s : Run World)
      → (or_error rest e s).0.1 ≡ none
      → or_error rest e s ≡ rest s
  or_error-none rest none s h = refl
  or_error-none rest (some e) s h = absurd (ground (arith, h))

  abbrev after : Watcher → String → GroupVersion → Run World → Run World
  after ctrl kind gv s = record {
    world = (begin ctrl gv kind s.world).1;
    calls = watch ctrl gv kind ∷ s.calls;
  }

  -- A reconciliation of a provider that is read and that ends with no error has begun to watch the
  -- provider's inventories, connections and instances, in this order and in its group and version.
  pub reconcile_watches :
      (name : String) (provider : DbaasProvider) (w : World) (s : Run World)
      → client.get_provider name s.world ≡ (ok provider, w)
      → (reconcile name s).0.1 ≡ none
      → let gv = get_dbaas_api_group_version lib provider in
        (reconcile name s).1.calls
        ≡ watch instance_ctrl gv provider.spec.instance_kind
          ∷ watch connection_ctrl gv provider.spec.connection_kind
          ∷ watch inventory_ctrl gv provider.spec.inventory_kind
          ∷ s.calls
  unfolding reconcile
  reconcile_watches name provider w s h e =
      let gv = get_dbaas_api_group_version lib provider in
      let s1 =
        after inventory_ctrl provider.spec.inventory_kind gv
          (record { world = w; calls = s.calls }) in
      let s2 = after connection_ctrl provider.spec.connection_kind gv s1 in
      let s3 = after instance_ctrl provider.spec.instance_kind gv s2 in
      let zero = rw h at e in
      let one = or_error-none (watch_connections provider gv) _ s1 zero in
      let e1 = ap (λ r. r.0.1) (sym one) ∙ zero in
      let two = or_error-none (watch_instances provider gv) _ s2 e1 in
      let e2 = ap (λ r. r.0.1) (sym two) ∙ e1 in
      let three = or_error-none (λ t. ((done, none), t)) _ s3 e2 in
      rw h (ap (λ r. r.1.calls) (one ∙ two ∙ three))
