-- ===== src/Controllers/Install/Observability/Errors.antt =====
-- The errors of the Prometheus configuration that do not reach the answer of the reconciler.
use dbaas_operator.Prelude.{
  String, true, ◌≡◌, refl, ap, ◌⊎◌, Option, none, [], ◌∷◌, arith, is_some, ◌==◌, ◌&&◌, non_empty,
  Bool-cases, inl, inr,
}
use dbaas_operator.Prelude.GoMap.{GoMap}
use dbaas_operator.Kube.Errors.{Error, Result, ok, err}
use dbaas_operator.Api.V1beta1.{ObservabilityConfig}
use dbaas_operator.Controllers.Objects.{secret, cluster_version, Manifest, RemoteWriteSpec}
use dbaas_operator.Controllers.Install.{ObjectClient, named_key}
use dbaas_operator.Controllers.Install.Observability.RemoteWrite.{
  empty_spec, dex_spec, rhobs_spec, with_secret, get_dex_remote_write_spec,
  get_rhobs_remote_write_spec, configure_remote_write, labels_of, set_prometheus_config,
}

-- A spec beside an error is empty, and else it is empty or writes to the configured URL.
abbrev IsChecked : ObservabilityConfig → RemoteWriteSpec × Option Error → Type 0
IsChecked config (spec, e) =
    (is_some e ≡ true → spec ≡ empty_spec)
    × ((spec ≡ empty_spec) ⊎ (spec.url ≡ config.remote_writes_url))

dex_spec-IsChecked :
    (config : ObservabilityConfig) (m : GoMap String) → IsChecked config (dex_spec config m)
unfolding dex_spec
dex_spec-IsChecked config m = ground arith

rhobs_spec-IsChecked :
    (config : ObservabilityConfig) (m : GoMap String) → IsChecked config (rhobs_spec config m)
unfolding rhobs_spec
rhobs_spec-IsChecked config m = ground arith

module _ {World : Type 0} (client : ObjectClient World) (config : ObservabilityConfig) where
  with_secret-IsChecked :
      (namespace : String) (make : GoMap String → RemoteWriteSpec × Option Error)
      → ((m : GoMap String) → IsChecked config (make m))
      → (r : Result (Manifest secret))
      → IsChecked config (with_secret client config namespace make r)
  with_secret-IsChecked namespace make h (err e) = ((λ q. refl), inl refl)
  with_secret-IsChecked namespace make h (ok s) = h s.body

  dex-IsChecked :
      (namespace : String) (w : World)
      → IsChecked config (get_dex_remote_write_spec client config namespace w).0
  unfolding get_dex_remote_write_spec
  dex-IsChecked namespace w = elim (Bool-cases (non_empty config.remote_writes_url)) [
    | inl e ↦ rw e (with_secret-IsChecked namespace (dex_spec config) (dex_spec-IsChecked config) _)
    | inr e ↦ rw e ((λ q. refl), inl refl)
  ]

  rhobs-IsChecked :
      (namespace : String) (w : World)
      → IsChecked config (get_rhobs_remote_write_spec client config namespace w).0
  unfolding get_rhobs_remote_write_spec
  rhobs-IsChecked namespace w =
      elim (Bool-cases (
        non_empty config.remote_writes_url
        && non_empty config.rhsso_token_url
        && non_empty config.rhobs_secret_name)) [
          | inl e ↦
              rw e (
                with_secret-IsChecked namespace (rhobs_spec config) (rhobs_spec-IsChecked config) _)
          | inr e ↦ rw e ((λ q. refl), inl refl)
        ]

  pub configure-IsChecked :
      (namespace : String) (w : World)
      → IsChecked config (configure_remote_write client config namespace w).0
  unfolding configure_remote_write
  configure-IsChecked namespace w = elim (Bool-cases (config.auth_type == "dex")) [
    | inl e ↦ rw e (dex-IsChecked namespace w)
    | inr e ↦ elim (Bool-cases (config.auth_type == "redhat-sso")) [
      | inl f ↦ rw e (rw f (rhobs-IsChecked namespace w))
      | inr f ↦ rw e (rw f ((λ q. refl), inl refl))
    ]
  ]

  -- Where the version of the cluster is read, the configuration of Prometheus has one remote write
  -- and comes with no error. An error in making that remote write leaves it empty; in every case it
  -- is empty or writes to the configured URL.
  pub set_prometheus_config-drops_error :
      (namespace : String) (w : World) (v : Manifest cluster_version)
      → (client.get cluster_version (named_key "" "version") w).0 ≡ ok v
      → let w' = (client.get cluster_version (named_key "" "version") w).1 in
        let (spec, e) = (configure_remote_write client config namespace w').0 in
        let r = (set_prometheus_config client config namespace w).0 in
        (r ≡ (
          record {
            replicas = 1;
            external_labels = labels_of client config v.body;
            remote_write = spec ∷ [];
          },
          none,
        ))
        × (is_some e ≡ true → r.0.remote_write ≡ empty_spec ∷ [])
        × ((spec ≡ empty_spec) ⊎ (spec.url ≡ config.remote_writes_url))
  unfolding set_prometheus_config
  set_prometheus_config-drops_error namespace w v h =
      let w' = (client.get cluster_version (named_key "" "version") w).1 in
      let checked = configure-IsChecked namespace w' in
      (rw h refl, (λ q. rw h (ap (λ spec. spec ∷ []) (checked.0 q))), checked.1)
