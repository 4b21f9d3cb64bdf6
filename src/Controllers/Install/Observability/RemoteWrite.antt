-- ===== src/Controllers/Install/Observability/RemoteWrite.antt =====
-- The Prometheus configuration of controllers/reconcilers/observability/
-- observability_operator_reconciler.go, with `GetClusterIDVersion` of controllers/util/openshift.go.
-- The functions read the cluster inside `CreateOrUpdate` and return a value beside an error, which
-- their callers may drop.
use dbaas_operator.Prelude.{
  String, true, false, ◌&&◌, Option, none, some, [], ◌∷◌, ◌==◌, non_empty, if◌then◌else◌, ◌+++◌,
}
use dbaas_operator.Prelude.GoMap.{GoMap, lookup}
use dbaas_operator.Kube.Errors.{Error, other, is_not_found, Result, ok, err}
use dbaas_operator.Api.V1beta1.{ObservabilityConfig}
use dbaas_operator.Controllers.Objects.{
  secret, cluster_version, Manifest, RemoteWriteSpec, PrometheusConfig,
}
use dbaas_operator.Controllers.Install.{ObjectClient, named_key}

-- `GetObservabilityConfig`, with `os.Getenv` as an argument.
unfoldable pub get_observability_config : (String → String) → ObservabilityConfig
get_observability_config getenv = record {
  auth_type = getenv "RHOBS_AUTH_TYPE";
  remote_writes_url = getenv "RHOBS_API_URL";
  rhsso_token_url = getenv "RH_SSO_TOKEN_ENDPOINT";
  addon_name = getenv "ADDON_NAME";
  rhobs_secret_name = getenv "ADDON_NAME" +++ "-prom-remote-write";
}

abbrev pub empty_spec : RemoteWriteSpec
empty_spec = record {
  url = "";
  bearer_token = "";
  oauth2 = none;
  insecure_skip_verify = false;
  relabel_regex = "";
}

-- `metricsToInclude`, joined
abbrev pub metrics_regex : String
metrics_regex = "(dbaas_.*$|csv_succeeded$|csv_abnormal$|ALERTS$|subscription_sync_total)"

abbrev pub token_key : String
token_key = "rhobs-token"

abbrev pub id_key : String
id_key = "prom-remote-write-config-id"

abbrev pub secret_key : String
secret_key = "prom-remote-write-config-secret"

abbrev pub no_value : String → RemoteWriteSpec × Option Error
no_value key = (empty_spec, some (other ("rhobs secret does not contain a value for key " +++ key)))

-- What is made of the secret's data, for each type of authentication.
unfoldable pub dex_spec : ObservabilityConfig → GoMap String → RemoteWriteSpec × Option Error
dex_spec config contents = elim (lookup token_key contents) [
  | none ↦ no_value token_key
  | some token ↦ (
    record {
      url = config.remote_writes_url;
      bearer_token = token;
      oauth2 = none;
      insecure_skip_verify = true;
      relabel_regex = metrics_regex;
    },
    none,
  )
]

abbrev pub oauth2_spec : ObservabilityConfig → String → RemoteWriteSpec
oauth2_spec config audience = record {
  url = config.remote_writes_url;
  bearer_token = "";
  oauth2 = some (record {
    secret_name = config.rhobs_secret_name;
    client_id_key = id_key;
    client_secret_key = secret_key;
    token_url = config.rhsso_token_url;
    audience = audience;
  });
  insecure_skip_verify = true;
  relabel_regex = metrics_regex;
}

unfoldable pub rhobs_spec : ObservabilityConfig → GoMap String → RemoteWriteSpec × Option Error
rhobs_spec config contents = elim (lookup id_key contents) [
  | none ↦ no_value id_key
  | some id ↦ elim (lookup secret_key contents) [
    | none ↦ no_value secret_key
    | some s ↦ elim (lookup "rhobs-audience" contents) [
      | none ↦ no_value "rhobs-audience"
      | some audience ↦ (oauth2_spec config audience, none)
    ]
  ]
]

module _ {World : Type 0} (client : ObjectClient World) (config : ObservabilityConfig) where
  -- The error of `validateSecret`, and else what is made of the data.
  abbrev pub with_secret :
      String
      → (GoMap String → RemoteWriteSpec × Option Error)
      → Result (Manifest secret)
      → RemoteWriteSpec × Option Error
  with_secret namespace make (err e) = (
    empty_spec,
    some (
        if is_not_found e
        then other ("rhobs remote write secret not found in namespace " +++ namespace)
        else e),
  )
  with_secret namespace make (ok s) = make s.body

  -- `validateSecret`, and what the caller makes of the secret.
  abbrev pub validate_secret :
      String
      → (GoMap String → RemoteWriteSpec × Option Error)
      → World
      → (RemoteWriteSpec × Option Error) × World
  validate_secret namespace make w =
      let (s, w') = client.get secret (named_key namespace config.rhobs_secret_name) w in
      (with_secret namespace make s, w')

  unfoldable pub get_dex_remote_write_spec :
      String → World → (RemoteWriteSpec × Option Error) × World
  unfolding dex_spec
  get_dex_remote_write_spec namespace w =
      if non_empty config.remote_writes_url
      then validate_secret namespace (dex_spec config) w
      else ((empty_spec, none), w)

  unfoldable pub get_rhobs_remote_write_spec :
      String → World → (RemoteWriteSpec × Option Error) × World
  unfolding rhobs_spec
  get_rhobs_remote_write_spec namespace w =
      if non_empty config.remote_writes_url
        && non_empty config.rhsso_token_url
        && non_empty config.rhobs_secret_name
      then validate_secret namespace (rhobs_spec config) w
      else ((empty_spec, none), w)

  unfoldable pub configure_remote_write : String → World → (RemoteWriteSpec × Option Error) × World
  unfolding get_dex_remote_write_spec get_rhobs_remote_write_spec
  configure_remote_write namespace w =
      if config.auth_type == "dex"
      then get_dex_remote_write_spec namespace w
      else if config.auth_type == "redhat-sso"
      then get_rhobs_remote_write_spec namespace w
      else ((empty_spec, some (other ("unknown auth type " +++ config.auth_type))), w)

  abbrev pub labels_of : String → GoMap String
  labels_of id = if non_empty id then ("cluster_id", id) ∷ [] else []

  -- From the answer of `GetClusterIDVersion` on. The error of `configureRemoteWrite` is dropped, and
  -- the spec that came with it is taken.
  abbrev pub with_cluster_id :
      String → Result (Manifest cluster_version) → World → (PrometheusConfig × Option Error) × World
  with_cluster_id namespace (err e) w =
      ((record { replicas = 1; external_labels = []; remote_write = [] }, some e), w)
  with_cluster_id namespace (ok v) w =
      let ((spec, e), w') = configure_remote_write namespace w in
      (
        (
          record { replicas = 1; external_labels = labels_of v.body; remote_write = spec ∷ [] },
          none,
        ),
        w',
      )

  unfoldable pub set_prometheus_config : String → World → (PrometheusConfig × Option Error) × World
  unfolding configure_remote_write
  set_prometheus_config namespace w =
      let (v, w') = client.get cluster_version (named_key "" "version") w in
      with_cluster_id namespace v w'
