-- ===== src/Controllers/Objects.antt =====
-- The objects of the cluster that the installers and the platform reconciler read and write: of the
-- libraries' types, the fields that the code reads or sets. A kind has its own body, so that a call
-- of the client for one kind gives or takes an object of that kind.
use dbaas_operator.Prelude.{ℕ, ℤ, String, Bool, Option, List}
use dbaas_operator.Prelude.GoMap.{GoMap}
use dbaas_operator.Kube.{ObjectMeta, ObjectKey}

pub data Kind : Type 0 where
  subscription catalog_source operator_group csv deployment service : Kind
  console_plugin console quick_start monitoring_stack service_monitor secret config_map : Kind
  crd validating_webhook cluster_version platform_cr : Kind

-- v1alpha1.SubscriptionSpec; `env` is that of the optional `Config`.
pub record SubscriptionSpec : Type 0 where
  pub catalog_source : String
  pub catalog_source_namespace : String
  pub package_name : String
  pub channel : String
  pub starting_csv : String
  pub install_plan_approval : String
  pub env : Option (GoMap String)

-- v1alpha1.CatalogSourceSpec
pub record CatalogSourceSpec : Type 0 where
  pub source_type : String
  pub image : String
  pub display_name : String
  pub security_context_config : String

-- coreosv1.OperatorGroupSpec, of which the code knows the zero value only.
pub data OperatorGroupSpec : Type 0 where
  no_targets : OperatorGroupSpec
  with_targets : String → OperatorGroupSpec

-- The phases and the reason of a CSV that the code names.
pub data CsvPhase : Type 0 where
  phase_succeeded phase_installing phase_failed : CsvPhase
  other_phase : String → CsvPhase

pub data CsvReason : Type 0 where
  component_failed : CsvReason
  other_reason : String → CsvReason

-- v1alpha1.ClusterServiceVersion: its status, and the CRDs of each webhook definition.
pub record CsvBody : Type 0 where
  pub phase : CsvPhase
  pub reason : CsvReason
  pub message : String
  pub last_update_time : Option ℕ
  pub conversion_crds : List (List String)

-- What the code sets of a container.
pub record Container : Type 0 where
  pub name : String
  pub image : String
  pub port : ℕ
  pub pull_policy : String
  pub command : List String
  pub args : List String
  pub volume_mount : String
  pub mount_path : String
  pub env : GoMap String
  pub allow_privilege_escalation : Bool
  pub read_only_root : Bool
  pub run_as_non_root : Bool
  pub dropped_capabilities : List String
  pub liveness_delay : ℕ
  pub readiness_delay : ℕ
  pub readiness_period : ℕ

-- appv1.DeploymentSpec
pub record DeploymentSpec : Type 0 where
  pub replicas : ℕ
  pub match_labels : GoMap String
  pub template_labels : GoMap String
  pub containers : List Container
  pub secret_volume : String
  pub secret_mode : ℕ
  pub restart_policy : String
  pub dns_policy : String
  pub strategy : String
  pub max_unavailable : String
  pub max_surge : String

pub record DeploymentBody : Type 0 where
  pub spec : Option DeploymentSpec
  pub ready_replicas : ℕ
  pub replicas : ℕ

pub record ServiceBody : Type 0 where
  pub port_name : String
  pub protocol : String
  pub port : ℕ
  pub selector : GoMap String
  pub type : String
  pub session_affinity : String

pub record ConsolePluginBody : Type 0 where
  pub display_name : String
  pub service_name : String
  pub service_namespace : String
  pub port : ℕ
  pub base_path : String

-- The plugins, and the type and status of each condition.
pub record ConsoleBody : Type 0 where
  pub plugins : List String
  pub conditions : GoMap String

-- rhobsv1.RemoteWriteSpec: the code sets a bearer token, or `OAuth2` with the keys of a secret.
pub record Oauth2 : Type 0 where
  pub secret_name : String
  pub client_id_key : String
  pub client_secret_key : String
  pub token_url : String
  pub audience : String

pub record RemoteWriteSpec : Type 0 where
  pub url : String
  pub bearer_token : String
  pub oauth2 : Option Oauth2
  pub insecure_skip_verify : Bool
  pub relabel_regex : String

pub record PrometheusConfig : Type 0 where
  pub replicas : ℕ
  pub external_labels : GoMap String
  pub remote_write : List RemoteWriteSpec

pub record MonitoringStackBody : Type 0 where
  pub log_level : String
  pub resource_selector : GoMap String
  pub prometheus_config : Option PrometheusConfig

pub record ServiceMonitorBody : Type 0 where
  pub interval : String
  pub path : String
  pub port : String
  pub scheme : String
  pub selector : GoMap String

-- What a definition of custom resources says of its conversion: the strategy, and whether there is
-- a client configuration with a CA bundle.
pub record Conversion : Type 0 where
  pub strategy : String
  pub has_ca_bundle : Bool

abbrev pub Body : Kind → Type 0
Body subscription = Option SubscriptionSpec
Body catalog_source = CatalogSourceSpec
Body operator_group = OperatorGroupSpec
Body csv = CsvBody
Body deployment = DeploymentBody
Body service = ServiceBody
Body console_plugin = ConsolePluginBody
Body console = ConsoleBody
-- the spec of a quick start, as it is in its file
Body quick_start = String
Body monitoring_stack = MonitoringStackBody
Body service_monitor = ServiceMonitorBody
Body secret = GoMap String
Body config_map = GoMap String
Body crd = Option Conversion
-- the time of its creation
Body validating_webhook = ℕ
-- the ID of the cluster
Body cluster_version = String
-- the sync period
Body platform_cr = Option ℤ

pub record Manifest (k : Kind) : Type 0 where
  pub meta : ObjectMeta
  pub annotations : GoMap String
  pub body : Body k

-- `client.ObjectKeyFromObject`
abbrev pub key_of : ObjectMeta → ObjectKey
key_of meta = record { namespace = meta.namespace; name = meta.name }

-- The calls that write an object: `CreateOrUpdate` of the object as the code makes it, `Create`,
-- `Update` and `Delete`.
pub data Change : Type 0 where
  applied created updated : (k : Kind) → Manifest k → Change
  deleted : Kind → ObjectKey → Change
