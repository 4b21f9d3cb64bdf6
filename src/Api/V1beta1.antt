-- ===== src/Api/V1beta1.antt =====
-- api/v1beta1: dbaasprovider.go, the *_types.go files and the provider names of
-- dbaasprovider_conversion.go. Pointers, slices and maps are as in `V1alpha1`.
mod Names
pub use Names.*
use dbaas_operator.Prelude.{ℕ, ℤ, String, Bool, Option, List}
use dbaas_operator.Prelude.GoMap.{GoMap}
use dbaas_operator.Kube.{ObjectMeta, LabelSelector}
use dbaas_operator.Kube.Conditions.{Condition}

pub record ProviderIcon : Type 0 where
  pub base64data : String
  pub mediatype : String

pub record DatabaseProviderInfo : Type 0 where
  pub name : String
  pub display_name : String
  pub display_description : String
  pub icon : ProviderIcon

pub record CredentialField : Type 0 where
  pub key : String
  pub display_name : String
  pub type : String
  pub required : Bool
  pub help_text : String

-- `Option` of the source: a value that the user interface offers.
pub record ParameterOption : Type 0 where
  pub value : String
  pub display_value : String

pub record FieldDependency : Type 0 where
  pub field : String
  pub value : String

pub record ConditionalProvisioningParameterData : Type 0 where
  pub dependencies : List FieldDependency
  pub options : List ParameterOption
  pub default_value : String

pub record ProvisioningParameter : Type 0 where
  pub display_name : String
  pub help_text : String
  pub conditional_data : List ConditionalProvisioningParameterData

pub record DbaasProviderSpec : Type 0 where
  pub provider : DatabaseProviderInfo
  pub group_version : String
  pub inventory_kind : String
  pub connection_kind : String
  pub instance_kind : String
  pub credential_fields : Option (List CredentialField)
  pub allows_free_trial : Bool
  pub external_provision_url : String
  pub external_provision_description : String
  pub provisioning_parameters : GoMap ProvisioningParameter

pub record DbaasProviderStatus : Type 0 where
  pub conditions : List Condition

pub record DbaasProvider : Type 0 where
  pub meta : ObjectMeta
  pub spec : DbaasProviderSpec
  pub status : DbaasProviderStatus

pub record LocalObjectReference : Type 0 where
  pub name : String

pub record NamespacedName : Type 0 where
  pub namespace : String
  pub name : String

pub record DatabaseService : Type 0 where
  pub service_id : String
  pub service_name : String
  pub service_type : Option String
  pub service_info : GoMap String

pub record DbaasInventoryStatus : Type 0 where
  pub conditions : List Condition
  pub database_services : Option (List DatabaseService)

pub record DbaasConnectionPolicy : Type 0 where
  pub namespaces : Option (List String)
  pub ns_selector : Option LabelSelector

pub record DbaasInventoryPolicy : Type 0 where
  pub disable_provisions : Option Bool
  pub connections : DbaasConnectionPolicy

-- The embedded `DBaaSInventorySpec` has the one field `credentials_ref`.
pub record DbaasOperatorInventorySpec : Type 0 where
  pub provider_ref : NamespacedName
  pub credentials_ref : Option LocalObjectReference
  pub policy : Option DbaasInventoryPolicy

pub record DbaasInventory : Type 0 where
  pub meta : ObjectMeta
  pub spec : DbaasOperatorInventorySpec
  pub status : DbaasInventoryStatus

pub record DbaasPolicyStatus : Type 0 where
  pub conditions : List Condition

-- The spec of a policy embeds `DBaaSInventoryPolicy` and nothing else.
pub record DbaasPolicy : Type 0 where
  pub meta : ObjectMeta
  pub spec : DbaasInventoryPolicy
  pub status : DbaasPolicyStatus

pub record DbaasConnectionSpec : Type 0 where
  pub inventory_ref : NamespacedName
  pub database_service_id : String
  pub database_service_ref : Option NamespacedName
  pub database_service_type : Option String

pub record DbaasConnectionStatus : Type 0 where
  pub conditions : List Condition
  pub credentials_ref : Option LocalObjectReference
  pub connection_info_ref : Option LocalObjectReference

pub record DbaasConnection : Type 0 where
  pub meta : ObjectMeta
  pub spec : DbaasConnectionSpec
  pub status : DbaasConnectionStatus

pub record DbaasInstanceSpec : Type 0 where
  pub inventory_ref : NamespacedName
  pub provisioning_parameters : GoMap String

pub record DbaasInstanceStatus : Type 0 where
  pub conditions : List Condition
  pub instance_id : String
  pub instance_info : GoMap String
  pub phase : String

pub record DbaasInstance : Type 0 where
  pub meta : ObjectMeta
  pub spec : DbaasInstanceSpec
  pub status : DbaasInstanceStatus

pub record DbaasProviderConnection : Type 0 where
  pub meta : ObjectMeta
  pub spec : DbaasConnectionSpec
  pub status : DbaasConnectionStatus

-- The spec of a provider's inventory is not read.
pub record DbaasProviderInventory : Type 0 where
  pub meta : ObjectMeta
  pub status : DbaasInventoryStatus

pub record DbaasProviderInstance : Type 0 where
  pub meta : ObjectMeta
  pub spec : DbaasInstanceSpec
  pub status : DbaasInstanceStatus

-- `PlatformInstlnStatus`, with the empty text that a fresh status holds.
pub data PlatformInstlnStatus : Type 0 where
  result_success result_failed result_in_progress unset : PlatformInstlnStatus

-- `PlatformType` is an int, of which four values have a name.
pub data PlatformType : Type 0 where
  type_quick_start type_console_plugin type_operator type_observability : PlatformType
  unnamed_type : ℕ → PlatformType

pub record PlatformConfig : Type 0 where
  pub name : String
  pub csv : String
  pub deployment_name : String
  pub image : String
  pub package_name : String
  pub channel : String
  pub display_name : String
  pub envs : GoMap String
  pub type : PlatformType

pub record PlatformStatus : Type 0 where
  pub platform_name : String
  pub platform_status : PlatformInstlnStatus
  pub last_message : String

pub record DbaasPlatformStatus : Type 0 where
  pub conditions : List Condition
  pub platforms_status : List PlatformStatus

pub record DbaasPlatform : Type 0 where
  pub meta : ObjectMeta
  pub sync_period : Option ℤ
  pub status : DbaasPlatformStatus

pub record ObservabilityConfig : Type 0 where
  pub remote_writes_url : String
  pub auth_type : String
  pub addon_name : String
  pub rhsso_token_url : String
  pub rhobs_secret_name : String
