-- ===== src/Api/V1alpha1.antt =====
-- api/v1alpha1: dbaasprovider.go and the *_types.go files. A pointer is an `Option`. A slice or a map
-- of which the code asks whether it is nil, or which a conversion may make nil where it was empty, is
-- an `Option` of its elements.
use dbaas_operator.Prelude.{String, Bool, Option, List}
use dbaas_operator.Prelude.GoMap.{GoMap}
use dbaas_operator.Kube.{ObjectMeta, LabelSelector, GroupVersion}
use dbaas_operator.Kube.Conditions.{Condition}

abbrev pub group_version : GroupVersion
group_version = record { group = "dbaas.redhat.com"; version = "v1alpha1" }

pub record ProviderIcon : Type 0 where
  pub base64data : String
  pub mediatype : String

pub record DatabaseProvider : Type 0 where
  pub name : String
  pub display_name : String
  pub display_description : String
  pub icon : ProviderIcon

pub record CredentialField : Type 0 where
  pub key : String
  pub display_name : String
  pub type : String
  pub required : Bool
  pub help_text : String

pub record InstanceParameterSpec : Type 0 where
  pub name : String
  pub display_name : String
  pub type : String
  pub required : Bool
  pub default_value : String

pub record DbaasProviderSpec : Type 0 where
  pub provider : DatabaseProvider
  pub inventory_kind : String
  pub connection_kind : String
  pub instance_kind : String
  pub credential_fields : Option (List CredentialField)
  pub allows_free_trial : Bool
  pub external_provision_url : String
  pub external_provision_description : String
  pub instance_parameter_specs : Option (List InstanceParameterSpec)

pub record DbaasProviderStatus : Type 0 where
  pub conditions : List Condition

pub record DbaasProvider : Type 0 where
  pub meta : ObjectMeta
  pub spec : DbaasProviderSpec
  pub status : DbaasProviderStatus

pub record LocalObjectReference : Type 0 where
  pub name : String

pub record NamespacedName : Type 0 where
  pub namespace : String
  pub name : String

pub record Instance : Type 0 where
  pub instance_id : String
  pub name : String
  pub instance_info : GoMap String

pub record DbaasInventoryStatus : Type 0 where
  pub conditions : List Condition
  pub instances : Option (List Instance)

pub record DbaasInventoryPolicy : Type 0 where
  pub disable_provisions : Option Bool
  pub connection_namespaces : Option (List String)
  pub connection_ns_selector : Option LabelSelector

pub record DbaasOperatorInventorySpec : Type 0 where
  pub provider_ref : NamespacedName
  pub credentials_ref : Option LocalObjectReference
  pub policy : DbaasInventoryPolicy

pub record DbaasInventory : Type 0 where
  pub meta : ObjectMeta
  pub spec : DbaasOperatorInventorySpec
  pub status : DbaasInventoryStatus

pub record DbaasPolicyStatus : Type 0 where
  pub conditions : List Condition

pub record DbaasPolicy : Type 0 where
  pub meta : ObjectMeta
  pub spec : DbaasInventoryPolicy
  pub status : DbaasPolicyStatus

pub record DbaasConnectionSpec : Type 0 where
  pub inventory_ref : NamespacedName
  pub instance_id : String
  pub instance_ref : Option NamespacedName

pub record DbaasConnectionStatus : Type 0 where
  pub conditions : List Condition
  pub credentials_ref : Option LocalObjectReference
  pub connection_info_ref : Option LocalObjectReference

pub record DbaasConnection : Type 0 where
  pub meta : ObjectMeta
  pub spec : DbaasConnectionSpec
  pub status : DbaasConnectionStatus

pub record DbaasInstanceSpec : Type 0 where
  pub inventory_ref : NamespacedName
  pub name : String
  pub cloud_provider : String
  pub cloud_region : String
  pub other_instance_params : GoMap String

pub record DbaasInstanceStatus : Type 0 where
  pub conditions : List Condition
  pub instance_id : String
  pub instance_info : GoMap String
  pub phase : String

pub record DbaasInstance : Type 0 where
  pub meta : ObjectMeta
  pub spec : DbaasInstanceSpec
  pub status : DbaasInstanceStatus

pub record DbaasProviderConnection : Type 0 where
  pub meta : ObjectMeta
  pub spec : DbaasConnectionSpec
  pub status : DbaasConnectionStatus

-- The spec of a provider's inventory is not read.
pub record DbaasProviderInventory : Type 0 where
  pub meta : ObjectMeta
  pub status : DbaasInventoryStatus

pub record DbaasProviderInstance : Type 0 where
  pub meta : ObjectMeta
  pub spec : DbaasInstanceSpec
  pub status : DbaasInstanceStatus
