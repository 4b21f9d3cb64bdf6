-- ===== src/Api/V1beta1/Names.antt =====
-- The constants of api/v1beta1/dbaasprovider.go, groupversion_info.go and
-- dbaasprovider_conversion.go: condition types, reasons and messages, labels, parameter names,
-- instance phases, provider names.
use dbaas_operator.Prelude.{String}
use dbaas_operator.Kube.{GroupVersion}

abbrev pub group_version : GroupVersion
group_version = record { group = "dbaas.redhat.com"; version = "v1beta1" }

abbrev pub dbaas_inventory_ready_type : String
dbaas_inventory_ready_type = "InventoryReady"

abbrev pub dbaas_inventory_provider_sync_type : String
dbaas_inventory_provider_sync_type = "SpecSynced"

abbrev pub dbaas_connection_ready_type : String
dbaas_connection_ready_type = "ConnectionReady"

abbrev pub dbaas_connection_provider_sync_type : String
dbaas_connection_provider_sync_type = "ReadyForBinding"

abbrev pub dbaas_instance_ready_type : String
dbaas_instance_ready_type = "InstanceReady"

abbrev pub dbaas_instance_provider_sync_type : String
dbaas_instance_provider_sync_type = "ProvisionReady"

abbrev pub dbaas_policy_ready_type : String
dbaas_policy_ready_type = "PolicyReady"

abbrev pub dbaas_platform_ready_type : String
dbaas_platform_ready_type = "PlatformReady"

abbrev pub ready : String
ready = "Ready"

abbrev pub dbaas_policy_not_found : String
dbaas_policy_not_found = "DBaaSPolicyNotFound"

abbrev pub dbaas_policy_not_ready : String
dbaas_policy_not_ready = "DBaaSPolicyNotReady"

abbrev pub dbaas_provider_not_found : String
dbaas_provider_not_found = "DBaaSProviderNotFound"

abbrev pub dbaas_inventory_not_found : String
dbaas_inventory_not_found = "DBaaSInventoryNotFound"

abbrev pub dbaas_inventory_not_ready : String
dbaas_inventory_not_ready = "DBaaSInventoryNotReady"

abbrev pub dbaas_inventory_not_provisionable : String
dbaas_inventory_not_provisionable = "DBaaSInventoryNotProvisionable"

abbrev pub dbaas_invalid_namespace : String
dbaas_invalid_namespace = "InvalidNamespace"

abbrev pub dbaas_service_not_available : String
dbaas_service_not_available = "DBaaSServiceNotAvailable"

abbrev pub provider_reconcile_inprogress : String
provider_reconcile_inprogress = "ProviderReconcileInprogress"

abbrev pub provider_reconcile_error : String
provider_reconcile_error = "ProviderReconcileError"

abbrev pub provider_parsing_error : String
provider_parsing_error = "ProviderParsingError"

abbrev pub installation_inprogress : String
installation_inprogress = "InstallationInprogress"

abbrev pub installation_cleanup : String
installation_cleanup = "InstallationCleanup"

abbrev pub msg_provider_cr_status_sync_done : String
msg_provider_cr_status_sync_done = "Provider Custom Resource status sync completed"

abbrev pub msg_provider_cr_reconcile_in_progress : String
msg_provider_cr_reconcile_in_progress = "DBaaS Provider Custom Resource reconciliation in progress"

abbrev pub msg_inventory_not_ready : String
msg_inventory_not_ready = "Inventory discovery not done"

abbrev pub msg_inventory_not_provisionable : String
msg_inventory_not_provisionable = "Inventory provisioning not allowed"

abbrev pub msg_policy_not_found : String
msg_policy_not_found = "Failed to find an active Policy"

abbrev pub msg_policy_ready : String
msg_policy_ready = "Policy is active"

abbrev pub msg_invalid_namespace : String
msg_invalid_namespace = "Invalid connection namespace for the referenced inventory"

abbrev pub msg_policy_not_ready : String
msg_policy_not_ready = "Another active Policy already exists"

abbrev pub type_label_value : String
type_label_value = "credentials"

abbrev pub type_label_key : String
type_label_key = "db-operator/type"

abbrev pub type_label_key_mongo : String
type_label_key_mongo = "atlas.mongodb.com/type"

abbrev pub provisioning_plan_free_trial : String
provisioning_plan_free_trial = "FREETRIAL"

abbrev pub provisioning_plan_serverless : String
provisioning_plan_serverless = "SERVERLESS"

abbrev pub provisioning_plan_dedicated : String
provisioning_plan_dedicated = "DEDICATED"

abbrev pub provisioning_name : String
provisioning_name = "name"

abbrev pub provisioning_plan : String
provisioning_plan = "plan"

abbrev pub provisioning_cloud_provider : String
provisioning_cloud_provider = "cloudProvider"

abbrev pub provisioning_regions : String
provisioning_regions = "regions"

abbrev pub provisioning_availability_zones : String
provisioning_availability_zones = "availabilityZones"

abbrev pub provisioning_nodes : String
provisioning_nodes = "nodes"

abbrev pub provisioning_machine_type : String
provisioning_machine_type = "machineType"

abbrev pub provisioning_storage_gib : String
provisioning_storage_gib = "storageGib"

abbrev pub provisioning_spend_limit : String
provisioning_spend_limit = "spendLimit"

abbrev pub provisioning_team_project : String
provisioning_team_project = "teamProject"

abbrev pub provisioning_database_type : String
provisioning_database_type = "databaseType"

abbrev pub provisioning_dedicated_location_label : String
provisioning_dedicated_location_label = "dedicatedLocationLabel"

abbrev pub provisioning_serverless_location_label : String
provisioning_serverless_location_label = "serverlessLocationLabel"

abbrev pub provisioning_hardware_label : String
provisioning_hardware_label = "hardwareLabel"

abbrev pub provisioning_plan_label : String
provisioning_plan_label = "planLabel"

abbrev pub provisioning_spend_limit_label : String
provisioning_spend_limit_label = "spendLimitLabel"

abbrev pub instance_phase_unknown : String
instance_phase_unknown = "Unknown"

abbrev pub instance_phase_pending : String
instance_phase_pending = "Pending"

abbrev pub instance_phase_creating : String
instance_phase_creating = "Creating"

abbrev pub instance_phase_updating : String
instance_phase_updating = "Updating"

abbrev pub instance_phase_deleting : String
instance_phase_deleting = "Deleting"

abbrev pub instance_phase_deleted : String
instance_phase_deleted = "Deleted"

abbrev pub instance_phase_ready : String
instance_phase_ready = "Ready"

abbrev pub instance_phase_error : String
instance_phase_error = "Error"

abbrev pub cockroachdb_cloud_registration : String
cockroachdb_cloud_registration = "cockroachdb-cloud-registration"

abbrev pub mongodb_atlas_registration : String
mongodb_atlas_registration = "mongodb-atlas-registration"

abbrev pub crunchy_bridge_registration : String
crunchy_bridge_registration = "crunchy-bridge-registration"

abbrev pub rds_registration : String
rds_registration = "rds-registration"
