-- ===== src/Lib.antt =====
-- The DBaaS operator (Go): a Kubernetes operator that connects teams to cloud databases. An admin
-- makes an inventory (a provider account, with a secret), policies say which namespaces may use it,
-- and developers make connections and instances that refer to it. The operator checks each object,
-- mirrors it into an object of the provider's own operator, and copies the status back.
--
-- Parts and files:
--   Prelude      shared names; GoMap: Go maps as lists of entries, in the order of `range`
--   Kube         what is taken from the Kubernetes libraries: object metadata, errors, conditions
--                with the documented laws of apimachinery's package meta
--   Api          the types of api/v1alpha1 and api/v1beta1 (*_types.go, dbaasprovider.go) and the
--                constants of api/v1beta1/dbaasprovider.go
--   Convert      api/v1alpha1/*_conversion.go: `ConvertTo` is convert_to, `ConvertFrom` is
--                convert_from, and likewise for specs and statuses; Names has `ConvertNameTo` and
--                `ConvertNameFrom` of dbaasprovider_conversion.go, Provider the rest of it; Spokes
--                has the round trips of three kinds together
--   Webhook      api/v1beta1/*_webhook.go: the validation of connections, inventories and policies
--   Controllers  controllers/: Client has the calls of the API server and the state of a run; Common
--                has controllers/dbaas_reconciler.go (Access: `isValidConnectionNS`, `canProvision`;
--                Check: `checkInventory`; Provider: `reconcileProviderResource`; Merge: the ready
--                condition of the functions merge*Status); Policy, Inventory, Connection, Instance
--                Provider and Platform are the reconcilers of dbaas*_controller.go, Policy also
--                has dbaasdefaultpolicy_controller.go, and Connection the deployment of a
--                connection; Upgrade has the set-up and the fixes of dbaasplatform_controller.go;
--                Objects has the cluster's objects by kind, and Install controllers/reconcilers/:
--                Providers, ConsolePlugin, QuickStart and Observability are its folders, Platforms
--                has constants.go and the reconcilers that `getReconcilerForPlatform` makes, Answers
--                the lemmas that they share; Safety is about whole runs
--   Tests        the theorems at concrete inputs
--
-- State: a reconciliation is a function of a run, which is the world and the log of the calls that
-- write. The world is a parameter; the client's calls are functions of it that give an answer and
-- the world after it, so that every answer, errors included, and every interleaving with other
-- writers between two calls is covered. Where a call's answer is tested, the code after it is a
-- function of the answer (`with_policies`, `applied`), so that the branches stand as clauses. The
-- deferred function of `reconcileProviderResource`, which writes the status on every path, is
-- `sync_deferred`, applied to what the body leaves. `installComplete` of the platform reconciler is
-- passed in and out.
--
-- Parameters: the clients (`Client`, and `ObjectClient` for the objects of the installers), the
-- library functions of controller-runtime and apimachinery (`Library`, `Toolkit`, `Meta`), the
-- client of the webhooks, the start of a watch, and the environment. The platform reconciler takes
-- the reconcilers of the platforms as the interface `PlatformReconciler`, which
-- `operator_reconcilers` fills. What a theorem relies on of the parameters is among its hypotheses:
-- `MetaLaws`, `PolicyStore`, `Installed`, and that the RDS webhook lists what its cache shows, which
-- may lag behind the cluster.
--
-- Bounds: no fuel is used. Every loop is over a list that the program is given and is structural
-- recursion. Numbers are replicas, ports, times and delays, which the code compares or copies and
-- does not add. The values of the libraries' named constants, such as "grpc" or "ClusterIP", are
-- written as the texts that they stand for; phases and reasons of a CSV are constructors.
--
-- Not modelled: metrics and logging; main.go and the set-up of the controllers with the manager; the
-- generated deep copies; the contents of the quota, which is one call; the embedded quick starts; the
-- reads of the console's URL and of the platform of the cluster in controllers/util, which serve
-- metrics. The time and the generation of conditions are never read and are left out.
pub mod Prelude
pub mod Kube
pub mod Api
pub mod Convert
pub mod Webhook
pub mod Controllers
pub mod Tests
