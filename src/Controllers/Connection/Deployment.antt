-- ===== src/Controllers/Connection/Deployment.antt =====
-- `deploymentMutateFn` of controllers/dbaasconnection_controller.go: the deployment that stands for
-- a connection in the topology view. The kind of the connection is an argument.
use dbaas_operator.Prelude.{
  String, false, ◌≡◌, refl, sym, ap, ◌∙◌, Option, some, [], ◌∷◌, arith, ◌==◌, if◌then◌else◌, List,
}
use dbaas_operator.Prelude.GoMap.{GoMap, insert, lookup, lookup-insert}
use dbaas_operator.Kube.{OwnerReference}
use dbaas_operator.Kube.Errors.{Result, ok, err}
use dbaas_operator.Api.V1beta1.{DbaasConnection}
use dbaas_operator.Controllers.Objects.{deployment, Container, DeploymentSpec, Manifest}
use dbaas_operator.Controllers.Client.{connection, Library}

abbrev pub bind_container : Container
bind_container = record {
  name = "bind-deploy";
  image = "quay.io/ecosystem-appeng/busybox";
  port = 0;
  pull_policy = "IfNotPresent";
  command = "sh" ∷ "-c" ∷ "echo The app is running! && sleep 3600" ∷ [];
  args = [];
  volume_mount = "";
  mount_path = "";
  env = [];
  allow_privilege_escalation = false;
  read_only_root = false;
  run_as_non_root = false;
  dropped_capabilities = [];
  liveness_delay = 0;
  readiness_delay = 0;
  readiness_period = 0;
}

abbrev pub bind_spec : DeploymentSpec
bind_spec = record {
  replicas = 0;
  match_labels = ("name", "bind-deploy") ∷ [];
  template_labels = ("name", "bind-deploy") ∷ [];
  containers = bind_container ∷ [];
  secret_volume = "";
  secret_mode = 0;
  restart_policy = "";
  dns_policy = "";
  strategy = "";
  max_unavailable = "";
  max_surge = "";
}

abbrev pub annotated : String → DbaasConnection → GoMap String → GoMap String
annotated kind conn annotations = insert "owner.namespace" conn.meta.namespace (
    insert "owner.kind" kind
      (insert "owner" conn.meta.name (insert "managed-by" "dbaas-operator" annotations)))

-- The owner references are dropped before the connection becomes the owner.
unfoldable pub mutate_deployment :
    Library → String → DbaasConnection → Manifest deployment → Result (Manifest deployment)
mutate_deployment lib kind conn object = elim (lib.set_controller_reference (connection conn) []) [
  | err e ↦ err e
  | ok refs ↦ ok (record {
    meta = record object.meta { owner_references = refs };
    annotations = annotated kind conn object.annotations;
    body = record object.body { spec = some bind_spec };
  })
]

-- What `lookup` finds among the annotations, by the four that are set.
abbrev annotation : String → DbaasConnection → String → Option String → Option String
annotation kind conn k other =
    if "owner.namespace" == k
    then some conn.meta.namespace
    else if "owner.kind" == k
    then some kind
    else if "owner" == k
    then some conn.meta.name
    else if "managed-by" == k
    then some "dbaas-operator"
    else other

lookup-annotated :
    (kind : String) (conn : DbaasConnection) (m : GoMap String) (k : String)
    → lookup k (annotated kind conn m) ≡ annotation kind conn k (lookup k m)
lookup-annotated kind conn m k =
    let m1 = insert "managed-by" "dbaas-operator" m in
    let m2 = insert "owner" conn.meta.name m1 in
    let m3 = insert "owner.kind" kind m2 in
    rw
      (
        lookup-insert "owner.namespace" k conn.meta.namespace m3,
        lookup-insert "owner.kind" k kind m2,
        lookup-insert "owner" k conn.meta.name m1,
        lookup-insert "managed-by" k "dbaas-operator" m,
      )
      refl

annotation-twice :
    (kind : String) (conn : DbaasConnection) (k : String) (other : Option String)
    → annotation kind conn k (annotation kind conn k other) ≡ annotation kind conn k other
annotation-twice kind conn k other = ground arith

-- Where the connection becomes the owner, its deployment has no other owner, four annotations are
-- set and the others left, and a second mutation changes no owner, no body and no annotation that
-- is looked up.
pub mutate_deployment-twice :
    (lib : Library) (kind : String) (conn : DbaasConnection) (object : Manifest deployment)
    (refs : List OwnerReference)
    → lib.set_controller_reference (connection conn) [] ≡ ok refs
    → (once : Manifest deployment) × (twice : Manifest deployment) × (mutate_deployment lib kind
          conn object
        ≡ ok once)
      × (mutate_deployment lib kind conn once ≡ ok twice)
      × (once.meta.owner_references ≡ refs)
      × (twice.meta ≡ once.meta)
      × (twice.body ≡ once.body)
      × ((k : String)
          → (lookup k once.annotations ≡ annotation kind conn k (lookup k object.annotations))
            × (lookup k twice.annotations ≡ lookup k once.annotations))
unfolding mutate_deployment
mutate_deployment-twice lib kind conn object refs h =
    let first = annotated kind conn object.annotations in
    (
      record {
        meta = record object.meta { owner_references = refs };
        annotations = first;
        body = record object.body { spec = some bind_spec };
      },
      record {
        meta = record object.meta { owner_references = refs };
        annotations = annotated kind conn first;
        body = record object.body { spec = some bind_spec };
      },
      rw (h, mutate_deployment) refl,
      rw (h, mutate_deployment) refl,
      refl,
      refl,
      refl,
      (λ k. (
        lookup-annotated kind conn object.annotations k,
        lookup-annotated kind conn first k
            ∙ ap (annotation kind conn k) (lookup-annotated kind conn object.annotations k)
            ∙ annotation-twice kind conn k (lookup k object.annotations)
            ∙ sym (lookup-annotated kind conn object.annotations k),
      )),
    )
