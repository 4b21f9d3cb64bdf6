-- ===== src/Controllers/Install/ConsolePlugin/Manifests.antt =====
-- The objects of the console plugin: what `CreateOrUpdate` does to each of them. The node port and
-- the other fields that the code leaves alone are not in the model.
use dbaas_operator.Prelude.{ℕ, pos, String, true, false, none, some, [], ◌∷◌, ◌+++◌}
use dbaas_operator.Prelude.GoMap.{GoMap}
use dbaas_operator.Kube.Errors.{Result, ok, err}
use dbaas_operator.Api.V1beta1.{PlatformConfig, DbaasPlatform}
use dbaas_operator.Controllers.Objects.{
  service, deployment, console_plugin, Container, DeploymentSpec, Manifest,
}
use dbaas_operator.Controllers.Install.{Toolkit, named_meta}

abbrev pub console_port : ℕ
console_port = 9001

abbrev pub certificate_of : PlatformConfig → String
certificate_of config = "serve-cert-" +++ config.name

abbrev pub empty_service : String → String → Manifest service
empty_service namespace name = record {
  meta = named_meta namespace name;
  annotations = [];
  body = record {
    port_name = "";
    protocol = "";
    port = 0;
    selector = [];
    type = "";
    session_affinity = "";
  };
}

abbrev pub empty_deployment : String → String → Manifest deployment
empty_deployment namespace name = record {
  meta = named_meta namespace name;
  annotations = [];
  body = record { spec = none; ready_replicas = 0; replicas = 0 };
}

abbrev pub empty_plugin : String → Manifest console_plugin
empty_plugin name = record {
  meta = named_meta "" name;
  annotations = [];
  body = record {
    display_name = "";
    service_name = "";
    service_namespace = "";
    port = 0;
    base_path = "";
  };
}

-- The labels that the service and the deployment share.
abbrev pub component_labels : PlatformConfig → GoMap String → GoMap String
component_labels config rest =
    ("app", config.name)
    ∷ ("app.kubernetes.io/component", config.name)
    ∷ ("app.kubernetes.io/instance", config.name)
    ∷ ("app.kubernetes.io/part-of", config.name)
    ∷ rest

module _ (tools : Toolkit) (config : PlatformConfig) where
  unfoldable pub mutate_service : DbaasPlatform → Manifest service → Result (Manifest service)
  mutate_service cr object = elim (tools.set_controller_reference cr object.meta.owner_references) [
    | err e ↦ err e
    | ok refs ↦ ok (record {
      meta = record object.meta { owner_references = refs; labels = component_labels config [] };
      annotations =
          ("service.beta.openshift.io/serving-cert-secret-name", certificate_of config) ∷ [];
      body = record {
        port_name = tools.itoa (pos console_port) +++ "-tcp";
        protocol = "TCP";
        port = console_port;
        selector = ("app", config.name) ∷ [];
        type = "ClusterIP";
        session_affinity = "None";
      };
    })
  ]

  abbrev pub plugin_container : Container
  plugin_container = record {
    name = config.name;
    image = config.image;
    port = console_port;
    pull_policy = "Always";
    command = [];
    args = "--ssl" ∷ "--cert=/var/serving-cert/tls.crt" ∷ "--key=/var/serving-cert/tls.key" ∷ [];
    volume_mount = certificate_of config;
    mount_path = "/var/serving-cert";
    env = config.envs;
    allow_privilege_escalation = false;
    read_only_root = true;
    run_as_non_root = true;
    dropped_capabilities = "ALL" ∷ [];
    liveness_delay = 5;
    readiness_delay = 30;
    readiness_period = 20;
  }

  abbrev pub deployment_spec : DeploymentSpec
  deployment_spec = record {
    replicas = 3;
    match_labels = ("app", config.name) ∷ [];
    template_labels = ("app", config.name) ∷ [];
    containers = plugin_container ∷ [];
    secret_volume = certificate_of config;
    secret_mode = 420;
    restart_policy = "Always";
    dns_policy = "ClusterFirst";
    strategy = "RollingUpdate";
    max_unavailable = "25%";
    max_surge = "25%";
  }

  unfoldable pub mutate_deployment :
      DbaasPlatform → Manifest deployment → Result (Manifest deployment)
  mutate_deployment cr object =
      elim (tools.set_controller_reference cr object.meta.owner_references) [
        | err e ↦ err e
        | ok refs ↦ ok (record object {
          meta = record object.meta {
            owner_references = refs;
            labels =
                component_labels config
                  (("app.openshift.io/runtime-namespace", cr.meta.namespace) ∷ []);
          };
          body = record object.body { spec = some deployment_spec };
        })
      ]

unfoldable pub mutate_plugin :
    PlatformConfig → DbaasPlatform → Manifest console_plugin → Manifest console_plugin
mutate_plugin config cr object = record object {
  body = record {
    display_name = config.display_name;
    service_name = config.name;
    service_namespace = cr.meta.namespace;
    port = console_port;
    base_path = "/";
  };
}
