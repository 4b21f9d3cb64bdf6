-- ===== src/Tests/Site.antt =====
-- A cluster whose state is the CSV of a provider's operator. The operator runs, and what is applied
-- or deleted is taken.
use dbaas_operator.Prelude.{pos, refl, inr, Option, none, some, List, [], ◌∷◌}
use dbaas_operator.Kube.{OwnerReference, ObjectKey}
use dbaas_operator.Kube.Errors.{Error, not_found, Result, ok, err}
use dbaas_operator.Api.V1beta1
use dbaas_operator.Api.V1beta1.{PlatformConfig, ObservabilityConfig, DbaasPlatform}
use dbaas_operator.Controllers.Objects
use dbaas_operator.Controllers.Objects.{Kind, csv, Manifest, deployment}
use dbaas_operator.Controllers.Client.{Run}
use dbaas_operator.Controllers.Install.{
  ObjectClient, Toolkit, named_meta, check_owner_reference_set,
}
use dbaas_operator.Controllers.Install.Providers.{any_running}
use dbaas_operator.Controllers.Install.Providers.Installed.{Installed, CanOwn}

abbrev pub Site : Type 0
Site = Manifest csv

abbrev pub cr : DbaasPlatform
cr = record {
  meta = named_meta "openshift-operators" "dbaas-platform";
  sync_period = some (pos 180);
  status = record { conditions = []; platforms_status = [] };
}

abbrev pub rds : PlatformConfig
rds = record {
  name = "rds-provider";
  csv = "rds-dbaas-operator.v0.4.0";
  deployment_name = "rds-dbaas-operator-controller-manager";
  image = "quay.io/rds-catalog";
  package_name = "rds-dbaas-operator";
  channel = "alpha";
  display_name = "RDS";
  envs = [];
  type = V1beta1.type_operator;
}

-- The CSV of the operator, before the platform owns it.
abbrev pub fresh_csv : Manifest csv
fresh_csv = record {
  meta = named_meta "openshift-operators" "rds-dbaas-operator.v0.4.0";
  annotations = [];
  body = record {
    phase = Objects.phase_succeeded;
    reason = Objects.other_reason "InstallSucceeded";
    message = "";
    last_update_time = some 7;
    conversion_crds = ("dbaasproviders" ∷ []) ∷ [];
  };
}

abbrev pub running : Manifest deployment
running = record {
  meta = named_meta "openshift-operators" "rds-dbaas-operator-controller-manager";
  annotations = [];
  body = record { spec = none; ready_replicas = 1; replicas = 1 };
}

abbrev find : (k : Kind) → ObjectKey → Site → Result (Manifest k)
find Objects.csv key w = ok w
find Objects.cluster_version key w =
    ok (record { meta = named_meta "" "version"; annotations = []; body = "1234" })
find _ key w = err (not_found key.name)

abbrev list : (k : Kind) → List (Manifest k)
list Objects.deployment = running ∷ []
list Objects.validating_webhook =
    record { meta = named_meta "" "stale"; annotations = []; body = 3 } ∷ []
list _ = []

abbrev put : (k : Kind) → Manifest k → Site → Site
put Objects.csv object w = object
put _ object w = w

abbrev error_of : {A : Type 0} → Result A → Option Error
error_of (ok a) = none
error_of (err e) = some e

abbrev pub site : ObjectClient Site
site = record {
  get = λ k key w. (find k key w, w);
  list = λ k namespace w. (ok (list k), w);
  list_labelled = λ k label w. (ok (list k), w);
  create_or_update = λ k object mutate w. let (r, u) = mutate object w in (error_of r, u);
  create = λ k object w. (none, w);
  update = λ k object w. (none, put k object w);
  delete = λ k key w. (none, w);
}

abbrev owner : OwnerReference
owner = record {
  api_version = "dbaas.redhat.com/v1beta1";
  kind = "DBaaSPlatform";
  name = "dbaas-platform";
  uid = "1";
}

abbrev pub owned_csv : Manifest csv
owned_csv = record fresh_csv { meta = record fresh_csv.meta { owner_references = owner ∷ [] } }

abbrev first : List OwnerReference → Option OwnerReference
first [] = none
first (r ∷ refs) = some r

abbrev pub tools : Toolkit
tools = record {
  set_controller_reference = λ cr refs. ok (owner ∷ refs);
  controller_of = first;
  platform_gvk = ok (V1beta1.group_version, "DBaaSPlatform");
  group_version_string = λ gv. gv.group;
  parse_group_version = λ s. ok V1beta1.group_version;
  itoa = λ n. "180";
}

abbrev pub start : Run Site
start = record { world = fresh_csv; calls = [] }

-- The platform can become the owner of the CSV.
pub fresh_csv-CanOwn : CanOwn tools cr fresh_csv
unfolding check_owner_reference_set
fresh_csv-CanOwn = inr (refl, (owner ∷ [], refl, refl))

pub site-Installed : Installed site tools rds cr (λ w. w)
unfolding any_running
site-Installed = record {
  current = λ k object w. object;
  same_key = λ k object w. refl;
  applies = λ k object m mutate w h e. rw h refl;
  undisturbed = λ k object mutate w h. refl;
  deployments = running ∷ [];
  lists = λ w. refl;
  runs = refl;
  finds = λ w. refl;
  keeps = λ refs w. (refl, refl);
  owns_subscription = λ w. (owner ∷ [], refl);
}
