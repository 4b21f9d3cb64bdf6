-- ===== src/Tests/Cluster.antt =====
-- A cluster whose state is the list of its policies, with the objects of `Objects`; every status of
-- a policy that is written is kept.
use mathlib.Core.Path.{subst}
use dbaas_operator.Prelude.{
  pos, Option, sym, String, ◌≡◌, refl, inl, inr, Bool, true, false, ◌&&◌, none, some, List, [], ◌∷◌,
  arith, ◌==◌, eq_iff, if◌then◌else◌, ◌+++◌, Bool-cases,
}
use dbaas_operator.Kube.{ObjectKey, OwnerReference}
use dbaas_operator.Kube.Conditions.{condition_true}
use dbaas_operator.Kube.Errors.{not_found, other, Result, ok, err}
use dbaas_operator.Api.V1beta1
use dbaas_operator.Api.V1beta1.{DbaasPolicy, DbaasInventory}
use dbaas_operator.Controllers.Client.{policy, Call, update_status, Client, Library, Run}
use dbaas_operator.Controllers.Policy.Active.{InNamespace, replace}
use dbaas_operator.Controllers.Policy.Unique.{PolicyStore}
use dbaas_operator.Tests.Conditions.{meta}
use dbaas_operator.Tests.Objects.{named, condition, provider, ready_inventory, conn, inst}

abbrev pub all_in : String → List DbaasPolicy → Bool
all_in ns [] = true
all_in ns (p ∷ items) = (p.meta.namespace == ns) && all_in ns items

abbrev pub get : ObjectKey → List DbaasPolicy → Result DbaasPolicy
get key [] = err (not_found key.name)
get key (p ∷ items) =
    if (p.meta.namespace == key.namespace) && (p.meta.name == key.name) then ok p else get key items

-- What a call that writes leaves.
abbrev pub after_call : Call → List DbaasPolicy → List DbaasPolicy
after_call (update_status (policy p)) w = replace p w
after_call _ w = w

abbrev pub client : Client (List DbaasPolicy)
client = record {
  get_provider = λ name w. (ok provider, w);
  get_inventory = λ key w. (ok ready_inventory, w);
  get_connection = λ key w. (ok conn, w);
  get_instance = λ key w. (ok inst, w);
  get_policy = λ key w. (get key w, w);
  get_platform = λ key w. (
    ok (record {
      meta = named "team" "dbaas-platform";
      sync_period = some (pos 180);
      status = record { conditions = []; platforms_status = [] };
    }),
    w,
  );
  get_secret = λ key w. (ok [], w);
  list_policies = λ ns w. (if all_in ns w then ok w else err (other "not listed"), w);
  list_namespaces = λ selector w. (ok [], w);
  provider_object = λ key mutate w.
      (mutate (record { key = key; spec = none; owner_references = []; content = "" }), w);
  write = λ call w. (none, after_call call w);
}

abbrev pub owner : OwnerReference
owner = record { api_version = "v1beta1"; kind = "DBaaS"; name = "owner"; uid = "1" }

abbrev pub library : Library
library = record {
  meta = meta;
  selector_error = λ s. none;
  parse_group_version =
      λ s. if s == "dbaas.redhat.com/v1beta1" then some V1beta1.group_version else none;
  group_version_string = λ gv. gv.group +++ "/" +++ gv.version;
  set_controller_reference = λ object refs. ok (owner ∷ refs);
  show_pointer = λ s. "0xc000012250";
  deep_equal = λ a b. false;
  string_contains = λ s t. s == t;
  parse_inventory_alpha = λ u. err (other "not v1alpha1");
  parse_inventory_beta = λ u. ok (record {
    meta = named u.key.namespace u.key.name;
    status = record {
      conditions = condition "SpecSynced" condition_true ∷ [];
      database_services = none;
    };
  });
  parse_connection_alpha = λ u. err (other "not v1alpha1");
  parse_connection_beta = λ u.
      ok (record {
        meta = named u.key.namespace u.key.name;
        spec = conn.spec;
        status = conn.status;
      });
  parse_instance_alpha = λ u. err (other "not v1alpha1");
  parse_instance_beta = λ u.
      ok (record {
        meta = named u.key.namespace u.key.name;
        spec = inst.spec;
        status = inst.status;
      });
}

abbrev pub start : List DbaasPolicy → Run (List DbaasPolicy)
start w = record { world = w; calls = [] }

-- The instance is read through no webhook client: its provider is spoken to in v1beta1.
abbrev pub no_webhook : List DbaasPolicy → Option (ObjectKey → Result DbaasInventory)
no_webhook w = none

all_in-InNamespace : (ns : String) (w : List DbaasPolicy) → all_in ns w ≡ true → InNamespace ns w
unfolding InNamespace
all_in-InNamespace ns [] h = tt
all_in-InNamespace ns (p ∷ w) h =
    (ground (arith, eq_iff p.meta.namespace ns), all_in-InNamespace ns w (ground arith))

get-namespace :
    (key : ObjectKey) (w : List DbaasPolicy) (p : DbaasPolicy)
    → get key w ≡ ok p
    → p.meta.namespace ≡ key.namespace
get-namespace key [] p h = absurd (ground arith)
get-namespace key (q ∷ w) p h =
    ground (arith, eq_iff q.meta.namespace key.namespace, get-namespace key w p)

pub store : PolicyStore client "team" (λ w. w)
store = record {
  listed = λ w items h. elim (Bool-cases (all_in "team" w)) [
    | inl e ↦
        let same : w ≡ items = ground arith in
        (sym same, subst (InNamespace "team") same (all_in-InNamespace "team" w e))
    | inr e ↦ absurd (ground arith)
  ];
  list_keeps = λ w. refl;
  got = λ key w p h. get-namespace key w p h;
  get_keeps = λ key w. refl;
  quota_keeps = λ p w. refl;
  status_written = λ p w in_ns h. refl;
  status_not_written = λ p w e h. absurd (ground arith);
}
