-- ===== src/Controllers/Upgrade/SetUp.antt =====
-- What the set-up of controllers/dbaasplatform_controller.go makes: `createPlatformCR`,
-- `prepareRDSController`, and the part of `SetupWithManager` that calls them. An error that the code
-- wraps keeps its text here.
pub mod Laws
use dbaas_operator.Prelude.{
  ℕ, zero, suc, pos, String, Bool, true, false, not, ◌&&◌, ◌||◌, Option, none, some, List, [], ◌∷◌,
  ◌==◌, if◌then◌else◌,
}
use dbaas_operator.Prelude.GoMap.{GoMap}
use dbaas_operator.Kube.{OwnerReference}
use dbaas_operator.Kube.Errors.{Error, other, is_not_found, Result, ok, err}
use dbaas_operator.Controllers.Objects.{
  Kind, CsvPhase, phase_succeeded, phase_installing, phase_failed, CsvReason, component_failed, csv,
  crd, deployment, secret, config_map, validating_webhook, platform_cr, Body, Conversion, Manifest,
  key_of,
}
use dbaas_operator.Controllers.Client
use dbaas_operator.Controllers.Client.{Action, pure, ◌>>=◌, read}
use dbaas_operator.Controllers.Install.{
  ObjectClient, named_meta, named_key, create_object, delete_object,
}
use dbaas_operator.Controllers.Upgrade.{unless_error}

module _ {World : Type 0} (client : ObjectClient World) (namespace operator : String) where
  -- From the answer of `Get` on.
  abbrev pub with_found :
      (k : Kind)
      → Manifest k
      → Action World (Option Error)
      → Result (Manifest k)
      → Action World (Option Error)
  with_found k object rest (ok found) s = rest s
  with_found k object rest (err e) s =
      if is_not_found e
      then (do x ← create_object client k object; unless_error client namespace operator rest x) s
      else (some e, s)

  -- `Get`, and `Create` where it finds nothing; `rest` goes on where there is no error.
  unfoldable pub ensure :
      (k : Kind) → Manifest k → Action World (Option Error) → Action World (Option Error)
  ensure k object rest = do
    found ← read (client.get k (key_of object.meta))
    with_found k object rest found

  abbrev pub rds_secret : Manifest secret
  rds_secret = record {
    meta = named_meta namespace "ack-rds-user-secrets";
    annotations = [];
    body = ("AWS_ACCESS_KEY_ID", "dummy") ∷ ("AWS_SECRET_ACCESS_KEY", "dummy") ∷ [];
  }

  abbrev pub rds_config : Manifest config_map
  rds_config = record {
    meta = named_meta namespace "ack-rds-user-config";
    annotations = [];
    body =
        ("AWS_REGION", "dummy")
        ∷ ("AWS_ENDPOINT_URL", "")
        ∷ ("ACK_ENABLE_DEVELOPMENT_LOGGING", "false")
        ∷ ("ACK_WATCH_NAMESPACE", "")
        ∷ ("ACK_LOG_LEVEL", "info")
        ∷ ("ACK_RESOURCE_TAGS", "dbaas")
        ∷ [];
  }

  unfoldable pub prepare_rds_controller : Action World (Option Error)
  unfolding ensure
  prepare_rds_controller = ensure secret rds_secret (ensure config_map rds_config (pure none))

-- `createPlatformCR`: `trim_space` is strings.TrimSpace, and `own` is ctrl.SetControllerReference
-- with the operator's CSV as the owner.
module _ {World : Type 0} (client : ObjectClient World) (namespace operator : String)
    (trim_space : String → String)
    (own : Manifest csv → List OwnerReference → Result (List OwnerReference)) where
  abbrev pub new_platform : List OwnerReference → Manifest platform_cr
  new_platform refs = record {
    meta = record {
      name = "dbaas-platform";
      namespace = trim_space namespace;
      labels = ("managed-by", "dbaas-operator") ∷ [];
      deletion_timestamp = none;
      owner_references = refs;
    };
    annotations = [];
    body = some (pos 180);
  }

  abbrev pub creation : List OwnerReference → Option Error → Result (Manifest platform_cr)
  creation refs none = ok (new_platform refs)
  creation refs (some e) = err e

  abbrev pub with_references :
      Result (List OwnerReference) → Action World (Result (Manifest platform_cr))
  with_references (err e) s = (err e, s)
  with_references (ok refs) s =
      (do e ← create_object client platform_cr (new_platform refs); pure (creation refs e)) s

  abbrev pub with_owner : Result (Manifest csv) → Action World (Result (Manifest platform_cr))
  with_owner (err e) s = (err e, s)
  with_owner (ok owner) s = with_references (own owner []) s

  abbrev pub with_platforms :
      Result (List (Manifest platform_cr)) → Action World (Result (Manifest platform_cr))
  with_platforms (err e) s = (err e, s)
  with_platforms (ok []) s =
      (do owner ← read (client.get csv (named_key namespace operator)); with_owner owner) s
  with_platforms (ok (cr ∷ [])) s = (ok cr, s)
  with_platforms (ok (a ∷ b ∷ more)) s = (err (other "too many DBaaSPlafrom resources found"), s)

  unfoldable pub create_platform_cr : Action World (Result (Manifest platform_cr))
  create_platform_cr = do items ← read (client.list platform_cr namespace); with_platforms items

  -- The first part of `SetupWithManager`, with the value of OPERATOR_CONDITION_NAME.
  abbrev pub after_prepare : Option Error → Action World (Option Error)
  after_prepare (some e) s = (some e, s)
  after_prepare none s =
      (do cr ← create_platform_cr; pure (elim cr [ ok c ↦ none | err e ↦ some e ])) s

  unfoldable pub set_up : Action World (Option Error)
  unfolding create_platform_cr
  set_up = do e ← prepare_rds_controller client namespace operator; after_prepare e
