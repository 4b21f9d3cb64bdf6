-- ===== src/Controllers/Install/QuickStart.antt =====
-- controllers/reconcilers/quickstartinstallation/quickstart_installation_reconciler.go. The map
-- `quickStarts` of names to embedded files is an argument, in the order in which `range` visits it;
-- `unmarshal` reads the spec of a file.
pub mod Laws
use dbaas_operator.Prelude.{String, Option, none, some, [], ◌∷◌, if◌then◌else◌}
use dbaas_operator.Prelude.GoMap.{GoMap}
use dbaas_operator.Kube.{ObjectMeta}
use dbaas_operator.Kube.Errors.{Error, is_not_found, Result, ok, err}
use dbaas_operator.Api.V1beta1.{DbaasPlatform}
use dbaas_operator.Controllers.Objects.{quick_start, Manifest, key_of}
use dbaas_operator.Controllers.Client
use dbaas_operator.Controllers.Client.{Action, pure, ◌>>=◌}
use dbaas_operator.Controllers.Install.{
  ObjectClient, Answer, succeeded, conflict_waits, named_meta, followed_by, apply, delete_object,
  unless_failed, after_delete,
}

-- `getQuickStartModel`
abbrev pub quick_start_model : String → Manifest quick_start
quick_start_model name = record { meta = named_meta "" name; annotations = []; body = "" }

-- What `CreateOrUpdate` does to a quick start.
unfoldable pub mutate_quick_start : String → Manifest quick_start → Manifest quick_start
mutate_quick_start spec object = record object {
  annotations = ("categories", "Database management") ∷ [];
  body = spec;
}

module _ {World : Type 0} (client : ObjectClient World) (unmarshal : String → Result String) where
  -- From the answer of `Unmarshal` on.
  abbrev pub with_spec : String → Result String → Action World Answer
  with_spec name (err e) s = (conflict_waits (some e), s)
  with_spec name (ok spec) s =
      (do
        e ←
            apply client quick_start (quick_start_model name)
              (λ object w. (ok (mutate_quick_start spec object), w))
        pure (conflict_waits e))
        s

  unfoldable pub create_quick_start_cr : String → String → Action World Answer
  unfolding mutate_quick_start
  create_quick_start_cr name bytes = with_spec name (unmarshal bytes)

  unfoldable pub reconcile : GoMap String → Action World Answer
  unfolding create_quick_start_cr
  reconcile [] = pure succeeded
  reconcile ((name, bytes) ∷ files) =
      let rest = reconcile files in followed_by (create_quick_start_cr name bytes) rest

  unfoldable pub cleanup : GoMap String → Action World Answer
  cleanup [] = pure succeeded
  cleanup ((name, bytes) ∷ files) =
      let rest = cleanup files in
      after_delete client quick_start (key_of (quick_start_model name).meta) rest
