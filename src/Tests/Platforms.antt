-- ===== src/Tests/Platforms.antt =====
-- The installation of two platforms.
use dbaas_operator.Prelude.{
  inr, inl, pos, ◌≡◌, ◌↔◌, ◌⊎◌, refl, true, false, some, List, [], ◌∷◌, String,
}
use dbaas_operator.Prelude.GoMap.{GoMap}
use dbaas_operator.Kube.{ObjectKey}
use dbaas_operator.Kube.Errors.{other, Result, ok, err}
use dbaas_operator.Api.V1beta1
use dbaas_operator.Api.V1beta1.{
  PlatformConfig, PlatformType, PlatformStatus, PlatformInstlnStatus, DbaasPlatform, DbaasPolicy,
}
use dbaas_operator.Controllers.Client.{done, platform, update_status, Client}
use dbaas_operator.Controllers.Platform.{
  NewReconciler, PlatformReconciler, find_status_platform, set_status_platform, reconcile, install,
  get_reconciler_for_platform,
}
use dbaas_operator.Controllers.Platform.Loop.{FailsWith, AllSucceed}
use dbaas_operator.Controllers.Platform.Laws.{
  install_complete_iff, never_ready_again, ready_when_installed, platform_error,
  deletion_calls_no_reconciler, is_ready,
}
use dbaas_operator.Controllers.Platform.Status.{find-set_status_platform}
use dbaas_operator.Tests.Conditions.{meta_laws}
use dbaas_operator.Tests.Objects.{named, key_of}
use dbaas_operator.Tests.Cluster.{client, library, start}

abbrev World : Type 0
World = List DbaasPolicy

abbrev always : Result PlatformInstlnStatus → PlatformReconciler World
always answer = record { reconcile = λ cr w. (answer, w); cleanup = λ cr w. (answer, w) }

-- Console plugins and quick starts answer as they are told to; the others succeed.
abbrev answering : Result PlatformInstlnStatus → NewReconciler World
answering answer = record {
  providers_installation = λ config. always (ok V1beta1.result_success);
  console_plugin = λ config. always answer;
  quick_start_installation = always answer;
  observability = always (ok V1beta1.result_success);
}

abbrev config : PlatformType → PlatformConfig
config type = record {
  name = "platform";
  csv = "";
  deployment_name = "";
  image = "";
  package_name = "";
  channel = "";
  display_name = "";
  envs = [];
  type = type;
}

abbrev platforms : GoMap PlatformConfig
platforms =
    ("crunchy-bridge", config V1beta1.type_operator)
    ∷ ("dbaas-dynamic-plugin", config V1beta1.type_console_plugin)
    ∷ []

abbrev keep : World → World
keep w = w

abbrev cr : DbaasPlatform
cr = record {
  meta = named "team" "dbaas-platform";
  sync_period = some (pos 180);
  status = record { conditions = []; platforms_status = [] };
}

-- The client that finds the platform object marked for deletion.
abbrev deleting_client : Client World
deleting_client = record client {
  get_platform =
      λ key w. (ok (record cr { meta = record cr.meta { deletion_timestamp = some 5 } }), w);
}

abbrev key : ObjectKey
key = key_of "team" "dbaas-platform"

abbrev status_of : String → PlatformInstlnStatus → PlatformStatus
status_of name status = record { platform_name = name; platform_status = status; last_message = "" }

find-set_status_platform_example :
    find_status_platform
      (set_status_platform
        (status_of "a" V1beta1.result_failed ∷ [])
        (status_of "a" V1beta1.result_success))
      "a"
    ≡ some (status_of "a" V1beta1.result_success)
find-set_status_platform_example =
    find-set_status_platform (status_of "a" V1beta1.result_failed ∷ [])
      (status_of "a" V1beta1.result_success) "a"

install_complete_iff_example :
    ((reconcile client library
        (answering (ok V1beta1.result_success))
        keep
        platforms
        false
        key
        (start [])).0.1
      ≡ true)
    ↔ ((false ≡ true)
        ⊎ AllSucceed client library
            (answering (ok V1beta1.result_success))
            keep
            cr
            false
            platforms
            [])
install_complete_iff_example =
    install_complete_iff client library (answering (ok V1beta1.result_success)) keep meta_laws
      platforms key (start []) cr refl refl false

ready_when_installed_example :
    let calls =
      (reconcile client library
        (answering (ok V1beta1.result_success))
        keep
        platforms
        false
        key
        (start [])).1.calls in
    (o : DbaasPlatform) × (is_ready client library
        (answering (ok V1beta1.result_success))
        keep
        meta_laws
        o.status
      ≡ true)
    × ((calls ≡ update_status (platform o) ∷ [])
        ⊎ ((calls ≡ []) × (library.deep_equal cr.status o.status ≡ true)))
unfolding AllSucceed get_reconciler_for_platform
ready_when_installed_example =
    ready_when_installed client library (answering (ok V1beta1.result_success)) keep meta_laws
      platforms key (start []) cr refl refl (refl, (refl, tt))

never_ready_again_example :
    let calls =
      (reconcile client library
        (answering (ok V1beta1.result_success))
        keep
        platforms
        true
        key
        (start [])).1.calls in
    (calls ≡ [])
    ⊎ ((o : DbaasPlatform) × (calls ≡ update_status (platform o) ∷ [])
        × (is_ready client library (answering (ok V1beta1.result_success)) keep meta_laws o.status
              ≡ true
            → is_ready client library
                (answering (ok V1beta1.result_success))
                keep
                meta_laws
                cr.status
              ≡ true))
never_ready_again_example =
    never_ready_again client library (answering (ok V1beta1.result_success)) keep meta_laws
      platforms key (start []) cr refl refl

platform_error_example :
    let run =
      reconcile client library
        (answering (err (other "no image")))
        keep
        platforms
        false
        key
        (start []) in
    (run.0 ≡ ((done, some (other "no image")), false)) × (run.1.calls ≡ [])
unfolding install get_reconciler_for_platform FailsWith
platform_error_example =
    platform_error client library (answering (err (other "no image"))) keep meta_laws platforms key
      (start []) cr refl refl false (other "no image") (inr (refl, inl refl))

deletion_calls_no_reconciler_example :
    reconcile deleting_client library
      (answering (err (other "no image")))
      keep
      platforms
      true
      key
      (start [])
    ≡ reconcile deleting_client library
        (answering (ok V1beta1.result_success))
        keep
        platforms
        true
        key
        (start [])
deletion_calls_no_reconciler_example =
    deletion_calls_no_reconciler deleting_client library (answering (err (other "no image")))
      (answering (ok V1beta1.result_success)) keep platforms true key (start [])
      (record cr { meta = record cr.meta { deletion_timestamp = some 5 } }) 5 refl refl
