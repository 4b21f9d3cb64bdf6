-- ===== src/Controllers/Platform.antt =====
-- `Reconcile`, `updateStatus`, `setStatusPlatform` and `FindStatusPlatform` of
-- controllers/dbaasplatform_controller.go. The reconcilers of the platforms are an argument, which is
-- their interface `PlatformReconciler`; `fixes` stands for `fixConversionWebhooks`,
-- `fixRDSControllerUpgrade` and `setOpenShiftInstallationInfo`, whose errors are logged and dropped.
-- The log of a run has the operator's own write of the status; what the reconcilers of the platforms
-- write is part of the world. Metrics and logging are left out.
pub mod Status
pub mod Loop
pub mod Laws
use dbaas_operator.Prelude.{
  String, Bool, true, false, not, ◌&&◌, Option, none, some, is_some, List, [], ◌∷◌, ◌++◌, ◌==◌,
  if◌then◌else◌,
}
use dbaas_operator.Prelude.GoMap.{GoMap}
use dbaas_operator.Kube.{ObjectKey}
use dbaas_operator.Kube.Conditions.{
  ConditionStatus, Condition, condition_true, condition_false, condition_unknown,
}
use dbaas_operator.Kube.Errors.{Error, is_not_found, Result, ok, err}
use dbaas_operator.Api.V1beta1
use dbaas_operator.Api.V1beta1.{
  PlatformInstlnStatus, result_success, PlatformType, PlatformConfig, PlatformStatus, DbaasPlatform,
  DbaasPlatformStatus,
}
use dbaas_operator.Controllers.Client.{
  CtrlResult, Outcome, done, platform, update_status, Client, Library, Action, pure, ◌>>=◌, read,
  submit,
}

-- The first status of that name.
unfoldable pub find_status_platform : List PlatformStatus → String → Option PlatformStatus
find_status_platform [] name = none
find_status_platform (s ∷ rest) name =
    if s.platform_name == name then some s else find_status_platform rest name

-- The status found is overwritten, through the pointer to it.
unfoldable pub overwrite : List PlatformStatus → PlatformStatus → List PlatformStatus
overwrite [] new = []
overwrite (s ∷ rest) new =
    if s.platform_name == new.platform_name
    then record s { platform_status = new.platform_status; last_message = new.last_message } ∷ rest
    else s ∷ overwrite rest new

unfoldable pub set_status_platform : List PlatformStatus → PlatformStatus → List PlatformStatus
unfolding find_status_platform overwrite
set_status_platform statuses new =
    if is_some (find_status_platform statuses new.platform_name)
    then overwrite statuses new
    else statuses ++ (new ∷ [])

abbrev pub is_success : PlatformInstlnStatus → Bool
is_success result_success = true
is_success _ = false

-- The interface `PlatformReconciler`.
pub record PlatformReconciler (World : Type 0) : Type 0 where
  pub reconcile : DbaasPlatform → World → Result PlatformInstlnStatus × World
  pub cleanup : DbaasPlatform → World → Result PlatformInstlnStatus × World

-- The constructors that `getReconcilerForPlatform` calls.
pub record NewReconciler (World : Type 0) : Type 0 where
  pub providers_installation : PlatformConfig → PlatformReconciler World
  pub console_plugin : PlatformConfig → PlatformReconciler World
  pub quick_start_installation : PlatformReconciler World
  pub observability : PlatformReconciler World

-- What the loop of `Reconcile` leaves: the next status and whether it went to the end, or the error
-- of a platform.
pub record Installation : Type 0 where
  pub next : DbaasPlatformStatus
  pub finished : Bool
  pub error : Option Error

abbrev pub in_progress : String
in_progress = "DBaaS platform stack install in progress"

module _ {World : Type 0} (new : NewReconciler World) where
  unfoldable pub get_reconciler_for_platform : PlatformConfig → Option (PlatformReconciler World)
  get_reconciler_for_platform config = elim config.type [
    | V1beta1.type_operator ↦ some (new.providers_installation config)
    | V1beta1.type_console_plugin ↦ some (new.console_plugin config)
    | V1beta1.type_quick_start ↦ some new.quick_start_installation
    | V1beta1.type_observability ↦ some new.observability
    | V1beta1.unnamed_type n ↦ none
  ]

module _ {World : Type 0} (client : Client World) (lib : Library) (new : NewReconciler World)
    (fixes : World → World) where
  abbrev pub set_status_condition :
      DbaasPlatformStatus → ConditionStatus → String → String → DbaasPlatformStatus
  set_status_condition next status reason text = record next {
    conditions = lib.meta.set_status_condition next.conditions (record {
      type = V1beta1.dbaas_platform_ready_type;
      status = status;
      reason = reason;
      message = text;
    });
  }

  -- The condition while a platform is not complete.
  abbrev pub not_complete : Bool → DbaasPlatformStatus → DbaasPlatformStatus
  not_complete deleting next =
      if deleting
      then set_status_condition next condition_unknown V1beta1.installation_cleanup
          "DBaaS platform stack cleanup in progress"
      else set_status_condition next condition_false V1beta1.installation_inprogress in_progress

  -- The next status with that of one platform.
  unfoldable pub with_platform :
      DbaasPlatformStatus → String → PlatformInstlnStatus → DbaasPlatformStatus
  unfolding set_status_platform
  with_platform next name status = record next {
    platforms_status =
        set_status_platform next.platforms_status
          (record { platform_name = name; platform_status = status; last_message = "" });
  }

  -- From the answer of a platform's reconciler on; `rest` goes on with the other platforms.
  unfoldable pub with_answer :
      Bool
      → DbaasPlatformStatus
      → String
      → (DbaasPlatformStatus → Action World Installation)
      → Result PlatformInstlnStatus
      → Action World Installation
  with_answer deleting next name rest (err e) =
      pure (record { next = next; finished = false; error = some e })
  with_answer deleting next name rest (ok status) =
      if not (is_success status)
      then pure (record {
        next = not_complete deleting (with_platform next name status);
        finished = false;
        error = none;
      })
      else rest (with_platform next name status)

  -- From `getReconcilerForPlatform` on: a platform without a reconciler is passed over.
  unfoldable pub with_reconciler :
      DbaasPlatform
      → Bool
      → DbaasPlatformStatus
      → String
      → (DbaasPlatformStatus → Action World Installation)
      → Option (PlatformReconciler World)
      → Action World Installation
  unfolding with_answer
  with_reconciler cr deleting next name rest none = rest next
  with_reconciler cr deleting next name rest (some r) = do
    answer ← read (if deleting then r.cleanup cr else r.reconcile cr)
    with_answer deleting next name rest answer

  -- The loop over the platforms, in the order in which `range` visits them.
  unfoldable pub install :
      DbaasPlatform → Bool → GoMap PlatformConfig → DbaasPlatformStatus → Action World Installation
  unfolding with_reconciler
  install cr deleting [] next = pure (record { next = next; finished = true; error = none })
  install cr deleting ((name, config) ∷ platforms) next =
      with_reconciler cr deleting next name (install cr deleting platforms)
        (get_reconciler_for_platform new config)

  abbrev updated : Option Error → Outcome
  updated none = (record { requeue = true; requeue_after = 10 }, none)
  updated (some e) = (record { requeue = true; requeue_after = 5 }, some e)

  unfoldable pub update_status_of : DbaasPlatform → DbaasPlatformStatus → Action World Outcome
  update_status_of cr next =
      if not (lib.deep_equal cr.status next)
      then (do
        e ← submit client (update_status (platform (record cr { status = next })))
        pure (updated e))
      else pure (updated none)

  -- The next status once the loop is over, and the field `installComplete`.
  abbrev pub completed : Bool → Bool → Installation → DbaasPlatformStatus × Bool
  completed deleting install_complete i =
      if not deleting && i.finished && not install_complete
      then (
        set_status_condition i.next condition_true V1beta1.ready
            "DBaaS platform stack installation complete",
        true,
      )
      else (i.next, install_complete)

  -- From the end of the loop on.
  unfoldable pub with_installation :
      DbaasPlatform → Bool → Bool → Installation → Action World (Outcome × Bool)
  unfolding update_status_of
  with_installation cr deleting install_complete i = elim i.error [
    | some e ↦ pure ((done, some e), install_complete)
    | none ↦
        let (next, complete) = completed deleting install_complete i in
        (do outcome ← update_status_of cr next; pure (outcome, complete))
  ]

  -- From the answer of `Get` on. The platforms are those of `InstallationPlatforms`, and none where
  -- the object is being deleted.
  unfoldable pub with_cr :
      GoMap PlatformConfig → Bool → Result DbaasPlatform → Action World (Outcome × Bool)
  unfolding install with_installation
  with_cr platforms install_complete (err e) =
      pure ((done, if is_not_found e then none else some e), install_complete)
  with_cr platforms install_complete (ok cr) =
      let deleting = is_some cr.meta.deletion_timestamp in
      do
        u ← read (λ w. (tt, fixes w))
        i ← install cr deleting (if deleting then [] else platforms) cr.status
        with_installation cr deleting install_complete i

  -- `Reconcile`, and the field `installComplete` of the reconciler before and after it.
  unfoldable pub reconcile : GoMap PlatformConfig → Bool → ObjectKey → Action World (Outcome × Bool)
  unfolding with_cr
  reconcile platforms install_complete req = do
    cr ← read (client.get_platform req)
    with_cr platforms install_complete cr
