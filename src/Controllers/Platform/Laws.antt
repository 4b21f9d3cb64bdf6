-- ===== src/Controllers/Platform/Laws.antt =====
-- When a platform is ready, and what an error and a deletion leave.
use dbaas_operator.Prelude.{
  ℕ, String, ◌≡◌, ◌↔◌, refl, ◌⊎◌, inl, inr, true, false, Bool, Option, none, some, [], ◌∷◌, arith,
  Bool-cases, Option-cases, if◌then◌else◌,
}
use dbaas_operator.Prelude.GoMap.{GoMap}
use dbaas_operator.Kube.{ObjectKey}
use dbaas_operator.Kube.Conditions.{has_true, MetaLaws}
use dbaas_operator.Kube.Errors.{Error, Result, ok, err}
use dbaas_operator.Api.V1beta1
use dbaas_operator.Api.V1beta1.{
  PlatformConfig, PlatformStatus, PlatformInstlnStatus, result_success, result_failed,
  result_in_progress, unset, DbaasPlatform, DbaasPlatformStatus,
}
use dbaas_operator.Controllers.Client.{done, platform, update_status, Client, Library, Run}
use dbaas_operator.Controllers.Platform.{
  NewReconciler, PlatformReconciler, Installation, get_reconciler_for_platform, with_answer,
  with_platform, with_reconciler, install, not_complete, completed, update_status_of, with_cr,
  with_installation, reconcile,
}
use dbaas_operator.Controllers.Platform.Loop.{AllSucceed, FailsWith, finished_iff, install_fails}

module _ {World : Type 0} (client : Client World) (lib : Library) (new : NewReconciler World)
    (fixes : World → World) (laws : MetaLaws lib.meta) where
  -- The status says that the platform is ready.
  abbrev pub is_ready : DbaasPlatformStatus → Bool
  is_ready s =
      has_true (lib.meta.find_status_condition s.conditions V1beta1.dbaas_platform_ready_type)

  -- What every run of the loop leaves: no call in the log, no error where it went to the end, and
  -- no platform ready that was not.
  record Kept (next : DbaasPlatformStatus) (s : Run World) (run : Installation × Run World)
      : Type 0 where
    no_call : run.1.calls ≡ s.calls
    no_error : run.0.finished ≡ true → run.0.error ≡ none
    not_readied : is_ready run.0.next ≡ true → is_ready next ≡ true

  not_complete-is_ready :
      (deleting : Bool) (next : DbaasPlatformStatus)
      → is_ready (not_complete client lib new fixes deleting next) ≡ false
  not_complete-is_ready true next = rw (laws.find-set next.conditions _)
  not_complete-is_ready false next = rw (laws.find-set next.conditions _)

  module _ (cr : DbaasPlatform) (deleting : Bool) where
    stopped :
        (next next' : DbaasPlatformStatus) (s : Run World)
        → Kept next s (
          record {
            next = not_complete client lib new fixes deleting next';
            finished = false;
            error = none;
          },
          s,
        )
    stopped next next' s = record {
      no_call = refl;
      no_error = λ t. refl;
      not_readied = λ t. absurd (ground (arith, not_complete-is_ready deleting next'));
    }

    answered :
        (next : DbaasPlatformStatus) (name : String)
        (rest : DbaasPlatformStatus → Run World → Installation × Run World)
        (answer : Result PlatformInstlnStatus) (s : Run World)
        → ((next' : DbaasPlatformStatus) → Kept next' s (rest next' s))
        → Kept next s (with_answer client lib new fixes deleting next name rest answer s)
    unfolding with_answer with_platform
    answered next name rest (err e) s ih = record {
      no_call = refl;
      no_error = λ t. absurd (ground arith);
      not_readied = λ t. t;
    }
    answered next name rest (ok result_success) s ih =
        let k = ih _ in
        record { no_call = k.no_call; no_error = k.no_error; not_readied = k.not_readied }
    answered next name rest (ok result_failed) s ih = stopped next _ s
    answered next name rest (ok result_in_progress) s ih = stopped next _ s
    answered next name rest (ok unset) s ih = stopped next _ s

    passed_on :
        (next : DbaasPlatformStatus) (name : String)
        (rest : DbaasPlatformStatus → Run World → Installation × Run World)
        (o : Option (PlatformReconciler World)) (s : Run World)
        → ((next' : DbaasPlatformStatus) (s' : Run World) → Kept next' s' (rest next' s'))
        → Kept next s (with_reconciler client lib new fixes cr deleting next name rest o s)
    unfolding with_reconciler
    passed_on next name rest none s ih = ih next s
    passed_on next name rest (some r) s ih =
        let answer = (if deleting then r.cleanup cr else r.reconcile cr) s.world in
        let s' : Run World = record { world = answer.1; calls = s.calls } in
        let k = answered next name rest answer.0 s' (λ next'. ih next' s') in
        record { no_call = k.no_call; no_error = k.no_error; not_readied = k.not_readied }

    install-Kept :
        (platforms : GoMap PlatformConfig) (next : DbaasPlatformStatus) (s : Run World)
        → Kept next s (install client lib new fixes cr deleting platforms next s)
    unfolding install
    install-Kept [] next s = record { no_call = refl; no_error = λ t. refl; not_readied = λ t. t }
    install-Kept ((name, config) ∷ platforms) next s =
        passed_on next name (install client lib new fixes cr deleting platforms)
          (get_reconciler_for_platform new config) s (install-Kept platforms)

  module _ (platforms : GoMap PlatformConfig) (req : ObjectKey) (s : Run World) (cr : DbaasPlatform)
      (got : (client.get_platform req s.world).0 ≡ ok cr)
      (not_deleted : cr.meta.deletion_timestamp ≡ none) where
    -- The state in which the platforms are installed, and what their loop leaves.
    abbrev pub fixed : Run World
    fixed = record { world = fixes (client.get_platform req s.world).1; calls = s.calls }

    abbrev pub loop : Installation × Run World
    loop = install client lib new fixes cr false platforms cr.status fixed

    reconcile_run :
        (install_complete : Bool)
        → reconcile client lib new fixes platforms install_complete req s
          ≡ with_installation client lib new fixes cr false install_complete loop.0 loop.1
    unfolding reconcile
    reconcile_run install_complete = rw (got, not_deleted, with_cr)

    flag_iff :
        (install_complete : Bool)
        → ((reconcile client lib new fixes platforms install_complete req s).0.1 ≡ true)
          ↔ ((install_complete ≡ true) ⊎ (loop.0.finished ≡ true))
    unfolding with_installation
    flag_iff install_complete =
        rw (reconcile_run install_complete)
          (ground (arith, (install-Kept cr false platforms cr.status fixed).no_error))

    -- Where the platform object is read and is not being deleted, the field `installComplete` is
    -- set after a reconciliation exactly if it was set before or all platforms succeed.
    pub install_complete_iff :
        (install_complete : Bool)
        → ((reconcile client lib new fixes platforms install_complete req s).0.1 ≡ true) ↔ (
            (install_complete ≡ true)
            ⊎ AllSucceed client lib new fixes cr false platforms fixed.world)
    install_complete_iff install_complete =
        let (finish, unfinish) =
          finished_iff client lib new fixes cr false platforms cr.status fixed in
        let (to, from) = flag_iff install_complete in
        (
          λ h. elim (to h) [ inl t ↦ inl t | inr f ↦ inr (finish f) ],
          λ h. elim h [ inl t ↦ from (inl t) | inr a ↦ from (inr (unfinish a)) ],
        )

    -- Where the platform object is read and is not being deleted, and `installComplete` is set, a
    -- platform that is not ready stays so: the status that a reconciliation writes, if it writes
    -- one, says that the platform is ready only if the status before did.
    pub never_ready_again :
        let calls = (reconcile client lib new fixes platforms true req s).1.calls in
        (calls ≡ s.calls)
        ⊎ ((o : DbaasPlatform) × (calls ≡ update_status (platform o) ∷ s.calls)
            × (is_ready o.status ≡ true → is_ready cr.status ≡ true))
    unfolding with_installation
    never_ready_again =
        let k = install-Kept cr false platforms cr.status fixed in
        rw (reconcile_run true) (elim (Option-cases loop.0.error) [
          | inr (u, e) ↦ inl (ground (arith, k.no_call))
          | inl e ↦ elim (Bool-cases (lib.deep_equal cr.status loop.0.next)) [
            | inl d ↦ inl (ground (arith, k.no_call))
            | inr d ↦
                inr (record cr { status = loop.0.next }, ground (arith, k.no_call), k.not_readied)
          ]
        ])

    -- Where the platform object is read and is not being deleted and `installComplete` is not set,
    -- a reconciliation in which all platforms succeed leaves the platform ready: it writes a status
    -- that says so, or finds the status as it is equal to one that does.
    pub ready_when_installed :
        AllSucceed client lib new fixes cr false platforms fixed.world
        → let calls = (reconcile client lib new fixes platforms false req s).1.calls in
          (o : DbaasPlatform) × (is_ready o.status ≡ true)
          × ((calls ≡ update_status (platform o) ∷ s.calls)
              ⊎ ((calls ≡ s.calls) × (lib.deep_equal cr.status o.status ≡ true)))
    unfolding with_installation
    ready_when_installed all =
        let k = install-Kept cr false platforms cr.status fixed in
        let finished =
          (finished_iff client lib new fixes cr false platforms cr.status fixed).1 all in
        let no_error = k.no_error finished in
        let next = (completed client lib new fixes false false loop.0).0 in
        (
          record cr { status = next },
          rw (finished, laws.find-set loop.0.next.conditions _),
          rw (reconcile_run false) (elim (Bool-cases (lib.deep_equal cr.status next)) [
            | inl d ↦ inr (ground (arith, k.no_call, finished), d)
            | inr d ↦ inl (ground (arith, k.no_call, finished))
          ]),
        )

    -- Where the platform object is read and is not being deleted, and the reconciler of a platform
    -- answers with an error, those of the platforms before it with success, the error is returned
    -- as it is and the operator writes no status, so that no message of it is seen;
    -- `installComplete` is as it was.
    pub platform_error :
        (install_complete : Bool) (e : Error)
        → FailsWith client lib new fixes cr e platforms fixed.world
        → let run = reconcile client lib new fixes platforms install_complete req s in
          (run.0 ≡ ((done, some e), install_complete)) × (run.1.calls ≡ s.calls)
    unfolding with_installation
    platform_error install_complete e q =
        let k = install-Kept cr false platforms cr.status fixed in
        let failed = install_fails client lib new fixes cr e platforms cr.status fixed q in
        rw (reconcile_run install_complete) (ground (arith, k.no_call, failed))

module _ {World : Type 0} (client : Client World) (lib : Library) (new new' : NewReconciler World)
    (fixes : World → World) where
  -- Where the platform object is read and is being deleted, the reconciliation is the same whatever
  -- the reconcilers of the platforms are: none of them is called, neither to install nor to clean
  -- up.
  pub deletion_calls_no_reconciler :
      (platforms : GoMap PlatformConfig) (install_complete : Bool) (req : ObjectKey) (s : Run World)
      (cr : DbaasPlatform) (t : ℕ)
      → (client.get_platform req s.world).0 ≡ ok cr
      → cr.meta.deletion_timestamp ≡ some t
      → reconcile client lib new fixes platforms install_complete req s
        ≡ reconcile client lib new' fixes platforms install_complete req s
  unfolding reconcile with_cr install with_installation update_status_of
  deletion_calls_no_reconciler platforms install_complete req s cr t got deleted =
      rw (got, deleted) refl
