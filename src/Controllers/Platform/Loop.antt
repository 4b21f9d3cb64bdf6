-- ===== src/Controllers/Platform/Loop.antt =====
-- When the loop over the platforms goes to the end, and what it leaves.
use dbaas_operator.Prelude.{
  String, ◌≡◌, ◌↔◌, ◌⊎◌, inl, inr, refl, true, false, Bool, Option, none, some, [], ◌∷◌, arith,
  if◌then◌else◌,
}
use dbaas_operator.Prelude.GoMap.{GoMap}
use dbaas_operator.Kube.Errors.{Error, Result, ok, err}
use dbaas_operator.Api.V1beta1.{
  PlatformConfig, PlatformInstlnStatus, result_success, result_failed, result_in_progress, unset,
  DbaasPlatform, DbaasPlatformStatus,
}
use dbaas_operator.Controllers.Client.{Client, Library, Run}
use dbaas_operator.Controllers.Platform.{
  NewReconciler, PlatformReconciler, Installation, get_reconciler_for_platform, with_answer,
  with_reconciler, install,
}

module _ {World : Type 0} (client : Client World) (lib : Library) (new : NewReconciler World)
    (fixes : World → World) (cr : DbaasPlatform) where
  abbrev pub answer_of :
      PlatformReconciler World → Bool → World → Result PlatformInstlnStatus × World
  answer_of r deleting w = (if deleting then r.cleanup cr else r.reconcile cr) w

  -- The reconciler of a platform, if it has one, succeeds, and `Rest` holds after it.
  unfoldable pub Succeeds :
      Bool → World → (World → Type 0) → Option (PlatformReconciler World) → Type 0
  Succeeds deleting w Rest none = Rest w
  Succeeds deleting w Rest (some r) =
      ((answer_of r deleting w).0 ≡ ok result_success) × Rest (answer_of r deleting w).1

  -- Each platform that has a reconciler succeeds, one after the other.
  unfoldable pub AllSucceed : Bool → GoMap PlatformConfig → World → Type 0
  unfolding Succeeds
  AllSucceed deleting [] w = Unit
  AllSucceed deleting ((name, config) ∷ platforms) w =
      Succeeds deleting w (AllSucceed deleting platforms) (get_reconciler_for_platform new config)

  -- The reconciler of a platform, if it has one, answers with the error, or it succeeds and `Rest`
  -- holds after it.
  unfoldable pub Fails :
      Error → World → (World → Type 0) → Option (PlatformReconciler World) → Type 0
  Fails e w Rest none = Rest w
  Fails e w Rest (some r) =
      ((r.reconcile cr w).0 ≡ err e)
      ⊎ (((r.reconcile cr w).0 ≡ ok result_success) × Rest (r.reconcile cr w).1)

  -- One of the platforms answers with the error, and those before it succeed.
  unfoldable pub FailsWith : Error → GoMap PlatformConfig → World → Type 0
  unfolding Fails
  FailsWith e [] w = ⊥
  FailsWith e ((name, config) ∷ platforms) w =
      Fails e w (FailsWith e platforms) (get_reconciler_for_platform new config)

  failed_on :
      (e : Error) (next : DbaasPlatformStatus) (name : String) (Rest : World → Type 0)
      (rest : DbaasPlatformStatus → Run World → Installation × Run World)
      (o : Option (PlatformReconciler World)) (s : Run World)
      → ((next' : DbaasPlatformStatus) (s' : Run World)
          → Rest s'.world
          → (rest next' s').0.error ≡ some e)
      → Fails e s.world Rest o
      → (with_reconciler client lib new fixes cr false next name rest o s).0.error ≡ some e
  unfolding with_reconciler Fails with_answer
  failed_on e next name Rest rest none s ih h = ih next s h
  failed_on e next name Rest rest (some r) s ih (inl q) = rw q refl
  failed_on e next name Rest rest (some r) s ih (inr (q, h)) = rw q (ih _ _ h)

  -- The error of a platform ends the loop.
  pub install_fails :
      (e : Error) (platforms : GoMap PlatformConfig) (next : DbaasPlatformStatus) (s : Run World)
      → FailsWith e platforms s.world
      → (install client lib new fixes cr false platforms next s).0.error ≡ some e
  unfolding install FailsWith
  install_fails e [] next s h = absurd h
  install_fails e ((name, config) ∷ platforms) next s h =
      failed_on e next name (FailsWith e platforms)
        (install client lib new fixes cr false platforms) (get_reconciler_for_platform new config) s
        (λ next' s'. install_fails e platforms next' s') h

  abbrev pub installed :
      Bool → GoMap PlatformConfig → DbaasPlatformStatus → Run World → Installation
  installed deleting platforms next s =
      (install client lib new fixes cr deleting platforms next s).0

  answered :
      (deleting : Bool) (next : DbaasPlatformStatus) (name : String) (Rest : World → Type 0)
      (rest : DbaasPlatformStatus → Run World → Installation × Run World)
      (answer : Result PlatformInstlnStatus) (s : Run World)
      → ((next' : DbaasPlatformStatus) → ((rest next' s).0.finished ≡ true) ↔ Rest s.world)
      → ((with_answer client lib new fixes deleting next name rest answer s).0.finished ≡ true)
        ↔ ((answer ≡ ok result_success) × Rest s.world)
  unfolding with_answer
  answered deleting next name Rest rest (err e) s ih =
      ((λ t. absurd (ground arith)), (λ h. absurd (ground arith)))
  answered deleting next name Rest rest (ok result_success) s ih =
      ((λ t. (refl, (ih _).0 t)), (λ h. (ih _).1 h.1))
  answered deleting next name Rest rest (ok result_failed) s ih =
      ((λ t. absurd (ground arith)), (λ h. absurd (ground arith)))
  answered deleting next name Rest rest (ok result_in_progress) s ih =
      ((λ t. absurd (ground arith)), (λ h. absurd (ground arith)))
  answered deleting next name Rest rest (ok unset) s ih =
      ((λ t. absurd (ground arith)), (λ h. absurd (ground arith)))

  passed_on :
      (deleting : Bool) (next : DbaasPlatformStatus) (name : String) (Rest : World → Type 0)
      (rest : DbaasPlatformStatus → Run World → Installation × Run World)
      (o : Option (PlatformReconciler World)) (s : Run World)
      → ((next' : DbaasPlatformStatus) (s' : Run World)
          → ((rest next' s').0.finished ≡ true) ↔ Rest s'.world)
      → ((with_reconciler client lib new fixes cr deleting next name rest o s).0.finished ≡ true)
        ↔ Succeeds deleting s.world Rest o
  unfolding with_reconciler Succeeds
  passed_on deleting next name Rest rest none s ih = ih next s
  passed_on deleting next name Rest rest (some r) s ih =
      let answer = answer_of r deleting s.world in
      let s' : Run World = record { world = answer.1; calls = s.calls } in
      answered deleting next name Rest rest answer.0 s' (λ next'. ih next' s')

  -- The loop goes to the end exactly if all platforms succeed.
  pub finished_iff :
      (deleting : Bool) (platforms : GoMap PlatformConfig) (next : DbaasPlatformStatus)
      (s : Run World)
      → ((installed deleting platforms next s).finished ≡ true)
        ↔ AllSucceed deleting platforms s.world
  unfolding install AllSucceed
  finished_iff deleting [] next s = ((λ t. tt), (λ t. refl))
  finished_iff deleting ((name, config) ∷ platforms) next s =
      passed_on deleting next name (AllSucceed deleting platforms)
        (install client lib new fixes cr deleting platforms)
        (get_reconciler_for_platform new config) s
        (λ next' s'. finished_iff deleting platforms next' s')
