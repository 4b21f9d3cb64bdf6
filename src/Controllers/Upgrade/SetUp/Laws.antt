-- ===== src/Controllers/Upgrade/SetUp/Laws.antt =====
-- When the set-up creates a platform object.
use dbaas_operator.Prelude.{pos, String, ◌≡◌, refl, inl, inr, some, List, [], ◌∷◌}
use dbaas_operator.Kube.{OwnerReference}
use dbaas_operator.Kube.Errors.{Error, other, Result, ok, err, Result-cases}
use dbaas_operator.Controllers.Objects.{csv, platform_cr, Manifest, created}
use dbaas_operator.Controllers.Client.{Call, change, Action, Run}
use dbaas_operator.Controllers.Install.{ObjectClient}
use dbaas_operator.Controllers.Install.Answers.{Extends, unchanged, one_more}
use dbaas_operator.Controllers.Upgrade.SetUp.{with_owner, with_platforms, create_platform_cr}

module _ {World : Type 0} (client : ObjectClient World) (namespace operator : String)
    (trim_space : String → String)
    (own : Manifest csv → List OwnerReference → Result (List OwnerReference)) where
  -- A platform object is created where the API server lists none, owned by the operator's CSV.
  abbrev pub IsFirst : World → Call → Type 0
  IsFirst w (change (created platform_cr object)) =
      ((client.list platform_cr namespace w).0 ≡ ok [])
      × (found : Manifest csv) × (own found [] ≡ ok object.meta.owner_references)
      × (object.meta.name ≡ "dbaas-platform")
      × (object.body ≡ some (pos 180))
  IsFirst w _ = ⊥

  abbrev create : Action World (Result (Manifest platform_cr))
  create = create_platform_cr client namespace operator trim_space own

  with_owner-Extends :
      (w : World) (r : Result (Manifest csv)) (s : Run World)
      → (client.list platform_cr namespace w).0 ≡ ok []
      → Extends
          (IsFirst w)
          s.calls
          (with_owner client namespace operator trim_space own r s).1.calls
  with_owner-Extends w (err e) s h = unchanged
  with_owner-Extends w (ok found) s h = elim (Result-cases (own found [])) [
    | inl (refs, e) ↦ rw e (one_more (h, found, e, refl, refl) unchanged)
    | inr (x, e) ↦ rw e unchanged
  ]

  with_platforms-Extends :
      (w : World) (r : Result (List (Manifest platform_cr))) (s : Run World)
      → (client.list platform_cr namespace w).0 ≡ r
      → Extends
          (IsFirst w)
          s.calls
          (with_platforms client namespace operator trim_space own r s).1.calls
  with_platforms-Extends w (err e) s h = unchanged
  with_platforms-Extends w (ok []) s h = with_owner-Extends w _ _ h
  with_platforms-Extends w (ok (cr ∷ [])) s h = unchanged
  with_platforms-Extends w (ok (a ∷ b ∷ more)) s h = unchanged

  -- The set-up writes nothing but a platform object, named "dbaas-platform", with a sync period of
  -- 180 and owned by a CSV, and only where the API server lists none; where it lists one, that is
  -- the result, and where it lists more, the result is an error.
  pub create_platform_cr-IsFirst :
      (s : Run World)
      → Extends (IsFirst s.world) s.calls (create s).1.calls
        × ((cr : Manifest platform_cr)
            → (client.list platform_cr namespace s.world).0 ≡ ok (cr ∷ [])
            → (create s).0 ≡ ok cr)
        × ((a b : Manifest platform_cr) (more : List (Manifest platform_cr))
            → (client.list platform_cr namespace s.world).0 ≡ ok (a ∷ b ∷ more)
            → (e : Error) × ((create s).0 ≡ err e))
  unfolding create_platform_cr
  create_platform_cr-IsFirst s = (
    with_platforms-Extends s.world (client.list platform_cr namespace s.world).0
        (record { world = (client.list platform_cr namespace s.world).1; calls = s.calls }) refl,
    (λ cr h. rw h refl),
    (λ a b more h. (other "too many DBaaSPlafrom resources found", rw h refl)),
  )
