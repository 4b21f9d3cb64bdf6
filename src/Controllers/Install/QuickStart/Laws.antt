-- ===== src/Controllers/Install/QuickStart/Laws.antt =====
-- What the installation of the quick starts writes, and what it leaves when it succeeds.
use dbaas_operator.Prelude.{String, ◌≡◌, refl, some, [], ◌∷◌, ◌⊎◌, inl, inr}
use dbaas_operator.Prelude.GoMap.{GoMap}
use dbaas_operator.Kube.Errors.{Result, ok, err}
use dbaas_operator.Controllers.Objects.{quick_start, key_of, applied, deleted}
use dbaas_operator.Controllers.Client.{Call, change}
use dbaas_operator.Controllers.Install.{ObjectClient, named_key}
use dbaas_operator.Controllers.Install.Answers.{
  conflict_waits-proper, IsStep, kept, wrote, succeeded-IsStep, followed_by-IsStep,
  after_delete-IsStep,
}
use dbaas_operator.Controllers.Install.QuickStart.{
  with_spec, create_quick_start_cr, reconcile, cleanup,
}

-- `name` is the name of a file.
abbrev pub IsNamed : String → GoMap String → Type 0
IsNamed name [] = ⊥
IsNamed name ((k, bytes) ∷ files) = (k ≡ name) ⊎ IsNamed name files

module _ {World : Type 0} (client : ObjectClient World) (unmarshal : String → Result String)
    (named : String → Type 0) where
  -- A quick start of a name that is among those given is applied, or is deleted.
  abbrev pub Applies : Call → Type 0
  Applies (change (applied quick_start object)) =
      named object.meta.name × (key_of object.meta ≡ named_key "" object.meta.name)
  Applies _ = ⊥

  abbrev pub Deletes : Call → Type 0
  Deletes (change (deleted quick_start key)) = named key.name × (key ≡ named_key "" key.name)
  Deletes _ = ⊥

  with_spec-IsStep :
      (name : String) (r : Result String)
      → named name
      → IsStep Applies (with_spec client unmarshal name r)
  with_spec-IsStep name (err e) h s = kept (conflict_waits-proper (some e))
  with_spec-IsStep name (ok spec) h s = wrote (conflict_waits-proper _) (h, refl)

  create_quick_start_cr-IsStep :
      (name bytes : String)
      → named name
      → IsStep Applies (create_quick_start_cr client unmarshal name bytes)
  unfolding create_quick_start_cr
  create_quick_start_cr-IsStep name bytes h = with_spec-IsStep name (unmarshal bytes) h

  reconcile_files-IsStep :
      (files : GoMap String)
      → ((name : String) → IsNamed name files → named name)
      → IsStep Applies (reconcile client unmarshal files)
  unfolding reconcile
  reconcile_files-IsStep [] h = succeeded-IsStep
  reconcile_files-IsStep ((name, bytes) ∷ files) h =
      followed_by-IsStep (create_quick_start_cr client unmarshal name bytes) _
        (create_quick_start_cr-IsStep name bytes (h name (inl refl)))
        (reconcile_files-IsStep files (λ n q. h n (inr q)))

  cleanup_files-IsStep :
      (files : GoMap String)
      → ((name : String) → IsNamed name files → named name)
      → IsStep Deletes (cleanup client unmarshal files)
  unfolding cleanup
  cleanup_files-IsStep [] h = succeeded-IsStep
  cleanup_files-IsStep ((name, bytes) ∷ files) h =
      after_delete-IsStep client quick_start (named_key "" name) _ (h name (inl refl), refl)
        (cleanup_files-IsStep files (λ n q. h n (inr q)))

module _ {World : Type 0} (client : ObjectClient World) (unmarshal : String → Result String)
    (files : GoMap String) where
  -- The calls of `Reconcile` and of `Cleanup`, for the quick starts of `files`.
  abbrev pub Installs : Call → Type 0
  Installs = Applies client unmarshal (λ name. IsNamed name files)

  abbrev pub Removes : Call → Type 0
  Removes = Deletes client unmarshal (λ name. IsNamed name files)

  pub reconcile-IsStep : IsStep Installs (reconcile client unmarshal files)
  reconcile-IsStep = reconcile_files-IsStep client unmarshal _ files (λ n q. q)

  pub cleanup-IsStep : IsStep Removes (cleanup client unmarshal files)
  cleanup-IsStep = cleanup_files-IsStep client unmarshal _ files (λ n q. q)
