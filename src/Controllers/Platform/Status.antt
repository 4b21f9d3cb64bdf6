-- ===== src/Controllers/Platform/Status.antt =====
-- The statuses of the platforms are a map from their names.
use dbaas_operator.Prelude.{
  String, ◌≡◌, refl, inl, inr, true, none, some, is_some, List, [], ◌∷◌, ◌++◌, ◌==◌, if◌then◌else◌,
  arith, eq_iff, Option-cases,
}
use dbaas_operator.Api.V1beta1.{PlatformStatus}
use dbaas_operator.Controllers.Platform.{find_status_platform, overwrite, set_status_platform}

overwritten :
    (s new : PlatformStatus)
    → (s.platform_name == new.platform_name) ≡ true
    → (record s { platform_status = new.platform_status; last_message = new.last_message }) ≡ new
overwritten s new e = ground (arith, eq_iff s.platform_name new.platform_name)

find-append :
    (l : List PlatformStatus) (new : PlatformStatus) (name : String)
    → find_status_platform l new.platform_name ≡ none
    → find_status_platform (l ++ (new ∷ [])) name
      ≡ (if new.platform_name == name then some new else find_status_platform l name)
unfolding find_status_platform
find-append [] new name h = refl
find-append (s ∷ l) new name h = ground (
  arith,
  eq_iff s.platform_name new.platform_name,
  eq_iff s.platform_name name,
  eq_iff new.platform_name name,
  find-append l new name,
)

find-overwrite :
    (l : List PlatformStatus) (new : PlatformStatus) (name : String)
    → is_some (find_status_platform l new.platform_name) ≡ true
    → find_status_platform (overwrite l new) name
      ≡ (if new.platform_name == name then some new else find_status_platform l name)
unfolding find_status_platform overwrite
find-overwrite [] new name h = absurd (ground arith)
find-overwrite (s ∷ l) new name h = ground (
  arith,
  overwritten s new,
  eq_iff s.platform_name new.platform_name,
  eq_iff s.platform_name name,
  eq_iff new.platform_name name,
  find-overwrite l new name,
)

-- After the status of a platform is set it is found under its name as it was set, and every other
-- name finds what it found before.
pub find-set_status_platform :
    (l : List PlatformStatus) (new : PlatformStatus) (name : String)
    → find_status_platform (set_status_platform l new) name
      ≡ (if new.platform_name == name then some new else find_status_platform l name)
unfolding set_status_platform
find-set_status_platform l new name =
    elim (Option-cases (find_status_platform l new.platform_name)) [
      | inl e ↦ rw e (find-append l new name e)
      | inr (s, e) ↦ rw e (find-overwrite l new name (ground arith))
    ]
