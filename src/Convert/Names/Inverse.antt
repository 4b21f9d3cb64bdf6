-- ===== src/Convert/Names/Inverse.antt =====
-- The two name conversions are inverse to one another where they give a name.
use dbaas_operator.Prelude.{
  String, ◌≡◌, ◌≢◌, ◌↔◌, refl, sym, false, some, [], ◌∷◌, arith, ◌==◌, eq_iff, Option-cases, inl,
  inr, true, ◌||◌, is_empty,
}
use dbaas_operator.Prelude.GoMap.{
  GoMap, Fresh, HasDistinctKeys, AllValues, lookup-AllValues, lookup, index, lookup-Fresh,
}
use dbaas_operator.Api.V1beta1
use dbaas_operator.Convert.Names.{find_key, provider_fields_map, convert_name_to, convert_name_from}

-- No entry has the value `v`, and no two entries have the same.
abbrev Unused : String → GoMap String → Type 0
Unused v [] = Unit
Unused v ((j, w) ∷ m) = ((w == v) ≡ false) × Unused v m

abbrev HasDistinctValues : GoMap String → Type 0
HasDistinctValues [] = Unit
HasDistinctValues ((k, v) ∷ m) = Unused v m × HasDistinctValues m

find_key-Unused : (v : String) (m : GoMap String) → Unused v m → find_key v m ≡ ""
unfolding find_key
find_key-Unused v [] h = refl
find_key-Unused v ((j, w) ∷ m) h = ground (arith, find_key-Unused v m h.1)

find_key_iff :
    (m : GoMap String) (k n : String)
    → HasDistinctKeys m
    → HasDistinctValues m
    → k ≢ ""
    → n ≢ ""
    → (index k m ≡ n) ↔ (find_key n m ≡ k)
unfolding index lookup find_key
find_key_iff [] k n dk dv hk hn = ((λ h. absurd (hn (cc))), (λ h. absurd (hk (cc))))
find_key_iff ((j, w) ∷ m) k n dk dv hk hn =
    let ih = find_key_iff m k n dk.1 dv.1 hk hn in
    ground (arith, ih, eq_iff j k, eq_iff w n, find_key-Unused w m dv.0, lookup-Fresh j m dk.0)

abbrev IsRenaming : GoMap String → Type 0
IsRenaming m =
    HasDistinctKeys m × HasDistinctValues m × Fresh "" m × Fresh "projectName" m × Unused "" m

provider_fields_map-IsRenaming : AllValues IsRenaming provider_fields_map
provider_fields_map-IsRenaming = ground arith

renaming : (p : String) (m : GoMap String) → lookup p provider_fields_map ≡ some m → IsRenaming m
renaming p m e =
    lookup-AllValues IsRenaming p provider_fields_map m provider_fields_map-IsRenaming e

-- A v1alpha1 name k and a v1beta1 name n, neither empty: k is converted to n exactly if n is
-- converted to k, whatever the provider.
pub convert_name_iff :
    (p k n : String) → k ≢ "" → n ≢ "" → (convert_name_to p k ≡ n) ↔ (convert_name_from p n ≡ k)
unfolding convert_name_to convert_name_from
convert_name_iff p k n hk hn = elim (Option-cases (lookup p provider_fields_map)) [
  | inl e ↦
      rw (e, convert_name_to, convert_name_from)
        ((λ h. absurd (hn (sym h))), (λ h. absurd (hk (sym h))))
  | inr (m, e) ↦
      let good = renaming p m e in
      rw (e, convert_name_to, convert_name_from) (find_key_iff m k n good.0 good.1 hk hn)
]

pub convert_name_to_empty : (p : String) → convert_name_to p "" ≡ ""
unfolding convert_name_to index
convert_name_to_empty p = elim (Option-cases (lookup p provider_fields_map)) [
  | inl e ↦ rw (e, convert_name_to)
  | inr (m, e) ↦ rw (e, convert_name_to) (rw (lookup-Fresh "" m (renaming p m e).2, index))
]

pub convert_name_from_empty : (p : String) → convert_name_from p "" ≡ ""
unfolding convert_name_from
convert_name_from_empty p = elim (Option-cases (lookup p provider_fields_map)) [
  | inl e ↦ rw (e, convert_name_from)
  | inr (m, e) ↦ rw (e, convert_name_from) (find_key-Unused "" m (renaming p m e).4)
]

-- The name that the conversion of an instance puts in place of "ProjectName" is not known to the
-- way back.
pub convert_name_to_tweaked : (p : String) → convert_name_to p "projectName" ≡ ""
unfolding convert_name_to index
convert_name_to_tweaked p = elim (Option-cases (lookup p provider_fields_map)) [
  | inl e ↦ rw (e, convert_name_to)
  | inr (m, e) ↦
      rw (e, convert_name_to) (rw (lookup-Fresh "projectName" m (renaming p m e).3, index))
]

abbrev IsNoneOrProject : GoMap String → Type 0
IsNoneOrProject m =
    (is_empty (find_key V1beta1.provisioning_team_project m)
      || find_key V1beta1.provisioning_team_project m == "ProjectName")
    ≡ true

provider_fields_map-project : AllValues IsNoneOrProject provider_fields_map
unfolding find_key
provider_fields_map-project = (refl, (refl, (refl, tt)))

-- The team project has no v1alpha1 name but "ProjectName".
pub convert_name_from_project :
    (p : String)
    → (is_empty (convert_name_from p V1beta1.provisioning_team_project)
        || convert_name_from p V1beta1.provisioning_team_project == "ProjectName")
      ≡ true
unfolding convert_name_from
convert_name_from_project p = elim (Option-cases (lookup p provider_fields_map)) [
  | inl e ↦ rw (e, convert_name_from)
  | inr (m, e) ↦
      rw (e, convert_name_from)
        (lookup-AllValues IsNoneOrProject p provider_fields_map m provider_fields_map-project e)
]
