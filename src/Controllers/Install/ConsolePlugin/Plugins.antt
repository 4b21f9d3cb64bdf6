-- ===== src/Controllers/Install/ConsolePlugin/Plugins.antt =====
-- `addPlugin` and `removePlugin`: the list of the console's plugins, the name among them or not.
use dbaas_operator.Prelude.{
  ℕ, suc, String, Bool, true, false, ◌≡◌, refl, ap, List, [], ◌∷◌, ◌++◌, arith, ◌==◌, eq_iff,
  eq_refl, if◌then◌else◌, ◌≤◌, Bool-cases, inl, inr,
}

-- The loop of `addPlugin`, and what it returns: the list as it is and `false` where it contains the
-- name, and else the list with the name at its end.
unfoldable pub contains_plugin : String → List String → Bool
contains_plugin name [] = false
contains_plugin name (p ∷ plugins) =
    let rest = contains_plugin name plugins in if p == name then true else rest

unfoldable pub add_plugin : String → List String → List String
unfolding contains_plugin
add_plugin name plugins = if contains_plugin name plugins then plugins else plugins ++ (name ∷ [])

-- The first entry of that name is taken out.
unfoldable pub remove_plugin : String → List String → List String
remove_plugin name [] = []
remove_plugin name (p ∷ plugins) =
    let rest = remove_plugin name plugins in if p == name then plugins else p ∷ rest

-- How often the name is in the list.
abbrev pub count_plugin : String → List String → ℕ
count_plugin name [] = 0
count_plugin name (p ∷ plugins) =
    let rest = count_plugin name plugins in if p == name then suc rest else rest

remove_plugin-last :
    (name : String) (plugins : List String)
    → contains_plugin name plugins ≡ false
    → remove_plugin name (plugins ++ (name ∷ [])) ≡ plugins
unfolding contains_plugin remove_plugin
remove_plugin-last name [] h = rw (eq_refl name) refl
remove_plugin-last name (p ∷ plugins) h = ground (arith, remove_plugin-last name plugins)

count_plugin-last :
    (name other : String) (plugins : List String)
    → count_plugin other (plugins ++ (name ∷ []))
      ≡ (if name == other then suc (count_plugin other plugins) else count_plugin other plugins)
count_plugin-last name other [] = refl
count_plugin-last name other (p ∷ plugins) = ground (arith, count_plugin-last name other plugins)

count_plugin-contains_plugin :
    (name : String) (plugins : List String)
    → contains_plugin name plugins ≡ false
    → count_plugin name plugins ≡ 0
unfolding contains_plugin
count_plugin-contains_plugin name [] h = refl
count_plugin-contains_plugin name (p ∷ plugins) h =
    ground (arith, count_plugin-contains_plugin name plugins)

count_plugin-contained :
    (name : String) (plugins : List String)
    → contains_plugin name plugins ≡ true
    → 1 ≤ count_plugin name plugins
unfolding contains_plugin
count_plugin-contained name [] h = absurd (ground (arith, h))
count_plugin-contained name (p ∷ plugins) h = ground (arith, count_plugin-contained name plugins)

-- Where a plugin is in the list at most once, it is there exactly once after it is added, and every
-- other is there as often as before; where it was not there, taking it out again gives the list
-- back.
pub remove_plugin-add_plugin :
    (name : String) (plugins : List String)
    → count_plugin name plugins ≤ 1
    → (count_plugin name (add_plugin name plugins) ≡ 1)
      × ((other : String)
          → (other == name) ≡ false
          → count_plugin other (add_plugin name plugins) ≡ count_plugin other plugins)
      × (contains_plugin name plugins ≡ false
          → remove_plugin name (add_plugin name plugins) ≡ plugins)
unfolding add_plugin
remove_plugin-add_plugin name plugins h = elim (Bool-cases (contains_plugin name plugins)) [
  | inl e ↦ rw e (
    ground (arith, count_plugin-contained name plugins e),
    (λ other q. refl),
    (λ q. ground (arith, e, q)),
  )
  | inr e ↦ rw e (
    rw (count_plugin-last name name plugins, eq_refl name)
        (ap suc (count_plugin-contains_plugin name plugins e)),
    (λ other q.
        ground (arith, count_plugin-last name other plugins, eq_iff name other, eq_iff other name)),
    (λ q. remove_plugin-last name plugins e),
  )
]
