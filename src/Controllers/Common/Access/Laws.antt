-- ===== src/Controllers/Common/Access/Laws.antt =====
-- Who may connect to an inventory, and which policy is active.
use mathlib.Core.List.{Memᴰ}
use dbaas_operator.Prelude.{
  String, ◌≡◌, ◌↔◌, ◌⊎◌, refl, sym, inl, inr, Bool, true, ◌||◌, Option, List, [], ◌∷◌, ◌++◌, arith,
  ◌==◌, eq_iff, Bool-cases,
}
use dbaas_operator.Kube.Errors.{Result, Result-cases, ok}
use dbaas_operator.Api.V1beta1.{DbaasInventory, DbaasPolicy}
use dbaas_operator.Controllers.Client.{Client, Library, Run}
use dbaas_operator.Controllers.Common.Access.{
  contains, connection_policy, valid_namespaces, valid_ns_selector, select_namespaces,
  is_valid_connection_ns,
}

Memᴰ_of_contains : (s : List String) (str : String) → contains s str ≡ true → Memᴰ str s
unfolding contains
Memᴰ_of_contains [] str h = cc
Memᴰ_of_contains (v ∷ s) str h = elim (Bool-cases (v == str)) [
  | inl e ↦ Memᴰ.head (sym ((eq_iff v str).0 e))
  | inr e ↦ Memᴰ.tail (Memᴰ_of_contains s str (rw e at h))
]

contains_of_Memᴰ : {str : String} {s : List String} → Memᴰ str s → contains s str ≡ true
unfolding contains
contains_of_Memᴰ {str = str} (Memᴰ.head {x = x} {xs = xs} p) = ground (arith, eq_iff x str)
contains_of_Memᴰ {str = str} (Memᴰ.tail {x = x} {xs = xs} h) = ground (arith, contains_of_Memᴰ h)

pub contains_iff : (s : List String) (str : String) → (contains s str ≡ true) ↔ Memᴰ str s
contains_iff s str = (Memᴰ_of_contains s str, contains_of_Memᴰ)

contains-append :
    (s t : List String) (str : String) → contains (s ++ t) str ≡ (contains s str || contains t str)
unfolding contains
contains-append [] t str = refl
contains-append (v ∷ s) t str = ground (arith, contains-append s t str)

module _ {World : Type 0} (client : Client World) (lib : Library) (namespace : String)
    (inventory : DbaasInventory) (active : Option DbaasPolicy) (s : Run World) where
  abbrev pub listed : List String
  listed = valid_namespaces (connection_policy inventory active)

  abbrev pub selected : Result (List String)
  selected =
      (select_namespaces client lib (valid_ns_selector (connection_policy inventory active)) s).0

  -- The namespace is that of the inventory, or the policy that counts lists it or the wildcard, or
  -- its selector selects it.
  abbrev pub IsAllowed : Type 0
  IsAllowed =
      (namespace ≡ inventory.meta.namespace)
      ⊎ Memᴰ "*" listed
      ⊎ Memᴰ namespace listed
      ⊎ ((more : List String) × (selected ≡ ok more) × Memᴰ namespace more)

  abbrev shortcut : Bool
  shortcut = contains listed "*" || contains listed namespace

  allowed_of_valid :
      (is_valid_connection_ns client lib namespace inventory active s).0 ≡ ok true → IsAllowed
  unfolding is_valid_connection_ns
  allowed_of_valid h = elim (Bool-cases (namespace == inventory.meta.namespace)) [
    | inl e ↦ inl ((eq_iff namespace inventory.meta.namespace).0 e)
    | inr e ↦ elim (Bool-cases (contains listed "*")) [
      | inl star ↦ inr (inl (Memᴰ_of_contains listed "*" star))
      | inr no_star ↦ elim (Bool-cases (contains listed namespace)) [
        | inl here ↦ inr (inr (inl (Memᴰ_of_contains listed namespace here)))
        | inr absent ↦ elim (Result-cases selected) [
          | inl (more, got) ↦
              let found : contains more namespace ≡ true =
                ground (arith, contains-append listed more namespace) in
              inr (inr (inr (more, got, Memᴰ_of_contains more namespace found)))
          | inr (e', got) ↦ absurd (ground arith)
        ]
      ]
    ]
  ]

  valid_of_allowed :
      IsAllowed → (is_valid_connection_ns client lib namespace inventory active s).0 ≡ ok true
  unfolding is_valid_connection_ns
  valid_of_allowed (inl e) = ground (arith, eq_iff namespace inventory.meta.namespace)
  valid_of_allowed (inr (inl star)) = ground (arith, contains_of_Memᴰ star)
  valid_of_allowed (inr (inr (inl here))) = ground (arith, contains_of_Memᴰ here)
  valid_of_allowed (inr (inr (inr (more, got, found)))) =
      ground (arith, contains_of_Memᴰ found, contains-append listed more namespace)

  -- A namespace is found valid exactly if it is allowed.
  pub is_valid_connection_ns_iff :
      ((is_valid_connection_ns client lib namespace inventory active s).0 ≡ ok true) ↔ IsAllowed
  is_valid_connection_ns_iff = (allowed_of_valid, valid_of_allowed)

  -- Finding that out writes nothing.
  pub is_valid_connection_ns_calls :
      (is_valid_connection_ns client lib namespace inventory active s).1.calls ≡ s.calls
  unfolding is_valid_connection_ns
  is_valid_connection_ns_calls = ground arith
