-- ===== src/Prelude/GoMap.antt =====
-- A Go map with string keys, as the list of its entries. The position of an entry is its place in
-- the order in which `range` visits the map, which Go leaves open.
use Prim.Native.String.{String}
use mathlib.Core.Path.{◌≡◌, refl, subst}
use mathlib.Core.Logic.{inl, inr}
use mathlib.Core.Bool.{false}
use mathlib.Core.Option.{Option, none, some}
use mathlib.Core.List.{List, [], ◌∷◌}
use native.Mathlib.Omega.{arith}
use text.Mathlib.Text.{◌==◌}
use text.Mathlib.TextEquality.{eq_iff}
use dbaas_operator.Prelude.Basic.{if◌then◌else◌, Bool-cases}

abbrev pub GoMap {ℓ} : Type ℓ → Type ℓ
GoMap V = List (String × V)

module _ {ℓ} {V : Type ℓ} where
  -- `m[key] = value`
  unfoldable pub insert : String → V → GoMap V → GoMap V
  insert key value [] = (key, value) ∷ []
  insert key value (entry ∷ rest) =
      if entry.0 == key then (key, value) ∷ rest else entry ∷ insert key value rest

  -- `value, ok := m[key]`
  unfoldable pub lookup : String → GoMap V → Option V
  lookup key [] = none
  lookup key ((first, value) ∷ rest) = if first == key then some value else lookup key rest

  -- The keys of a map are distinct: `Fresh k m` says that `k` is none of them.
  abbrev pub Fresh : String → GoMap V → Type 0
  Fresh k [] = Unit
  Fresh k ((j, v) ∷ m) = ((j == k) ≡ false) × Fresh k m

  abbrev pub HasDistinctKeys : GoMap V → Type 0
  HasDistinctKeys [] = Unit
  HasDistinctKeys ((k, v) ∷ m) = Fresh k m × HasDistinctKeys m

  pub lookup-insert :
      (key other : String) (value : V) (entries : GoMap V)
      → lookup other (insert key value entries)
        ≡ (if key == other then some value else lookup other entries)
  unfolding insert lookup
  lookup-insert key other value [] = refl
  lookup-insert key other value ((first, old) ∷ rest) = ground (
    arith,
    lookup-insert key other value rest,
    eq_iff first other,
    eq_iff first key,
    eq_iff key other,
  )

  pub lookup-Fresh : (k : String) (m : GoMap V) → Fresh k m → lookup k m ≡ none
  unfolding lookup
  lookup-Fresh k [] h = refl
  lookup-Fresh k ((j, v) ∷ m) h = ground (arith, lookup-Fresh k m h.1)

  Fresh-insert :
      (k j : String) (v : V) (m : GoMap V) → (k == j) ≡ false → Fresh j m → Fresh j (insert k v m)
  unfolding insert
  Fresh-insert k j v [] h f = (h, tt)
  Fresh-insert k j v ((i, w) ∷ m) h (f, fs) = ground (arith, Fresh-insert k j v m h fs)

  pub insert-HasDistinctKeys :
      (k : String) (v : V) (m : GoMap V) → HasDistinctKeys m → HasDistinctKeys (insert k v m)
  unfolding insert
  insert-HasDistinctKeys k v [] h = (tt, tt)
  insert-HasDistinctKeys k v ((i, w) ∷ m) (f, h) = elim (Bool-cases (i == k)) [
    | inl e ↦ rw e (subst (λ j. Fresh j m) ((eq_iff i k).0 e) f, h)
    | inr e ↦ rw e (
      Fresh-insert k i v m (ground (arith, eq_iff i k, eq_iff k i)) f,
      insert-HasDistinctKeys k v m h,
    )
  ]

  -- What holds of every value of a map holds of the one that is found.
  abbrev pub AllValues : (V → Type 0) → GoMap V → Type 0
  AllValues P [] = Unit
  AllValues P ((k, v) ∷ m) = P v × AllValues P m

  pub lookup-AllValues :
      (P : V → Type 0) (k : String) (m : GoMap V) (v : V)
      → AllValues P m
      → lookup k m ≡ some v
      → P v
  unfolding lookup
  lookup-AllValues P k [] v h e = cc
  lookup-AllValues P k ((j, w) ∷ m) v (h, hs) e = elim (Bool-cases (j == k)) [
    | inl same ↦ subst P (ground arith) h
    | inr other ↦ lookup-AllValues P k m v hs (rw other at e)
  ]

-- `m[k]` of a map to strings: the zero value where the key is missing.
unfoldable pub index : String → GoMap String → String
index k m = elim (lookup k m) [ none ↦ "" | some v ↦ v ]
