-- ===== src/Webhook/Inventory/Rds.antt =====
-- How many provider accounts for RDS a cluster can come to hold, whatever requests the API server
-- admits, one after the other. The client of the webhooks reads from a cache, which may show the
-- cluster as it was some requests before.
use dbaas_operator.Prelude.{
  ◌⊎◌, zero, suc, ℕ, ◌+◌, ◌≤◌, String, ◌≡◌, refl, sym, ap, ◌∙◌, none, some, List, [], ◌∷◌, ◌++◌,
  arith, ◌==◌, eq_iff, if◌then◌else◌, length, Bool-cases, inl, inr,
}
use dbaas_operator.Kube.Errors.{Error, ok, err}
use dbaas_operator.Api.V1beta1
use dbaas_operator.Api.V1beta1.{DbaasInventory}
use dbaas_operator.Webhook.Inventory.{WebhookClient, validate_inventory}
use dbaas_operator.Webhook.Inventory.Fields.{IsAccepted, validate_inventory_iff}

-- The inventories of a cluster whose provider has the name.
unfoldable pub inventories_of : String → List DbaasInventory → List DbaasInventory
inventories_of name [] = []
inventories_of name (i ∷ c) =
    let rest = inventories_of name c in if i.spec.provider_ref.name == name then i ∷ rest else rest

abbrev pub count_rds : List DbaasInventory → ℕ
count_rds c = length (inventories_of V1beta1.rds_registration c)

one : DbaasInventory → ℕ
one i = if i.spec.provider_ref.name == V1beta1.rds_registration then 1 else 0

count_rds-cons :
    (i : DbaasInventory) (c : List DbaasInventory) → count_rds (i ∷ c) ≡ one i + count_rds c
unfolding inventories_of one
count_rds-cons i c = ground arith

count_rds-append : (a b : List DbaasInventory) → count_rds (a ++ b) ≡ count_rds a + count_rds b
unfolding inventories_of
count_rds-append [] b = omega arith
count_rds-append (i ∷ a) b =
    omega (arith, count_rds-append a b, count_rds-cons i (a ++ b), count_rds-cons i a)

no_items : {a b : List DbaasInventory} → ok a ≡ ok b → length a ≡ length b
no_items e = ap length (cc)

not_ok : {a : List DbaasInventory} {e : Error} → err e ≡ ok a → ⊥
not_ok q = cc

-- `client v` is the client of the webhooks while its cache shows the cluster `v`: the listing of the
-- RDS accounts is an error or has those of `v`. What else the client answers is left open.
module _ (client : List DbaasInventory → WebhookClient)
    (lists : (v : List DbaasInventory)
      → ((client v).list_inventories V1beta1.rds_registration
          ≡ ok (inventories_of V1beta1.rds_registration v))
        ⊎ ((e : Error) × ((client v).list_inventories V1beta1.rds_registration ≡ err e))) where
  -- A request that is admitted while the cache shows `v`, and the cluster before and after it.
  pub data Admitted (v c d : List DbaasInventory) : Type 0 where
    created :
        (inv : DbaasInventory)
        → validate_inventory (client v) inv none ≡ none
        → d ≡ inv ∷ c
        → Admitted v c d
    updated :
        (a b : List DbaasInventory) (old inv : DbaasInventory)
        → validate_inventory (client v) inv (some old) ≡ none
        → c ≡ a ++ (old ∷ b)
        → d ≡ a ++ (inv ∷ b)
        → Admitted v c d
    deleted :
        (a b : List DbaasInventory) (old : DbaasInventory)
        → c ≡ a ++ (old ∷ b)
        → d ≡ a ++ b
        → Admitted v c d

  -- `v` is what the cluster was so many requests ago, the latest state first.
  abbrev pub WasAgo : ℕ → List DbaasInventory → List (List DbaasInventory) → Type 0
  WasAgo n v [] = ⊥
  WasAgo zero v (c ∷ history) = v ≡ c
  WasAgo (suc n) v (c ∷ history) = WasAgo n v history

  -- The states of a cluster that begins with no inventory, the latest first, where each request is
  -- admitted while the cache is at most `lag` requests behind.
  abbrev pub IsHistory : ℕ → List (List DbaasInventory) → Type 0
  IsHistory lag [] = ⊥
  IsHistory lag (c ∷ []) = c ≡ []
  IsHistory lag (d ∷ c ∷ history) =
      IsHistory lag (c ∷ history)
      × ((v : List DbaasInventory) × (n : ℕ) × (n ≤ lag)
          × WasAgo n v (c ∷ history)
          × Admitted v c d)

  -- An admitted request adds no RDS account, or adds one where the cache shows none.
  abbrev Step : List DbaasInventory → List DbaasInventory → List DbaasInventory → Type 0
  Step v c d = (count_rds d ≤ count_rds c) ⊎ ((count_rds v ≡ 0) × (count_rds d ≤ 1 + count_rds c))

  none_listed :
      (v : List DbaasInventory)
      → (client v).list_inventories V1beta1.rds_registration ≡ ok []
      → count_rds v ≡ 0
  none_listed v q = elim (lists v) [
    | inl l ↦ no_items (sym l ∙ q)
    | inr (e, l) ↦ absurd (not_ok (sym l ∙ q))
  ]

  created-Step :
      (v c : List DbaasInventory) (inv : DbaasInventory)
      → IsAccepted (client v) inv none
      → Step v c (inv ∷ c)
  unfolding one
  created-Step v c inv acc =
      elim (Bool-cases (inv.spec.provider_ref.name == V1beta1.rds_registration)) [
        | inl e ↦
            let is_rds = (eq_iff inv.spec.provider_ref.name V1beta1.rds_registration).0 e in
            inr (none_listed v (acc.only_rds refl is_rds), ground (arith, count_rds-cons inv c))
        | inr e ↦ inl (ground (arith, count_rds-cons inv c))
      ]

  replaced_le :
      (a b : List DbaasInventory) (old inv : DbaasInventory)
      → old.spec.provider_ref.name ≡ inv.spec.provider_ref.name
      → count_rds (a ++ (inv ∷ b)) ≤ count_rds (a ++ (old ∷ b))
  unfolding one
  replaced_le a b old inv same =
      let one_same : one old ≡ one inv = rw same in
      omega (
        arith,
        one_same,
        count_rds-append a (old ∷ b),
        count_rds-append a (inv ∷ b),
        count_rds-cons old b,
        count_rds-cons inv b,
      )

  Admitted-Step : (v c d : List DbaasInventory) → Admitted v c d → Step v c d
  Admitted-Step v c d (created inv h e) =
      rw e (created-Step v c inv ((validate_inventory_iff (client v) inv none).0 h))
  Admitted-Step v c d (updated a b old inv h e f) =
      let acc = (validate_inventory_iff (client v) inv (some old)).0 h in
      inl (rw (e, f) (replaced_le a b old inv (acc.provider_kept old refl)))
  Admitted-Step v c d (deleted a b old e f) = inl (
      rw (e, f)
        (omega (arith, count_rds-append a (old ∷ b), count_rds-append a b, count_rds-cons old b)))

  Step-le : (v c d : List DbaasInventory) → Step v c d → count_rds d ≤ 1 + count_rds c
  Step-le v c d (inl h) = omega arith
  Step-le v c d (inr (u, h)) = h

  -- Each request adds one RDS account at most.
  count-WasAgo :
      (lag n : ℕ) (v c : List DbaasInventory) (history : List (List DbaasInventory))
      → IsHistory lag (c ∷ history)
      → WasAgo n v (c ∷ history)
      → count_rds c ≤ count_rds v + n
  count-WasAgo lag zero v c history h w = rw w (omega arith)
  count-WasAgo lag (suc n) v c [] h w = absurd w
  count-WasAgo lag (suc n) v c (b ∷ history) (h, (u, m, le, ago, step)) w =
      let before = count-WasAgo lag n v b history h w in
      let grown = Step-le u b c (Admitted-Step u b c step) in omega (arith, before, grown)

  -- However inventories are created, updated and deleted, one request after the other, a cluster
  -- that began with none holds at most `lag + 1` provider accounts for RDS, if the cache that the
  -- webhook lists from is never more than `lag` requests behind and a listing is an error or shows
  -- the cache: at most one, if the cache is up to date at each request.
  pub count_rds-IsHistory :
      (lag : ℕ) (c : List DbaasInventory) (history : List (List DbaasInventory))
      → IsHistory lag (c ∷ history)
      → count_rds c ≤ lag + 1
  unfolding inventories_of
  count_rds-IsHistory lag c [] h = rw h (omega arith)
  count_rds-IsHistory lag d (c ∷ history) (h, (v, n, le, ago, step)) =
      elim (Admitted-Step v c d step) [
        | inl s ↦ omega (arith, s, count_rds-IsHistory lag c history h)
        | inr (none_shown, s) ↦
            omega (arith, s, none_shown, le, count-WasAgo lag n v c history h ago)
      ]
