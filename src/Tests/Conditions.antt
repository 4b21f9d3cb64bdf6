-- ===== src/Tests/Conditions.antt =====
-- A package `meta` that has the behaviour that the theorems rely on.
use dbaas_operator.Prelude.{
  String, ◌≡◌, refl, false, none, some, List, [], ◌∷◌, arith, Option, ◌==◌, eq_iff, eq_refl,
  if◌then◌else◌,
}
use dbaas_operator.Kube.Conditions.{Condition, Meta, MetaLaws, has_true}

abbrev pub find : List Condition → String → Option Condition
find [] t = none
find (c ∷ cs) t = if c.type == t then some c else find cs t

abbrev pub set : List Condition → Condition → List Condition
set [] c = c ∷ []
set (d ∷ cs) c = if d.type == c.type then c ∷ cs else d ∷ set cs c

abbrev pub meta : Meta
meta = record {
  find_status_condition = find;
  is_status_condition_true = λ cs t. has_true (find cs t);
  set_status_condition = set;
}

found-type : (cs : List Condition) (t : String) (c : Condition) → find cs t ≡ some c → c.type ≡ t
found-type [] t c h = absurd (ground arith)
found-type (d ∷ cs) t c h = ground (arith, eq_iff d.type t, found-type cs t c)

found-set : (cs : List Condition) (c : Condition) → find (set cs c) c.type ≡ some c
found-set [] c = rw (eq_refl c.type)
found-set (d ∷ cs) c = ground (arith, eq_iff d.type c.type, eq_iff c.type c.type, found-set cs c)

found-set_ne :
    (cs : List Condition) (c : Condition) (t : String)
    → (c.type == t) ≡ false
    → find (set cs c) t ≡ find cs t
found-set_ne [] c t h = rw h
found-set_ne (d ∷ cs) c t h =
    ground (arith, eq_iff d.type c.type, eq_iff c.type t, eq_iff d.type t, found-set_ne cs c t h)

pub meta_laws : MetaLaws meta
meta_laws = record {
  find-type = found-type;
  find-nil = λ t. refl;
  find-set = found-set;
  find-set_ne = found-set_ne;
  is_true-find = λ cs t. refl;
}
