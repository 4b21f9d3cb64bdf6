-- ===== src/Kube/Conditions.antt =====
-- metav1.Condition, and the functions of k8s.io/apimachinery/pkg/api/meta on condition lists. The
-- time of the last transition and the observed generation are never read and are left out.
use dbaas_operator.Prelude.{String, ◌≡◌, Bool, true, false, Option, none, some, List, [], ◌==◌}

pub data ConditionStatus : Type 0 where
  condition_true condition_false condition_unknown : ConditionStatus

pub record Condition : Type 0 where
  pub type : String
  pub status : ConditionStatus
  pub reason : String
  pub message : String

abbrev pub is_true : ConditionStatus → Bool
is_true condition_true = true
is_true _ = false

abbrev pub is_false : ConditionStatus → Bool
is_false condition_false = true
is_false _ = false

-- `cond != nil && cond.Status == metav1.ConditionTrue`
abbrev pub has_true : Option Condition → Bool
has_true none = false
has_true (some c) = is_true c.status

-- The functions of package `meta`.
pub record Meta : Type 0 where
  pub find_status_condition : List Condition → String → Option Condition
  pub is_status_condition_true : List Condition → String → Bool
  pub set_status_condition : List Condition → Condition → List Condition

-- Their documented behaviour: what is found has the type that was asked for, a type is found as it was last set, setting one type leaves the
-- others, and an empty list holds none.
pub record MetaLaws (m : Meta) : Type 0 where
  pub find-type :
      (cs : List Condition) (t : String) (c : Condition)
      → m.find_status_condition cs t ≡ some c
      → c.type ≡ t
  pub find-nil : (t : String) → m.find_status_condition [] t ≡ none
  pub find-set :
      (cs : List Condition) (c : Condition)
      → m.find_status_condition (m.set_status_condition cs c) c.type ≡ some c
  pub find-set_ne :
      (cs : List Condition) (c : Condition) (t : String)
      → (c.type == t) ≡ false
      → m.find_status_condition (m.set_status_condition cs c) t ≡ m.find_status_condition cs t
  pub is_true-find :
      (cs : List Condition) (t : String)
      → m.is_status_condition_true cs t ≡ has_true (m.find_status_condition cs t)
