-- ===== src/Kube.antt =====
-- What the operator takes from the Kubernetes libraries, which are not part of the repository: the
-- fields of the API objects that its code reads or writes, the errors that a client call returns,
-- and the functions of those libraries as parameters with their documented behaviour.
pub mod Conditions
pub mod Errors
use dbaas_operator.Prelude.{ℕ, String, Option, List}

-- metav1.OwnerReference
pub record OwnerReference : Type 0 where
  pub api_version : String
  pub kind : String
  pub name : String
  pub uid : String

-- metav1.ObjectMeta; `deletion_timestamp` is nil until the object is being deleted.
pub record ObjectMeta : Type 0 where
  pub name : String
  pub namespace : String
  pub labels : List (String × String)
  pub deletion_timestamp : Option ℕ
  pub owner_references : List OwnerReference

-- metav1.LabelSelectorRequirement
pub record LabelSelectorRequirement : Type 0 where
  pub key : String
  pub operator : String
  pub values : List String

-- metav1.LabelSelector
pub record LabelSelector : Type 0 where
  pub match_labels : List (String × String)
  pub match_expressions : List LabelSelectorRequirement

-- schema.GroupVersion
pub record GroupVersion : Type 0 where
  pub group : String
  pub version : String

-- types.NamespacedName, the key of an object
pub record ObjectKey : Type 0 where
  pub namespace : String
  pub name : String
