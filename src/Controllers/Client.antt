-- ===== src/Controllers/Client.antt =====
-- The client of the API server, as the reconcilers call it, and the state that a reconciliation
-- runs in: the world, of which only the calls tell anything, and the log of the calls that write,
-- the latest first.
use dbaas_operator.Prelude.{ℕ, String, Bool, true, false, Option, List, ◌∷◌}
use dbaas_operator.Prelude.GoMap.{GoMap}
use dbaas_operator.Kube.{OwnerReference, LabelSelector, ObjectKey, GroupVersion}
use dbaas_operator.Kube.Conditions.{Meta}
use dbaas_operator.Kube.Errors.{Error, Result}
use dbaas_operator.Api.V1alpha1
use dbaas_operator.Api.V1beta1
use dbaas_operator.Controllers.Objects.{Change}

-- ctrl.Result; `requeue_after` in seconds
pub record CtrlResult : Type 0 where
  pub requeue : Bool
  pub requeue_after : ℕ

-- `ctrl.Result{}` and `ctrl.Result{Requeue: true}`
abbrev pub done : CtrlResult
done = record { requeue = false; requeue_after = 0 }

abbrev pub requeued : CtrlResult
requeued = record { requeue = true; requeue_after = 0 }

-- What `Reconcile` returns.
abbrev pub Outcome : Type 0
Outcome = CtrlResult × Option Error

-- The objects whose status is written.
pub data Object : Type 0 where
  connection : V1beta1.DbaasConnection → Object
  inventory : V1beta1.DbaasInventory → Object
  instance_object : V1beta1.DbaasInstance → Object
  policy : V1beta1.DbaasPolicy → Object
  platform : V1beta1.DbaasPlatform → Object

-- What `DBaaSObjectSpecFn` returns, an `interface{}` in the source.
pub data ProviderSpec : Type 0 where
  inventory_alpha : V1alpha1.DbaasOperatorInventorySpec → ProviderSpec
  inventory_beta : V1beta1.DbaasOperatorInventorySpec → ProviderSpec
  connection_alpha : V1alpha1.DbaasConnectionSpec → ProviderSpec
  connection_beta : V1beta1.DbaasConnectionSpec → ProviderSpec
  instance_alpha : V1alpha1.DbaasInstanceSpec → ProviderSpec
  instance_beta : V1beta1.DbaasInstanceSpec → ProviderSpec

-- The group, version, kind and name of a provider's object.
pub record ProviderKey : Type 0 where
  pub group_version : GroupVersion
  pub kind : String
  pub namespace : String
  pub name : String

-- unstructured.Unstructured: what the operator sets, and the rest of the content.
pub record Unstructured : Type 0 where
  pub key : ProviderKey
  pub spec : Option ProviderSpec
  pub owner_references : List OwnerReference
  pub content : String

-- controllerutil.MutateFn: from the object as it is to the object as it shall be.
abbrev pub MutateFn : Type 0
MutateFn = Unstructured → Result Unstructured

-- The controllers that a provider's objects are watched by, with the type of the owner.
pub data Watcher : Type 0 where
  inventory_ctrl connection_ctrl instance_ctrl : Watcher

-- The calls that write, and the watches that are begun.
pub data Call : Type 0 where
  update_status : Object → Call
  create_or_update : ProviderKey → MutateFn → Call
  create_or_update_deployment : V1beta1.DbaasConnection → Call
  create_or_update_quota : V1beta1.DbaasPolicy → Call
  create_policy : V1beta1.DbaasPolicy → Call
  patch_labels : ObjectKey → GoMap String → Call
  change : Change → Call
  watch : Watcher → GroupVersion → String → Call

pub record Client (World : Type 0) : Type 0 where
  pub get_provider : String → World → Result V1beta1.DbaasProvider × World
  pub get_inventory : ObjectKey → World → Result V1beta1.DbaasInventory × World
  pub get_connection : ObjectKey → World → Result V1beta1.DbaasConnection × World
  pub get_instance : ObjectKey → World → Result V1beta1.DbaasInstance × World
  pub get_policy : ObjectKey → World → Result V1beta1.DbaasPolicy × World
  pub get_platform : ObjectKey → World → Result V1beta1.DbaasPlatform × World
  -- the labels of a secret
  pub get_secret : ObjectKey → World → Result (GoMap String) × World
  pub list_policies : String → World → Result (List V1beta1.DbaasPolicy) × World
  pub list_namespaces : LabelSelector → World → Result (List String) × World
  pub provider_object : ProviderKey → MutateFn → World → Result Unstructured × World
  -- the other calls that write return an error or nil
  pub write : Call → World → Option Error × World

-- The library functions that the reconcilers call, which do not touch the cluster.
pub record Library : Type 0 where
  pub meta : Meta
  pub selector_error : LabelSelector → Option Error
  pub parse_group_version : String → Option GroupVersion
  pub group_version_string : GroupVersion → String
  -- ctrl.SetControllerReference, on the owner references of the object that is owned
  pub set_controller_reference : Object → List OwnerReference → Result (List OwnerReference)
  -- the text that `%v` gives for a pointer to a string, an address
  pub show_pointer : String → String
  -- reflect.DeepEqual
  pub deep_equal : V1beta1.DbaasPlatformStatus → V1beta1.DbaasPlatformStatus → Bool
  -- strings.Contains
  pub string_contains : String → String → Bool
  -- unstructured.MarshalJSON and json.Unmarshal
  pub parse_inventory_alpha : Unstructured → Result V1alpha1.DbaasProviderInventory
  pub parse_inventory_beta : Unstructured → Result V1beta1.DbaasProviderInventory
  pub parse_connection_alpha : Unstructured → Result V1alpha1.DbaasProviderConnection
  pub parse_connection_beta : Unstructured → Result V1beta1.DbaasProviderConnection
  pub parse_instance_alpha : Unstructured → Result V1alpha1.DbaasProviderInstance
  pub parse_instance_beta : Unstructured → Result V1beta1.DbaasProviderInstance

pub record Run (World : Type 0) : Type 0 where
  pub world : World
  pub calls : List Call

-- An action of a reconciliation.
abbrev pub Action : Type 0 → Type 0 → Type 0
Action World A = Run World → A × Run World

module _ {World : Type 0} where
  abbrev pub pure : {A : Type 0} → A → Action World A
  pure a s = (a, s)

  infixl 5 ◌>>=◌
  abbrev pub ◌>>=◌ : {A B : Type 0} → Action World A → (A → Action World B) → Action World B
  ◌>>=◌ m f s = let (a, s') = m s in f a s'

  -- A call that reads.
  abbrev pub read : {A : Type 0} → (World → A × World) → Action World A
  read get s = let (a, w) = get s.world in (a, record { world = w; calls = s.calls })

  -- A call that writes.
  abbrev pub write : {A : Type 0} → Call → (World → A × World) → Action World A
  write call act s = let (a, w) = act s.world in (a, record { world = w; calls = call ∷ s.calls })

  -- A call that writes and answers with an error or nil.
  abbrev pub submit : Client World → Call → Action World (Option Error)
  submit client call = write call (client.write call)
