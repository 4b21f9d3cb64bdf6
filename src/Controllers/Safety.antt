-- ===== src/Controllers/Safety.antt =====
-- What has been established when a reconciler writes an object of a provider: the runs of
-- controllers/dbaasconnection_controller.go and controllers/dbaasinstance_controller.go as a whole.
pub mod Connections
pub mod Instances
use mathlib.Core.Path.{subst}
use dbaas_operator.Prelude.{
  ◌≡◌, refl, inl, inr, Bool, true, false, none, some, List, [], ◌∷◌, arith, Option, Option-cases,
}
use dbaas_operator.Kube.{ObjectKey}
use dbaas_operator.Kube.Errors.{Result, Result-cases, ok}
use dbaas_operator.Api.V1beta1.{
  NamespacedName, DbaasConnection, DbaasConnectionSpec, DbaasInstance, DbaasInventory,
  DbaasProvider,
}
use dbaas_operator.Controllers.Client.{
  Call, create_or_update, create_or_update_deployment, Client, Library, Run,
}
use dbaas_operator.Controllers.Common.Access.{get_active_policy, can_provision}
use dbaas_operator.Controllers.Common.Check.{Subject, Checked, check_inventory}
use dbaas_operator.Controllers.Common.Check.Laws.{
  LetThrough, check_inventory_iff, check_inventory_passes, check_inventory_calls,
}
use dbaas_operator.Controllers.Connection
use dbaas_operator.Controllers.Connection.{get_connection_spec}
use dbaas_operator.Controllers.Instance

-- Among the calls there is one that creates or updates an object of a provider.
unfoldable pub writes_provider : List Call → Bool
writes_provider [] = false
writes_provider (create_or_update key mutate ∷ calls) = true
writes_provider (_ ∷ calls) = writes_provider calls

abbrev pub start : {World : Type 0} → World → Run World
start w = record { world = w; calls = [] }

pub check_writes_no_provider :
    {World Obj : Type 0} (client : Client World) (lib : Library) (subject : Subject Obj)
    (ref : NamespacedName) (obj : Obj) (s : Run World)
    → writes_provider (check_inventory client lib subject ref obj s).1.calls
      ≡ writes_provider s.calls
unfolding writes_provider
check_writes_no_provider client lib subject ref obj s =
    ground (arith, check_inventory_calls client lib subject ref obj s)
