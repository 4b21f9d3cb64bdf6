-- ===== src/Controllers/Safety/Connections.antt =====
-- The runs of controllers/dbaasconnection_controller.go that write a provider's object.
use mathlib.Core.Path.{subst}
use dbaas_operator.Prelude.{◌≡◌, inl, inr, true, false, none, [], ◌∷◌, arith, Option-cases}
use dbaas_operator.Kube.{ObjectKey}
use dbaas_operator.Kube.Errors.{Result-cases, ok}
use dbaas_operator.Api.V1beta1.{DbaasConnection, DbaasConnectionSpec}
use dbaas_operator.Controllers.Client.{create_or_update_deployment, Client, Library, Run}
use dbaas_operator.Controllers.Common.Check.{Checked, check_inventory}
use dbaas_operator.Controllers.Common.Check.Laws.{
  LetThrough, check_inventory_iff, check_inventory_passes,
}
use dbaas_operator.Controllers.Connection
use dbaas_operator.Controllers.Connection.{get_connection_spec}
use dbaas_operator.Controllers.Safety.{writes_provider, start, check_writes_no_provider}

module _ {World : Type 0} (client : Client World) (lib : Library) where
  connection_checked :
      (c : Checked DbaasConnection) (s : Run World)
      → writes_provider s.calls ≡ false
      → writes_provider (Connection.checked client lib c s).1.calls ≡ true
      → (c.error ≡ none)
        × (c.valid_ns ≡ true)
        × ((spec : DbaasConnectionSpec) × ((get_connection_spec client lib c.object.spec s).0
              ≡ ok spec))
  unfolding writes_provider Connection.checked get_connection_spec
  connection_checked c s quiet h =
      elim (Result-cases (get_connection_spec client lib c.object.spec s).0) [
        | inl (spec, q) ↦ (ground arith, ground arith, (spec, q))
        | inr (e, q) ↦ absurd (ground arith)
      ]

  -- The state in which a connection's inventory is checked: its deployment has been written.
  abbrev pub deployed_run : DbaasConnection → World → Run World
  deployed_run conn w = record {
    world = (client.write (create_or_update_deployment conn) w).1;
    calls = create_or_update_deployment conn ∷ [];
  }

  connection_run :
      (req : ObjectKey) (w : World) (conn : DbaasConnection)
      → (client.get_connection req w).0 ≡ ok conn
      → (client.write (create_or_update_deployment conn) (client.get_connection req w).1).0 ≡ none
      → Connection.reconcile client lib req (start w) ≡ (
          let (c, s) =
            check_inventory client lib
              (Connection.subject client lib)
              conn.spec.inventory_ref
              conn
              (deployed_run conn (client.get_connection req w).1) in
          Connection.checked client lib c s)
  unfolding Connection.reconcile
  connection_run req w conn found deployed =
      rw (found, deployed, Connection.with_connection, Connection.deployed)

  -- The connection was read, its deployment was written, the check of its inventory let it through,
  -- and its database service is known.
  pub record ConnectionJustified (req : ObjectKey) (w : World) : Type 0 where
    pub conn : DbaasConnection
    pub found : (client.get_connection req w).0 ≡ ok conn
    pub deployed :
        (client.write (create_or_update_deployment conn) (client.get_connection req w).1).0 ≡ none
    pub let_through :
        LetThrough client lib
          (Connection.subject client lib)
          conn.spec.inventory_ref
          conn
          (deployed_run conn (client.get_connection req w).1)
    pub spec : DbaasConnectionSpec
    pub resolved :
        (get_connection_spec client lib conn.spec
          (check_inventory client lib
            (Connection.subject client lib)
            conn.spec.inventory_ref
            conn
            (deployed_run conn (client.get_connection req w).1)).1).0
        ≡ ok spec

  -- The reconciliation of a connection writes the provider's object only if the connection was
  -- read, its deployment was written, the check of its inventory let it through and its database
  -- service is known.
  pub connection_justified :
      (req : ObjectKey) (w : World)
      → writes_provider (Connection.reconcile client lib req (start w)).1.calls ≡ true
      → ConnectionJustified req w
  unfolding writes_provider Connection.reconcile
  connection_justified req w h = elim (Result-cases (client.get_connection req w).0) [
    | inr (e, q) ↦ absurd (ground arith)
    | inl (conn, found) ↦
        elim (Option-cases
          (client.write (create_or_update_deployment conn) (client.get_connection req w).1).0) [
            | inr (e, q) ↦ absurd (ground arith)
            | inl deployed ↦
                let st = deployed_run conn (client.get_connection req w).1 in
                let subject = Connection.subject client lib in
                let run = check_inventory client lib subject conn.spec.inventory_ref conn st in
                let quiet : writes_provider run.1.calls ≡ false =
                  check_writes_no_provider client lib subject conn.spec.inventory_ref conn st in
                let (no_error, valid, (spec, resolved)) =
                  connection_checked run.0 run.1 quiet
                    (rw (connection_run req w conn found deployed) at h) in
                let let_through =
                  (check_inventory_iff client lib subject conn.spec.inventory_ref conn st).0
                    (no_error, valid) in
                record {
                  conn = conn;
                  found = found;
                  deployed = deployed;
                  let_through = let_through;
                  spec = spec;
                  resolved =
                      subst
                        (λ (c : Checked DbaasConnection).
                          (get_connection_spec client lib c.object.spec run.1).0 ≡ ok spec)
                        (check_inventory_passes client lib subject conn.spec.inventory_ref conn st
                          let_through).0
                        resolved;
                }
          ]
  ]
