-- ===== src/Client/Start/Fresh.antt =====
-- client/src/client.rs: the state that a client is created in.
use forcerelay_verifier.Prelude.{
  ◌≡◌, refl, subst, [], some, Outcome, ok, ok_or, map_err, map_err-eq-ok, >>=-eq-ok, ok-injective,
  unwrap,
}
use forcerelay_verifier.Config.Types.{Config}
use forcerelay_verifier.Consensus.State.{new_client}
use forcerelay_verifier.Execution.Errors.{ExecutionError}
use forcerelay_verifier.Client.Errors.{execution_client_creation_error}
use forcerelay_verifier.Client.Node.{Node, new_node}
use forcerelay_verifier.Client.Start.{Database, Client, node_failed, database_failed}
use forcerelay_verifier.Client.Start.Create.{start_checkpoint, create_client}

-- The node holds no finalized payload, and its consensus client has its configuration.
pub record IsFreshNode (node : Node) : Type 0 where
  pub empty : node.finalized_payloads ≡ []
  pub configured : node.consensus.config ≡ node.config

new_node-IsFreshNode :
    (config : Config) (created : Outcome ExecutionError (Unit {0})) {node : Node}
    → new_node config created ≡ ok node
    → IsFreshNode node
unfolding new_node new_client
new_node-IsFreshNode config created e =
    let (checkpoint, _, e1) = >>=-eq-ok (unwrap config.checkpoint) _ e in
    let (_, _, e2) = >>=-eq-ok (map_err created execution_client_creation_error) _ e1 in
    subst IsFreshNode (ok-injective e2) (record { empty = refl; configured = refl })

module _ {database : Database} where
  -- A fresh node, and the fallbacks of the configuration.
  pub record IsFresh (config : Config) (client : Client database) : Type 0 where
    pub node : IsFreshNode client.node
    pub same_fallback : client.fallback ≡ config.fallback
    pub same_external : client.load_external_fallback ≡ config.load_external_fallback

  pub create_client-IsFresh :
      (config : Config) (created : Outcome ExecutionError (Unit {0})) (disk : database.Disk)
      {client : Client database}
      → create_client database config created disk ≡ ok client
      → IsFresh config client
  unfolding create_client
  create_client-IsFresh config created disk e =
      let (db, _, e1) = >>=-eq-ok (ok_or (database.create config) database_failed) _ e in
      let (checkpoint, _, e2) = >>=-eq-ok (start_checkpoint database config db disk) _ e1 in
      let (node, p, e3) =
        >>=-eq-ok
          (map_err (new_node (record config { checkpoint = some checkpoint }) created) node_failed)
          _ e2 in
      subst (IsFresh config) (ok-injective e3) (record {
        node =
            new_node-IsFreshNode (record config { checkpoint = some checkpoint }) created
              (map_err-eq-ok _ _ p);
        same_fallback = refl;
        same_external = refl;
      })
