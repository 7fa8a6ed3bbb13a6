-- ===== src/Client/Thread.antt =====
-- client/src/client.rs: what the client does once it is started. `start_advance_thread` spawns a loop
-- that advances the node and sleeps, and `shutdown` may be called at any time. Each holds the lock
-- of the node while it runs, so that a run is a sequence of steps; the queries change nothing. The
-- WebAssembly build has a timer in place of the loop; a run may have the steps of both.
pub mod Sound
pub mod Started
use forcerelay_verifier.Prelude.{ℕ, ◌≡◌, Bool, true, false, Outcome, ok, err, panic, is_ok}
use forcerelay_verifier.Consensus.Primitives.{Primitives}
use forcerelay_verifier.Consensus.Sync.{Clock}
use forcerelay_verifier.Execution.Primitives as ExecutionPrimitives
use forcerelay_verifier.Client.Errors.{NodeError, NodeResult}
use forcerelay_verifier.Client.Node.{Node}
use forcerelay_verifier.Client.Node.Updates.{Servers, advance}
use forcerelay_verifier.Client.Node.Queries.{duration_until_next_update}
use forcerelay_verifier.Client.Start.{Database, Client, shutdown}

-- whether the loop goes on: an error of `advance` is logged, a panic ends the thread, and
-- with it the program where panics abort
abbrev pub survives : Outcome NodeError (Unit {0}) → NodeResult ℕ → Bool
survives panic next_update = false
survives (ok _) next_update = is_ok next_update
survives (err e) next_update = is_ok next_update

-- a client, and whether its thread runs
pub record Running (database : Database) : Type 0 where
  pub client : Client database
  pub alive : Bool

module _ ⦃lib : Primitives⦄ where
  -- one round of the loop; `now` and `now'` are the readings for the time of the next update
  unfoldable pub advance_round : Servers → Clock → ℕ → ℕ → Node → Bool × Node
  unfolding advance duration_until_next_update
  advance_round servers clock now now' node =
      let (res, next) = advance servers clock node in
      (survives res (duration_until_next_update next now now'), next)

  -- one call of the WebAssembly build's timer, which drops an error
  unfoldable pub tick : Servers → Clock → Node → Node
  unfolding advance
  tick servers clock node = (advance servers clock node).1

  module _ {database : Database} where
    abbrev pub after_round : Bool × Node → Client database → Running database
    after_round (alive, node) client = record {
      client = record client { node = node };
      alive = alive;
    }

    pub data Step : Running database → Running database → Type 0 where
      round :
          (servers : Servers) (clock : Clock) (now now' : ℕ) (p : Running database)
          → p.alive ≡ true
          → Step p (after_round (advance_round servers clock now now' p.client.node) p.client)
      interval :
          (servers : Servers) (clock : Clock) (p : Running database)
          → Step p
              (record p { client = record p.client { node = tick servers clock p.client.node } })
      stop : (p : Running database) → Step p (record p { client = shutdown p.client })

    pub data Reach (p : Running database) : Running database → Type 0 where
      here : Reach p p
      next : {q r : Running database} → Reach p q → Step q r → Reach p r
