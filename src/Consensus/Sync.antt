-- ===== src/Consensus/Sync.antt =====
-- consensus/src/consensus.rs: `bootstrap`, `sync` and `advance`. `clock i` is the reading of the
-- clock that the call makes at its i-th place for one: a check at one place, and the log lines of
-- the update that it lets through at the next two. A place that is not reached is not read.
pub mod Keeps
pub mod Slots
pub mod Origin
pub mod Progress
use forcerelay_verifier.Prelude.{
  ℕ, ◌+◌, ◌*◌, List, [], ◌∷◌, length, is_none, if◌then◌else◌, ok, map_err,
}
use forcerelay_verifier.Consensus.Types.{Update, FinalityUpdate, OptimisticUpdate}
use forcerelay_verifier.Consensus.Errors.{other}
use forcerelay_verifier.Consensus.Primitives.{Primitives}
use forcerelay_verifier.Consensus.Utils.{calc_sync_period}
use forcerelay_verifier.Consensus.State.{ConsensusClient, ClientMethod}
use forcerelay_verifier.Consensus.Verify.{
  verify_update, verify_finality_update, verify_optimistic_update,
}
use forcerelay_verifier.Consensus.Apply.{
  apply_update, apply_finality_update, apply_optimistic_update,
}
use forcerelay_verifier.Consensus.Bootstrap.{initial_store, check_bootstrap}
use forcerelay_verifier.Consensus.Rpc.{ConsensusRpc, max_request_light_client_updates}
use forcerelay_verifier.Common.Method.{◌>>=◌, ◌>>◌, lift, reads, writes, attempt}

abbrev pub Clock : Type 0
Clock = ℕ → ℕ

abbrev pub finalized_period : ConsensusClient → ℕ
finalized_period client = calc_sync_period client.store.finalized_header.slot

module _ ⦃lib : Primitives⦄ where
  -- `ConsensusClient::bootstrap`
  unfoldable pub boot : ConsensusRpc → ℕ → ClientMethod (Unit {0})
  boot rpc now = do
    bootstrap ← reads (λ client. map_err (rpc.get_bootstrap client.initial_checkpoint) (λ _. other))
    reads (check_bootstrap now bootstrap)
    writes (λ client. ok (record client { store = initial_store bootstrap }))

  -- `verify_update(&update)?; apply_update(&update)`, and the same of the two other messages
  unfoldable pub accept_update : Clock → ℕ → Update → ClientMethod (Unit {0})
  accept_update clock i update = do
    reads (λ client. verify_update client (clock i) update)
    writes (apply_update (clock (i + 1)) (clock (i + 2)) update)

  unfoldable pub accept_finality_update : Clock → ℕ → FinalityUpdate → ClientMethod (Unit {0})
  accept_finality_update clock i update = do
    reads (λ client. verify_finality_update client (clock i) update)
    writes (apply_finality_update (clock (i + 1)) (clock (i + 2)) update)

  unfoldable pub accept_optimistic_update : Clock → ℕ → OptimisticUpdate → ClientMethod (Unit {0})
  accept_optimistic_update clock i update = do
    reads (λ client. verify_optimistic_update client (clock i) update)
    writes (apply_optimistic_update (clock (i + 1)) (clock (i + 2)) update)

  unfoldable pub accept_updates : Clock → ℕ → List Update → ClientMethod (Unit {0})
  accept_updates clock i [] = lift (ok tt)
  accept_updates clock i (update ∷ updates) =
      accept_update clock i update >> accept_updates clock (i + 3) updates

  -- the finality and the optimistic update, which `sync` and `advance` both ask for
  unfoldable pub accept_latest : ConsensusRpc → Clock → ℕ → ClientMethod (Unit {0})
  accept_latest rpc clock i = do
    finality_update ← lift rpc.get_finality_update
    accept_finality_update clock i finality_update
    optimistic_update ← lift rpc.get_optimistic_update
    accept_optimistic_update clock (i + 3) optimistic_update

  unfoldable pub sync : ConsensusRpc → Clock → ClientMethod (Unit {0})
  sync rpc clock = do
    boot rpc (clock 0)
    current_period ← reads (λ client. ok (finalized_period client))
    updates ← lift (rpc.get_updates current_period max_request_light_client_updates)
    accept_updates clock 1 updates
    accept_latest rpc clock (1 + 3 * length updates)

  -- An update that does not verify is dropped, and so is an answer of any other length than one.
  unfoldable pub try_committee_update : Clock → ℕ → List Update → ClientMethod (Unit {0})
  try_committee_update clock i (update ∷ []) =
      attempt (λ client. verify_update client (clock i) update)
        (writes (apply_update (clock (i + 1)) (clock (i + 2)) update))
  try_committee_update clock i _ = lift (ok tt)

  unfoldable pub find_next_committee : ConsensusRpc → Clock → ℕ → ClientMethod (Unit {0})
  find_next_committee rpc clock i = do
    current_period ← reads (λ client. ok (finalized_period client))
    updates ← lift (rpc.get_updates current_period 1)
    try_committee_update clock i updates

  unfoldable pub advance : ConsensusRpc → Clock → ClientMethod (Unit {0})
  advance rpc clock = do
    accept_latest rpc clock 0
    missing ← reads (λ client. ok (is_none client.store.next_sync_committee))
    if missing then find_next_committee rpc clock 6 else lift (ok tt)
