-- ===== src/Consensus/Sync/Slots.antt =====
-- The slots of the two headers of the store over a whole `advance`.
use forcerelay_verifier.Prelude.{◌≤◌, arith}
use forcerelay_verifier.Consensus.Primitives.{Primitives}
use forcerelay_verifier.Consensus.State.{ConsensusClient}
use forcerelay_verifier.Consensus.Apply.Slots.{IsOrdered, apply_generic_update-headers}
use forcerelay_verifier.Consensus.Rpc.{ConsensusRpc}
use forcerelay_verifier.Consensus.Sync.{Clock, advance}
use forcerelay_verifier.Consensus.Sync.Keeps.{advance-Keeps}

-- `c` is ordered and has gone back behind neither header of `client`.
abbrev pub IsAhead : ConsensusClient → ConsensusClient → Type 0
IsAhead client c =
    IsOrdered c
    × (client.store.finalized_header.slot ≤ c.store.finalized_header.slot)
    × (client.store.optimistic_header.slot ≤ c.store.optimistic_header.slot)

-- From a store whose finalized header is not ahead of the optimistic one, `advance` moves neither
-- header back, and leaves the finalized one not ahead, whatever the server answers and also where
-- `advance` returns an error half way.
pub advance-IsAhead :
    ⦃lib : Primitives⦄ (rpc : ConsensusRpc) (clock : Clock) (client : ConsensusClient)
    → IsOrdered client
    → IsAhead client (advance rpc clock client).1
advance-IsAhead rpc clock client h =
    (advance-Keeps (IsAhead client)
        (λ c now now₁ now₂ u d a b v e.
          let h = apply_generic_update-headers u now₁ now₂ c e in
          omega (arith, a, h.0, h.1, h.2 a.0))
        rpc clock).at
      client (omega arith)
