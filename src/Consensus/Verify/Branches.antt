-- ===== src/Consensus/Verify/Branches.antt =====
-- The Merkle branches of the updates that `GenericUpdate::from` makes.
use forcerelay_verifier.Prelude.{◌≡◌, refl, some, List}
use forcerelay_verifier.Common.{Bytes32}
use forcerelay_verifier.Consensus.Types.{
  Header, SyncCommittee, GenericUpdate, Update, FinalityUpdate, OptimisticUpdate, from_update,
  from_finality_update, from_optimistic_update,
}

-- Each part of the update comes with its proof, as in every update that `GenericUpdate::from` makes.
pub record HasBranches (u : GenericUpdate) : Type 0 where
  pub committee_branch :
      (next : SyncCommittee)
      → u.next_sync_committee ≡ some next
      → (branch : List Bytes32) × (u.next_sync_committee_branch ≡ some branch)
  pub finality_branch :
      (header : Header)
      → u.finalized_header ≡ some header
      → (branch : List Bytes32) × (u.finality_branch ≡ some branch)

pub from_update-HasBranches : (u : Update) → HasBranches (from_update u)
unfolding from_update
from_update-HasBranches u = record {
  committee_branch = λ next e. (u.next_sync_committee_branch, refl);
  finality_branch = λ header e. (u.finality_branch, refl);
}

pub from_finality_update-HasBranches : (u : FinalityUpdate) → HasBranches (from_finality_update u)
unfolding from_finality_update
from_finality_update-HasBranches u = record {
  committee_branch = λ next e. cc;
  finality_branch = λ header e. (u.finality_branch, refl);
}

pub from_optimistic_update-HasBranches :
    (u : OptimisticUpdate) → HasBranches (from_optimistic_update u)
unfolding from_optimistic_update
from_optimistic_update-HasBranches u = record {
  committee_branch = λ next e. cc;
  finality_branch = λ header e. cc;
}
