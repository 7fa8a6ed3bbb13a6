-- ===== src/Execution/Evm/Chunks.antt =====
-- The accounts of a call are fetched in chunks, which changes nothing of what is fetched.
use forcerelay_verifier.Prelude.{
  ℕ, zero, suc, ◌-◌, ◌≡◌, refl, List, [], ◌∷◌, HashMap, ◌>>=◌, some, >>=-assoc, ap, ◌∙◌,
}
use forcerelay_verifier.Consensus.Blocks.{ExecutionPayload}
use forcerelay_verifier.Execution.Primitives.{Primitives, AccessListItem}
use forcerelay_verifier.Execution.Types.{Account}
use forcerelay_verifier.Execution.Rpc.{ExecutionRpc}
use forcerelay_verifier.Execution.Client.{get_account}
use forcerelay_verifier.Execution.Evm.{add_fetched, fetch_chunk, fetch_chunks, fill_chunks, chunks}

module _ ⦃lib : Primitives⦄ (rpc : ExecutionRpc) (payload : ExecutionPayload) (size : ℕ) where
  fetch_filled :
      (room : ℕ) (list : List AccessListItem) (accounts : HashMap Account)
      → (fetch_chunk rpc payload (fill_chunks size room list).0 accounts >>= λ fetched.
          fetch_chunks rpc payload (fill_chunks size room list).1 fetched)
        ≡ fetch_chunk rpc payload list accounts
  unfolding fetch_chunk fetch_chunks fill_chunks
  fetch_filled room [] accounts = refl
  fetch_filled zero (x ∷ list) accounts =
      >>=-assoc
        (add_fetched x.address (get_account rpc x.address (some x.storage_keys) payload) accounts) _
        _
      ∙ ap
          (λ rest.
            add_fetched x.address (get_account rpc x.address (some x.storage_keys) payload) accounts
            >>= rest)
          (λ i fetched. fetch_filled (size - 1) list fetched i)
  fetch_filled (suc room) (x ∷ list) accounts =
      >>=-assoc
        (add_fetched x.address (get_account rpc x.address (some x.storage_keys) payload) accounts) _
        _
      ∙ ap
          (λ rest.
            add_fetched x.address (get_account rpc x.address (some x.storage_keys) payload) accounts
            >>= rest)
          (λ i fetched. fetch_filled room list fetched i)

  -- For every size of a chunk, and list of accounts, fetching the chunks one after the other gives
  -- what fetching the whole list at once does, a panic included.
  pub fetch_chunks-chunks :
      (list : List AccessListItem) (accounts : HashMap Account)
      → fetch_chunks rpc payload (chunks size list) accounts ≡ fetch_chunk rpc payload list accounts
  unfolding fetch_chunk fetch_chunks fill_chunks
  fetch_chunks-chunks [] accounts = refl
  fetch_chunks-chunks (x ∷ list) accounts = fetch_filled zero (x ∷ list) accounts
