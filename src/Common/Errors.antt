-- ===== src/Common/Errors.antt =====
-- common/src/errors.rs: the errors that the crates share, and their `Display`.
use forcerelay_verifier.Prelude.{◌++◌}
use forcerelay_verifier.Common.{Bytes, Text, BlockTag}
use forcerelay_verifier.Common.Numbers.{codes}
use forcerelay_verifier.Common.Tags.{display}

pub record BlockNotFoundError : Type 0 where
  pub block : BlockTag

pub record SlotNotFoundError : Type 0 where
  pub slot : Bytes

pub record RpcError (E : Type 0) : Type 0 where
  pub method : Text
  pub error : E

unfoldable pub block_not_found_text : BlockNotFoundError → Text
unfolding display
block_not_found_text e = codes "block not available: " ++ display e.block

-- `debug` is the `Debug` of an `H256`
unfoldable pub slot_not_found_text : (Bytes → Text) → SlotNotFoundError → Text
slot_not_found_text debug e = codes "slot not found: " ++ debug e.slot

-- `error_text` is the `Display` of the error
unfoldable pub rpc_error_text : {E : Type 0} → (E → Text) → RpcError E → Text
rpc_error_text error_text e =
    codes "rpc error on method: " ++ e.method ++ codes ", message: " ++ error_text e.error
