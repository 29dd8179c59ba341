-- ===== src/Rpc/Error.antt =====
-- rpc/src/error.rs: `RpcError`. A formatted message keeps its text and the numbers put into it.
use libcfd.Prelude.{ℕ, String, List, Result}

pub data Message : Type 0 where
  text : String → Message
  format : String → List ℕ → Message

pub data RpcError : Type 0 where
  eof : RpcError
  protocol : Message → RpcError
  abort : String → ℕ → RpcError
  remote_call : String → RpcError
  io : String → RpcError

abbrev pub RpcResult {ℓ} : Type ℓ → Type ℓ
RpcResult A = Result RpcError A
