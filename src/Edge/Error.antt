-- ===== src/Edge/Error.antt =====
-- src/error.rs and the error.rs of src/tunnel, src/edge and src/origin. A formatted message
-- keeps the parts put into it.
pub mod Display
use libcfd.Prelude.{String, Bool, true, false}
use libcfd.Rpc.Error.{RpcError}
use libcfd.Rpc.Tunnel.{RegistrationFailure, permanent}

pub data EdgeError : Type 0 where
  edge_discovery : String → EdgeError
  quic : String → EdgeError
  registration : RegistrationFailure → EdgeError
  duplicate_connection : String → EdgeError
  h2 : String → EdgeError
  control : RpcError → EdgeError
  tls : String → EdgeError
  io : String → EdgeError

pub data TunnelError : Type 0 where
  quick_tunnel_api quick_tunnel_response quick_tunnel_request : String → TunnelError
  named_tunnel_credentials invalid_tunnel_identifier : String → TunnelError

pub data OriginError : Type 0 where
  handler : String → OriginError
  io : String → OriginError

pub data Error : Type 0 where
  tunnel : TunnelError → Error
  edge : EdgeError → Error
  origin : OriginError → Error

unfoldable pub is_permanent : Error → Bool
is_permanent (edge (registration (permanent _))) = true
is_permanent _ = false
