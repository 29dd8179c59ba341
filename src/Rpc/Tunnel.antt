-- ===== src/Rpc/Tunnel.antt =====
-- rpc/src/tunnel.rs: the typed client of the registration interface. The parameters of the three
-- calls are the values that are set on the Cap'n Proto builders; their results are read by
-- accessors, which `register_results` stands for.
use libcfd.Prelude.{ℕ, String, Bool, List, ok, err, ◌>>=◌, if◌then◌else◌, Bytes}
use libcfd.Prelude.Int.{ℤ}
use libcfd.Rpc.Error.{RpcError, RpcResult}
use libcfd.Rpc.Client.{RpcClient, bootstrap_call, method_call}

abbrev registration_server_interface_id : ℕ
registration_server_interface_id = 0xf716_95ec_7fe8_5497

abbrev method_register_connection : ℕ
method_register_connection = 0

abbrev method_unregister_connection : ℕ
method_unregister_connection = 1

abbrev method_update_local_configuration : ℕ
method_update_local_configuration = 2

pub record ClientInformation : Type 0 where
  pub client_identifier : Bytes
  pub features : List String
  pub version : String
  pub arch : String

pub record ConnectionOptions : Type 0 where
  pub client : ClientInformation
  pub origin_local_ip : Bytes
  pub replace_existing : Bool
  pub compression_quality : ℕ
  pub number_previous_attempts : ℕ

pub record TunnelAuth : Type 0 where
  pub account_tag : String
  pub tunnel_secret : Bytes

pub record ConnectionError : Type 0 where
  pub cause : String
  pub retry_after : ℤ
  pub should_retry : Bool

pub record ConnectionDetails : Type 0 where
  pub uuid : Bytes
  pub location_name : String
  pub tunnel_is_remotely_managed : Bool

pub data ConnectionResponse : Type 0 where
  error : ConnectionError → ConnectionResponse
  details : ConnectionDetails → ConnectionResponse

pub data RegistrationFailure : Type 0 where
  retryable : String → ℤ → RegistrationFailure
  permanent : String → RegistrationFailure

-- `impl From<ConnectionError> for RegistrationFailure`.
unfoldable pub registration_failure : ConnectionError → RegistrationFailure
registration_failure e =
    if e.should_retry then retryable e.cause e.retry_after else permanent e.cause

-- The parameters of a call of the registration interface.
pub data Parameters : Type 0 where
  register : TunnelAuth → Bytes → ℕ → ConnectionOptions → Parameters
  unregister : Parameters
  update_local_configuration : Bytes → Parameters

-- The results of `registerConnection` by the schema's accessors: the union's two cases, each with
-- an error where a field cannot be read.
pub data RegisterResults : Type 0 where
  error_result : RpcResult ConnectionError → RegisterResults
  details_result : RpcResult ConnectionDetails → RegisterResults
  unreadable : RpcError → RegisterResults

abbrev pub TunnelClient : Type 0
TunnelClient = RpcClient Parameters RegisterResults

unfoldable pub register_results : RegisterResults → RpcResult ConnectionResponse
register_results (error_result e) = e >>= λ x. ok (error x)
register_results (details_result d) = d >>= λ x. ok (details x)
register_results (unreadable e) = err e

unfoldable pub bootstrap : TunnelClient → RpcResult (Unit {0}) × TunnelClient
bootstrap c = let (r, c') = bootstrap_call c in (r >>= λ _. ok tt, c')

unfoldable pub register_connection :
    TunnelAuth
    → Bytes
    → ℕ
    → ConnectionOptions
    → TunnelClient
    → RpcResult ConnectionResponse × TunnelClient
unfolding register_results
register_connection auth tunnel_identifier connection_index options =
    method_call 0 registration_server_interface_id method_register_connection
      (ok (register auth tunnel_identifier connection_index options)) register_results

unfoldable pub unregister_connection : TunnelClient → RpcResult (Unit {0}) × TunnelClient
unregister_connection =
    method_call 0 registration_server_interface_id method_unregister_connection (ok unregister)
      (λ _. ok tt)

unfoldable pub update_configuration : Bytes → TunnelClient → RpcResult (Unit {0}) × TunnelClient
update_configuration configuration =
    method_call 0 registration_server_interface_id method_update_local_configuration
      (ok (update_local_configuration configuration)) (λ _. ok tt)
