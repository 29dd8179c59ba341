-- ===== src/Edge/Error/Display.antt =====
-- The texts of the errors: the formats of src/error.rs, of the error.rs below it, of
-- rpc/src/error.rs and of rpc/src/tunnel.rs. A message of the protocol is put together by `show`.
use libcfd.Prelude.{suc, String, str_append}
use libcfd.Prelude.Int.{ℤ, pos, negsuc}
use libcfd.Prelude.Text.{decimal}
use libcfd.Rpc.Error.{Message, RpcError, eof, protocol, abort, remote_call, io as rpc_io}
use libcfd.Rpc.Tunnel.{RegistrationFailure, retryable, permanent}
use libcfd.Edge.Error.{
  Error, tunnel, edge, origin, EdgeError, edge_discovery, quic, registration, duplicate_connection,
  h2, control, tls, TunnelError, quick_tunnel_api, quick_tunnel_response, quick_tunnel_request,
  named_tunnel_credentials, invalid_tunnel_identifier, OriginError, handler,
}

abbrev signed_decimal : ℤ → String
signed_decimal (pos n) = decimal n
signed_decimal (negsuc n) = str_append "-" (decimal (suc n))

unfoldable display_failure : RegistrationFailure → String
display_failure (retryable cause retry_after) =
    str_append "retryable registration failure (" (
      str_append cause
        (str_append ", retry after " (str_append (signed_decimal retry_after) "ns)")))
display_failure (permanent cause) = str_append "permanent registration failure: " cause

unfoldable display_tunnel : TunnelError → String
display_tunnel (quick_tunnel_api e) = str_append "quick tunnel API error: " e
display_tunnel (quick_tunnel_response e) = str_append "quick tunnel API response was malformed: " e
display_tunnel (quick_tunnel_request e) = str_append "quick tunnel API request failed: " e
display_tunnel (named_tunnel_credentials e) = str_append "named tunnel credentials error: " e
display_tunnel (invalid_tunnel_identifier e) = str_append "invalid tunnel id: " e

unfoldable display_origin : OriginError → String
display_origin (handler e) = str_append "origin handler error: " e
display_origin (OriginError.io e) = str_append "io error: " e

module _ (show : Message → String) where
  unfoldable display_rpc : RpcError → String
  display_rpc eof = "rpc stream ended unexpectedly"
  display_rpc (protocol message) = str_append "rpc protocol error: " (show message)
  display_rpc (abort reason error_type) =
      str_append "rpc aborted by peer (type "
        (str_append (decimal error_type) (str_append "): " reason))
  display_rpc (remote_call e) = str_append "rpc call failed remotely: " e
  display_rpc (rpc_io e) = str_append "rpc transport error: " e

  unfoldable display_edge : EdgeError → String
  unfolding display_failure display_rpc
  display_edge (edge_discovery e) = str_append "edge discovery failed: " e
  display_edge (quic e) = str_append "quic connection failed: " e
  display_edge (registration failure) = str_append "registration failed: " (display_failure failure)
  display_edge (duplicate_connection cause) = str_append "duplicate connection: " cause
  display_edge (h2 e) = str_append "http2 edge connection failed: " e
  display_edge (control e) = str_append "control stream error: " (display_rpc e)
  display_edge (tls e) = str_append "tls configuration failed: " e
  display_edge (EdgeError.io e) = str_append "io error: " e

  -- `to_string` of an error, which is that of the error it holds.
  unfoldable pub to_string : Error → String
  unfolding display_tunnel display_edge display_origin
  to_string (tunnel e) = display_tunnel e
  to_string (edge e) = display_edge e
  to_string (origin e) = display_origin e
