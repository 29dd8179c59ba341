-- ===== src/Rpc/Server.antt =====
-- rpc/src/cloudflared.rs: the server of the edge's calls on an RPC stream. The coding of messages
-- is Cap'n Proto's; a message stands here as the values that the schema's accessors give.
pub mod Replies
pub mod Wire
use libcfd.Prelude.{
  [], ℕ, ◌-◌, String, not, ◌&&◌, ◌||◌, List, ◌∷◌, ◌++◌, Option, none, some, ok, err, ◌>>=◌, ◌==◌,
  if◌then◌else◌, min, length, take, replicate, Bytes,
}
use libcfd.Prelude.Int.{ℤ}
use libcfd.Rpc.Error.{RpcError, eof, RpcResult}

abbrev pub cloudflared_server_interface_id : ℕ
cloudflared_server_interface_id = 0xf548_cef9_dea2_a4a1

abbrev pub session_manager_interface_id : ℕ
session_manager_interface_id = 0x8394_45a5_9fb0_1686

abbrev pub configuration_manager_interface_id : ℕ
configuration_manager_interface_id = 0xb48e_dfbd_aa25_db04

pub record UpdateConfigurationResponse : Type 0 where
  pub latest_applied_version : ℤ
  pub error : String

pub record RegisterUdpSessionResponse : Type 0 where
  pub error : String
  pub spans : Bytes

-- The trait `CloudflaredHandler` over a state of its own. (`unregister_udp_session` is called by
-- nothing.)
pub record CloudflaredHandler (S : Type 0) : Type 0 where
  pub update_configuration : S → ℤ → Bytes → UpdateConfigurationResponse × S
  pub register_udp_session : S → Bytes → Bytes → ℕ → RegisterUdpSessionResponse × S

-- The trait's default method.
unfoldable pub default_register_udp_session :
    {S : Type 0} → S → Bytes → Bytes → ℕ → RegisterUdpSessionResponse × S
default_register_udp_session s session_identifier destination_ip destination_port =
    (record { error = "UDP sessions are not supported"; spans = [] }, s)

pub data Method : Type 0 where
  update_configuration register_udp_session unregister_udp_session unknown : Method

unfoldable pub classify : ℕ → ℕ → Method
classify interface_identifier method_identifier =
    if interface_identifier == configuration_manager_interface_id && method_identifier == 0
      || interface_identifier == cloudflared_server_interface_id && method_identifier == 2
    then update_configuration
    else if interface_identifier == session_manager_interface_id && method_identifier == 0
        || interface_identifier == cloudflared_server_interface_id && method_identifier == 0
    then register_udp_session
    else if interface_identifier == session_manager_interface_id && method_identifier == 1
        || interface_identifier == cloudflared_server_interface_id && method_identifier == 1
    then unregister_udp_session
    else unknown

-- Sixteen bytes: the first of the blob, then zeros.
unfoldable pub session_identifier_bytes : Bytes → Bytes
session_identifier_bytes blob = let n = min (length blob) 16 in take n blob ++ replicate (16 - n) 0

-- The parameters of a call, as each method's accessors read them (`?` included).
pub record CallParameters : Type 0 where
  pub version_and_config : RpcResult (ℤ × Bytes)
  pub session_destination : RpcResult (Bytes × Bytes × ℕ)

pub data Frame : Type 0 where
  bootstrap : ℕ → Frame
  call : ℕ → ℕ → ℕ → CallParameters → Frame
  finish : ℕ → Frame
  release other_frame : Frame

-- The replies, by the values that their builders set; each carries the question that it answers.
pub data Reply : Type 0 where
  bootstrap_return : ℕ → Reply
  update_configuration_return : ℕ → UpdateConfigurationResponse → Reply
  register_udp_session_return : ℕ → RegisterUdpSessionResponse → Reply
  unregister_udp_session_return : ℕ → Reply
  exception_return : ℕ → String → Reply

module _ {S : Type 0} (handler : CloudflaredHandler S) where
  run_method : Method → ℕ → CallParameters → S → RpcResult (Reply × S)
  run_method update_configuration question parameters s = parameters.version_and_config >>= λ p.
      let (response, s') = handler.update_configuration s p.0 p.1 in
      ok (update_configuration_return question response, s')
  run_method register_udp_session question parameters s = parameters.session_destination >>= λ p.
      let (response, s') = handler.register_udp_session s (session_identifier_bytes p.0) p.1 p.2 in
      ok (register_udp_session_return question response, s')
  run_method unregister_udp_session question parameters s =
      ok (unregister_udp_session_return question, s)
  run_method unknown question parameters s = ok (exception_return question "unimplemented", s)

  -- The reply to one message, if it gets one, and the handler's state after it.
  unfoldable pub reply_to : Frame → S → RpcResult (Option Reply × S)
  unfolding run_method
  reply_to (bootstrap question) s = ok (some (bootstrap_return question), s)
  reply_to (call question interface_identifier method_identifier parameters) s =
      run_method (classify interface_identifier method_identifier) question parameters s >>= λ r.
      ok (some r.0, r.1)
  reply_to (finish question) s = ok (none, s)
  reply_to release s = ok (none, s)
  reply_to other_frame s = ok (none, s)

pub record Served (S : Type 0) : Type 0 where
  pub result : RpcResult (Unit {0})
  pub state : S
  pub replies : List Reply

abbrev replied : {S : Type 0} → Reply → Served S → Served S
replied r served = record served { replies = r ∷ served.replies }

abbrev stopped : {S : Type 0} → RpcResult (Unit {0}) → S → Served S
stopped result s = record { result = result; state = s; replies = [] }

-- The rest of a round: write the reply, if there is one, and go on with the next message. `writes`
-- has the outcome of each coming write; past the list writes succeed.
unfoldable pub continue_with :
    {S : Type 0}
    → RpcResult (Option Reply × S)
    → S
    → List (Option RpcError)
    → (List (Option RpcError) → S → Served S)
    → Served S
continue_with (err e) s writes next = stopped (err e) s
continue_with (ok (none, s')) s writes next = next writes s'
continue_with (ok (some r, s')) s [] next = replied r (next [] s')
continue_with (ok (some r, s')) s (none ∷ ws) next = replied r (next ws s')
continue_with (ok (some r, s')) s (some e ∷ ws) next = stopped (err e) s'

module _ {S : Type 0} (handler : CloudflaredHandler S) where
  -- `serve_cloudflared`: `inbox` is what the coming reads give (past it the stream has ended).
  -- `replies` has the replies written, in order.
  unfoldable pub serve_cloudflared : List (RpcResult Frame) → List (Option RpcError) → S → Served S
  unfolding continue_with
  serve_cloudflared [] writes s = stopped (ok tt) s
  serve_cloudflared (err eof ∷ inbox) writes s = stopped (ok tt) s
  serve_cloudflared (err e ∷ inbox) writes s = stopped (err e) s
  serve_cloudflared (ok frame ∷ inbox) writes s =
      continue_with (reply_to handler frame s) s writes (serve_cloudflared inbox)
