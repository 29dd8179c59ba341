-- ===== src/Edge/Configuration.antt =====
-- src/edge/configuration.rs: the configuration that the edge pushes to a remotely-managed tunnel.
-- Reading the JSON is serde's: `parse_json` stands for `serde_json::from_slice` into the ingress
-- list, with the text of its error.
pub mod Pushes
use libcfd.Prelude.{
  [], String, Bool, not, List, ◌∷◌, ◌++◌, Result, ok, err, if◌then◌else◌, Bytes, str_append, str_eq,
}
use libcfd.Prelude.Int.{ℤ, negsuc}
use libcfd.Rpc.Server.{
  UpdateConfigurationResponse, CloudflaredHandler, default_register_udp_session,
}

pub record IngressRule : Type 0 where
  pub hostname : String
  pub service : String

pub record RemoteConfiguration : Type 0 where
  pub version : ℤ
  pub hostnames : List String
  pub services : List String

-- The loop over `parsed.ingress`, with the two vectors that it pushes to.
unfoldable pub collect_rules :
    List IngressRule → List String → List String → List String × List String
collect_rules [] hostnames services = (hostnames, services)
collect_rules (rule ∷ rules) hostnames services =
    let routed =
      collect_rules rules (hostnames ++ rule.hostname ∷ []) (services ++ rule.service ∷ []) in
    let skipped = collect_rules rules hostnames services in
    if not (str_eq rule.hostname "") then routed else skipped

-- The callback is there or not; `delivered` has what it was called with, in order.
pub record EdgeConfigurationHandler : Type 0 where
  pub has_callback : Bool
  pub applied : ℤ
  pub delivered : List RemoteConfiguration

unfoldable pub new : Bool → EdgeConfigurationHandler
new has_callback = record { has_callback = has_callback; applied = negsuc 0; delivered = [] }

module _ (parse_json : Bytes → Result String (List IngressRule)) where
  unfoldable pub parse_remote_configuration : ℤ → Bytes → Result String RemoteConfiguration
  parse_remote_configuration version configuration = elim (parse_json configuration) [
    | err e ↦ err (str_append "config is not valid JSON: " e)
    | ok ingress ↦
        let (hostnames, services) = collect_rules ingress [] [] in
        ok (record { version = version; hostnames = hostnames; services = services })
  ]

  -- What `update_configuration` does with the outcome of the parse.
  unfoldable apply :
      ℤ
      → Result String RemoteConfiguration
      → EdgeConfigurationHandler
      → UpdateConfigurationResponse × EdgeConfigurationHandler
  apply version (ok remote) h = (
    record { latest_applied_version = version; error = "" },
    record h {
      applied = version;
      delivered = if h.has_callback then h.delivered ++ remote ∷ [] else h.delivered;
    },
  )
  apply version (err e) h = (record { latest_applied_version = h.applied; error = e }, h)

  unfoldable pub update_configuration :
      EdgeConfigurationHandler → ℤ → Bytes → UpdateConfigurationResponse × EdgeConfigurationHandler
  unfolding apply
  update_configuration h version configuration =
      apply version (parse_remote_configuration version configuration) h

  -- The handler as the RPC server takes it.
  abbrev pub edge_configuration_handler : CloudflaredHandler EdgeConfigurationHandler
  edge_configuration_handler = record {
    update_configuration = update_configuration;
    register_udp_session = default_register_udp_session;
  }
