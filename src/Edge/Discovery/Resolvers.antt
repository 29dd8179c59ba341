-- ===== src/Edge/Discovery/Resolvers.antt =====
-- src/edge/discovery.rs: the resolvers that are asked, and the lookup over them. The parse of an IP
-- address, the file and the exchanges over UDP are parameters.
use libcfd.Prelude.{
  [], ℕ, ◌≡◌, refl, ◌∙◌, String, Bool, true, false, List, ◌∷◌, ◌++◌, Option, none, some, Result, ok,
  err, ◌==◌, if◌then◌else◌, Bytes, map, ◌⊎◌, inl, inr,
}
use libcfd.Prelude.Text.{Text, codes, trim, split_at}
use libcfd.Edge.Discovery.{
  Looping, then_with, SrvRecord, srv_query, parse_srv_response, encode_name, EdgeAddress,
  discover_edges, srv_lookup,
}
use libcfd.Edge.Discovery.Records.{Target, AreTargets}
use libcfd.Edge.Discovery.Responses.{response, parse_srv_response-response}

-- An address: the number of the IP address, and the port.
abbrev SocketAddr : Type 0
SocketAddr = ℕ × ℕ

-- `str::lines`, whose lines are trimmed where it is used: no line behind a last line feed.
abbrev without_last : List Text → List Text
without_last [] = []
without_last ([] ∷ []) = []
without_last (line ∷ lines) = let rest = without_last lines in line ∷ rest

abbrev lines : Text → List Text
lines text = without_last (split_at (λ c. c == 10) text)

-- `line.strip_prefix(prefix)`.
abbrev without_prefix : Text → Text → Option Text
without_prefix [] line = some line
without_prefix (p ∷ prefix) [] = none
without_prefix (p ∷ prefix) (c ∷ line) =
    let rest = without_prefix prefix line in if p == c then rest else none

module _ (parse_ip : Text → Option ℕ) where
  abbrev push_parsed : Option ℕ → List SocketAddr → List SocketAddr
  push_parsed none candidates = candidates
  push_parsed (some ip) candidates = (ip, 53) ∷ candidates

  abbrev push_nameserver : Option Text → List SocketAddr → List SocketAddr
  push_nameserver none candidates = candidates
  push_nameserver (some rest) candidates = push_parsed (parse_ip (trim rest)) candidates

  unfoldable name_servers : List Text → List SocketAddr
  name_servers [] = []
  name_servers (line ∷ lines) =
      push_nameserver (without_prefix (codes "nameserver") (trim line)) (name_servers lines)

  -- 1.1.1.1 stands behind those of the file.
  abbrev read_or_none : Option Text → List SocketAddr
  read_or_none none = []
  read_or_none (some contents) = name_servers (lines contents)

  unfoldable resolver_address : Option Text → List SocketAddr
  unfolding name_servers
  resolver_address contents = read_or_none contents ++ (16_843_009, 53) ∷ []

-- The network as the lookup sees it: the identifier of the query to a resolver, and the bytes that come
-- back, at most 4,096, or the error of the socket or of the five seconds' timeout.
pub record Network : Type 0 where
  pub random16 : SocketAddr → ℕ
  pub exchange : SocketAddr → Bytes → Result String Bytes

module _ (network : Network) (from_utf8_lossy : Bytes → Bytes) (fuel : ℕ)
    (service proto name : Bytes) where
  abbrev after_receive : ℕ → Result String Bytes → Looping (List SrvRecord)
  after_receive identifier (err e) = some (err e)
  after_receive identifier (ok []) = some (ok [])
  after_receive identifier (ok (b ∷ bytes)) =
      parse_srv_response from_utf8_lossy fuel (b ∷ bytes) identifier

  abbrev after_query : SocketAddr → Result String Bytes → Looping (List SrvRecord)
  after_query resolver (err e) = some (err e)
  after_query resolver (ok query) =
      after_receive (network.random16 resolver) (network.exchange resolver query)

  unfoldable query_srv : SocketAddr → Looping (List SrvRecord)
  query_srv resolver =
      after_query resolver (srv_query (network.random16 resolver) service proto name)

  -- The first resolver that has a record.
  abbrev or_next : Looping (List SrvRecord) → Looping (List SrvRecord) → Looping (List SrvRecord)
  or_next none next = none
  or_next (some (err e)) next = next
  or_next (some (ok [])) next = next
  or_next (some (ok (r ∷ records))) next = some (ok (r ∷ records))

  unfoldable lookup_srv : List SocketAddr → Looping (List SrvRecord)
  unfolding query_srv
  lookup_srv [] = some (ok [])
  lookup_srv (resolver ∷ resolvers) = or_next (query_srv resolver) (lookup_srv resolvers)

  -- A resolver that fails or knows no record.
  IsUseless : SocketAddr → Type 0
  IsUseless resolver =
      ((e : String) × (query_srv resolver ≡ some (err e))) ⊎ (query_srv resolver ≡ some (ok []))

  AreUseless : List SocketAddr → Type 0
  unfolding IsUseless
  AreUseless [] = Unit
  AreUseless (resolver ∷ resolvers) = IsUseless resolver × AreUseless resolvers

  query_srv-response :
      (resolver : SocketAddr) (targets : List Target) (question_name : Bytes)
      {query question : Bytes}
      → srv_query (network.random16 resolver) service proto name ≡ ok query
      → network.exchange resolver query ≡ ok (response (network.random16 resolver) question targets)
      → encode_name [] question_name ≡ ok question
      → AreTargets from_utf8_lossy fuel targets
      → query_srv resolver ≡ some (ok (map (λ t. (t.host, t.port)) targets))
  unfolding query_srv response
  query_srv-response resolver targets question_name q x e a =
      rw (q, x)
        (parse_srv_response-response from_utf8_lossy fuel (network.random16 resolver) question_name
          targets e a)

  or_next-useless :
      (resolver : SocketAddr) (next : Looping (List SrvRecord))
      → IsUseless resolver
      → or_next (query_srv resolver) next ≡ next
  unfolding IsUseless
  or_next-useless resolver next (inl (e, h)) = rw h
  or_next-useless resolver next (inr h) = rw h

  -- Behind resolvers that fail or know no record, the first that answers the query by a response with a
  -- target gives the hosts and ports that are looked up, whatever resolvers follow.
  lookup_srv-response :
      (before : List SocketAddr) (resolver : SocketAddr) (after : List SocketAddr) (t : Target)
      (targets : List Target) (question_name : Bytes) {query question : Bytes}
      → AreUseless before
      → srv_query (network.random16 resolver) service proto name ≡ ok query
      → network.exchange resolver query
        ≡ ok (response (network.random16 resolver) question (t ∷ targets))
      → encode_name [] question_name ≡ ok question
      → AreTargets from_utf8_lossy fuel (t ∷ targets)
      → lookup_srv (before ++ resolver ∷ after)
        ≡ some (ok ((t.host, t.port) ∷ map (λ t. (t.host, t.port)) targets))
  unfolding lookup_srv AreUseless IsUseless
  lookup_srv-response [] resolver after t targets question_name u q x e a =
      rw (query_srv-response resolver (t ∷ targets) question_name q x e a)
  lookup_srv-response (useless ∷ before) resolver after t targets question_name (u, us) q x e a =
      or_next-useless useless (lookup_srv (before ++ resolver ∷ after)) u
      ∙ lookup_srv-response before resolver after t targets question_name us q x e a

  -- Where every resolver fails or knows no record, the lookup has none.
  lookup_srv-useless :
      (resolvers : List SocketAddr) → AreUseless resolvers → lookup_srv resolvers ≡ some (ok [])
  unfolding lookup_srv AreUseless IsUseless
  lookup_srv-useless [] u = refl
  lookup_srv-useless (resolver ∷ resolvers) (u, us) =
      or_next-useless resolver (lookup_srv resolvers) u ∙ lookup_srv-useless resolvers us

-- The service that is looked up, with the region before it.
abbrev no_bytes : Bytes → Bool
no_bytes [] = true
no_bytes (b ∷ bytes) = false

abbrev service_of : Option Bytes → Bytes
service_of none = codes "v2-origintunneld"
service_of (some r) =
    if no_bytes r then codes "v2-origintunneld" else r ++ codes "-v2-origintunneld"

module _ (parse_ip : Text → Option ℕ) (resolv_conf : Option Text) (network : Network)
    (from_utf8_lossy : Bytes → Bytes) (fuel : ℕ) (resolve_host : Bytes → List ℕ)
    (fallback_edges : List Bytes) where
  abbrev lookup_region : Option Bytes → Looping (List SrvRecord)
  lookup_region region =
      lookup_srv network from_utf8_lossy fuel (service_of region) (codes "tcp")
        (codes "argotunnel.com") (resolver_address parse_ip resolv_conf)

  -- `discover_edges` with its lookup.
  unfoldable discover_region : Option Bytes → Looping (List EdgeAddress)
  unfolding then_with
  discover_region region =
      then_with (lookup_region region)
        λ records. some (discover_edges resolve_host fallback_edges (ok records ∷ []))

  -- Where no resolver has a record, the edges are those of the fallback hosts, in every region.
  discover_region-fallback :
      (region : Option Bytes)
      → AreUseless network from_utf8_lossy fuel
          (service_of region)
          (codes "tcp")
          (codes "argotunnel.com")
          (resolver_address parse_ip resolv_conf)
      → discover_region region ≡ some (discover_edges resolve_host fallback_edges [])
  unfolding discover_region then_with discover_edges srv_lookup
  discover_region-fallback region u = rw (
      lookup_srv-useless network from_utf8_lossy fuel (service_of region) (codes "tcp")
        (codes "argotunnel.com") (resolver_address parse_ip resolv_conf) u)
