-- ===== src/Edge/Discovery.antt =====
-- src/edge/discovery.rs: the SRV query, the parser of its response and the list of edges. Names are
-- the bytes of their UTF-8 text; `from_utf8_lossy` is the standard library's.
pub mod Names
pub mod Skips
pub mod Cycle
pub mod Edges
pub mod Records
pub mod Responses
pub mod Resolvers
use libcfd.Prelude.{
  [], ◌>>=◌, ℕ, zero, suc, ◌+◌, ◌*◌, ◌/◌, ◌%◌, String, Bool, true, false, not, ◌&&◌, ◌||◌, List,
  ◌∷◌, ◌++◌, Option, none, some, Result, ok, err, ltb, leb, ◌==◌, if◌then◌else◌, length, take, drop,
  get_or, Bytes, map,
}
use libcfd.Prelude.{u16_from_be_bytes}

-- `name.split('.')`: 46 is the dot.
abbrev prefix_first : ℕ → List Bytes → List Bytes
prefix_first b [] = (b ∷ []) ∷ []
prefix_first b (label ∷ labels) = (b ∷ label) ∷ labels

unfoldable pub split : Bytes → List Bytes
split [] = [] ∷ []
split (b ∷ bs) = let rest = split bs in if b == 46 then [] ∷ rest else prefix_first b rest

unfoldable pub encode_labels : Bytes → List Bytes → Result String Bytes
encode_labels out [] = ok out
encode_labels out (label ∷ labels) =
    let rest = encode_labels (out ++ length label ∷ label) labels in
    if length label == 0 || ltb 63 (length label) then err "bad label" else rest

unfoldable pub encode_name : Bytes → Bytes → Result String Bytes
encode_name out name = encode_labels out (split name)

-- The query for an SRV record.
unfoldable srv_query : ℕ → Bytes → Bytes → Bytes → Result String Bytes
srv_query identifier service proto name = do
  qname ← encode_name [] service
  qname ← encode_name qname proto
  qname ← encode_name qname name
  ok (
      ((identifier / 256) ∷ (identifier % 256) ∷ 1 ∷ 0 ∷ 0 ∷ 1 ∷ 0 ∷ 0 ∷ 0 ∷ 0 ∷ 0 ∷ 0 ∷ [])
      ++ (qname ++ 0 ∷ [])
      ++ (0 ∷ 33 ∷ 0 ∷ 1 ∷ []))

-- `length & 0xc0 == 0xc0` and `length & 0xc0 != 0`, on a byte.
abbrev is_pointer : ℕ → Bool
is_pointer length = length / 64 == 3

abbrev is_reserved : ℕ → Bool
is_reserved length = not (length / 64 == 0)

-- The loop of `skip_name`, on fuel.
unfoldable pub skip_loop : ℕ → Bytes → ℕ → Option (Result String ℕ)
skip_loop zero bytes position = none
skip_loop (suc fuel) bytes position =
    let n = get_or bytes position 0 in
    let rest = skip_loop fuel bytes (position + 1 + n) in
    if leb (length bytes) position
    then some (err "name overflow")
    else if n == 0
    then some (ok (position + 1))
    else if is_pointer n
    then some (ok (position + 2))
    else if is_reserved n
    then some (err "bad label")
    else rest

-- The variables of the loop of `decode_name`; `position` and `out` are its `&mut` arguments.
pub record NameState : Type 0 where
  pub p : ℕ
  pub jumped : Bool
  pub position : ℕ
  pub out : Bytes

-- A turn of the loop returns or leaves the next state.
pub data NameStep : Type 0 where
  done : Result String (ℕ × Bytes) → NameStep
  next : NameState → NameStep

unfoldable pub push_label : (Bytes → Bytes) → Bytes → Bytes → Bytes
push_label from_utf8_lossy out label =
    (if length out == 0 then out else out ++ 46 ∷ []) ++ from_utf8_lossy label

unfoldable pub decode_label : (Bytes → Bytes) → Bytes → ℕ → NameState → NameStep
decode_label from_utf8_lossy bytes n s =
    if n == 0
    then done (ok ((if s.jumped then s.position else s.p + 1), s.out))
    else if is_pointer n
    then (if leb (length bytes) (s.p + 1)
        then done (err "bad pointer")
        else next (record {
          p = n % 64 * 256 + get_or bytes (s.p + 1) 0;
          jumped = true;
          position = if s.jumped then s.position else s.p + 2;
          out = s.out;
        }))
    else if is_reserved n
    then done (err "bad label")
    else if ltb (length bytes) (s.p + 1 + n)
    then done (err "label overflow")
    else next (record s {
      p = s.p + 1 + n;
      out = push_label from_utf8_lossy s.out (take n (drop (s.p + 1) bytes));
    })

unfoldable pub decode_step : (Bytes → Bytes) → Bytes → NameState → NameStep
unfolding decode_label
decode_step from_utf8_lossy bytes s =
    if leb (length bytes) s.p
    then done (err "name overflow")
    else decode_label from_utf8_lossy bytes (get_or bytes s.p 0) s

unfoldable pub after_step :
    NameStep → (NameState → Option (Result String (ℕ × Bytes))) → Option (Result String (ℕ × Bytes))
after_step (done r) loop = some r
after_step (next s) loop = loop s

-- The loop of `decode_name`, on fuel.
unfoldable pub decode_loop :
    (Bytes → Bytes) → ℕ → Bytes → NameState → Option (Result String (ℕ × Bytes))
unfolding after_step
decode_loop from_utf8_lossy zero bytes s = none
decode_loop from_utf8_lossy (suc fuel) bytes s =
    after_step (decode_step from_utf8_lossy bytes s) (decode_loop from_utf8_lossy fuel bytes)

unfoldable pub decode_name :
    (Bytes → Bytes) → ℕ → Bytes → ℕ → Bytes → Option (Result String (ℕ × Bytes))
unfolding decode_loop
decode_name from_utf8_lossy fuel bytes position out =
    decode_loop from_utf8_lossy fuel bytes
      (record { p = position; jumped = false; position = position; out = out })

-- The fuel given to the loops over names: a turn of `skip_name` goes forward by a byte at least.
abbrev pub skip_name : Bytes → ℕ → Option (Result String ℕ)
skip_name bytes position = skip_loop (suc (length bytes)) bytes position

abbrev u16_at : Bytes → ℕ → ℕ
u16_at bytes position = u16_from_be_bytes (get_or bytes position 0) (get_or bytes (position + 1) 0)

-- A function that may run forever or fail, and what is done with its result.
abbrev Looping : Type 0 → Type 0
Looping A = Option (Result String A)

unfoldable then_with : {A B : Type 0} → Looping A → (A → Looping B) → Looping B
then_with none f = none
then_with (some (ok a)) f = f a
then_with (some (err e)) f = some (err e)

abbrev pub SrvRecord : Type 0
SrvRecord = Bytes × ℕ

module _ (from_utf8_lossy : Bytes → Bytes) (fuel : ℕ) (bytes : Bytes) where
  -- A record behind its header, at `position`: an SRV record of class IN gives a target.
  unfoldable parse_target : ℕ → ℕ → ℕ → ℕ → Looping (Option SrvRecord)
  unfolding then_with
  parse_target rtype rclass rdlen position =
      if not (rclass == 1)
      then some (ok none)
      else if rtype == 33 && leb 6 rdlen
      then then_with (decode_name from_utf8_lossy fuel bytes (position + 6) [])
          (λ r. some (ok (some (r.1, u16_at bytes (position + 4)))))
      else some (ok none)

  -- The record at `position`, and the position of the next one.
  unfoldable parse_record : ℕ → Looping (Option SrvRecord × ℕ)
  unfolding then_with
  parse_record position =
      if leb (length bytes) position
      then some (err "truncated dns answer")
      else (then_with (skip_name bytes position) λ position.
          let rdlen = u16_at bytes (position + 8) in
          if ltb (length bytes) (position + 10)
          then some (err "truncated rr")
          else if ltb (length bytes) (position + 10 + rdlen)
          then some (err "truncated rdata")
          else (then_with
              (parse_target (u16_at bytes position) (u16_at bytes (position + 2)) rdlen
                (position + 10))
              (λ r. some (ok (r, position + 10 + rdlen)))))

  abbrev keep : Option SrvRecord → List SrvRecord → List SrvRecord
  keep none records = records
  keep (some r) records = r ∷ records

  unfoldable parse_records : ℕ → ℕ → Looping (List SrvRecord)
  unfolding then_with
  parse_records zero position = some (ok [])
  parse_records (suc answers) position = then_with (parse_record position) λ (r, position).
      then_with (parse_records answers position) λ records. some (ok (keep r records))

  pub parse_srv_response : ℕ → Looping (List SrvRecord)
  unfolding then_with
  parse_srv_response identifier =
      if ltb (length bytes) 12
      then some (err "short dns header")
      else if not (u16_at bytes 0 == identifier)
      then some (err "dns id mismatch")
      else (then_with (skip_name bytes 12)
          λ position. parse_records (u16_at bytes 6) (position + 4))

-- An address of the edge: the number of the IP address, and the port.
pub record EdgeAddress : Type 0 where
  pub ip : ℕ
  pub port : ℕ

unfoldable pub contains : List EdgeAddress → EdgeAddress → Bool
contains [] a = false
contains (e ∷ edges) a = (e.ip == a.ip && e.port == a.port) || contains edges a

abbrev push_new : EdgeAddress → List EdgeAddress → List EdgeAddress
push_new a edges = if contains edges a then edges else edges ++ a ∷ []

unfoldable pub push_host : ℕ → List ℕ → List EdgeAddress → List EdgeAddress
push_host port [] edges = edges
push_host port (ip ∷ ips) edges =
    push_host port ips (push_new (record { ip = ip; port = port }) edges)

unfoldable pub push_hosts : (Bytes → List ℕ) → List SrvRecord → List EdgeAddress → List EdgeAddress
push_hosts resolve_host [] edges = edges
push_hosts resolve_host ((host, port) ∷ records) edges =
    push_hosts resolve_host records (push_host port (resolve_host host) edges)

-- The first resolver with a record; the answers of the resolvers are the network's.
unfoldable pub srv_lookup : List (Result String (List SrvRecord)) → List SrvRecord
srv_lookup [] = []
srv_lookup (err e ∷ answers) = srv_lookup answers
srv_lookup (ok [] ∷ answers) = srv_lookup answers
srv_lookup (ok (r ∷ records) ∷ answers) = r ∷ records

abbrev fallback_edge_port : ℕ
fallback_edge_port = 7_844

-- The records looked up, or the fallback hosts when there is none.
unfoldable pub hosts : List Bytes → List SrvRecord → List SrvRecord
hosts fallback_edges [] = map (λ host. (host, fallback_edge_port)) fallback_edges
hosts fallback_edges (r ∷ records) = r ∷ records

abbrev non_empty : List EdgeAddress → Result String (List EdgeAddress)
non_empty [] = err "no edge addresses could be resolved"
non_empty (e ∷ edges) = ok (e ∷ edges)

unfoldable pub discover_edges :
    (Bytes → List ℕ)
    → List Bytes
    → List (Result String (List SrvRecord))
    → Result String (List EdgeAddress)
discover_edges resolve_host fallback_edges answers =
    non_empty (push_hosts resolve_host (hosts fallback_edges (srv_lookup answers)) [])
