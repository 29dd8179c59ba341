-- ===== src/Witnesses/Links.antt =====
-- The theorems on discovery and the transports at concrete inputs.
use libcfd.Prelude.{
  [], ℕ, ◌≡◌, ◌<◌, refl, String, true, false, List, ◌∷◌, none, some, ok, err, Result, arith, Bytes,
  length,
}
use libcfd.Edge.Discovery.{
  split, encode_name, encode_labels, decode_name, EdgeAddress, contains, push_hosts, push_host,
  discover_edges, hosts, srv_lookup, SrvRecord, parse_srv_response,
}
use libcfd.Edge.Discovery.Names.{AreKept}
use libcfd.Edge.Discovery.Records.{Target, IsTarget, AreTargets}
use libcfd.Edge.Discovery.Responses.{response, parse_srv_response-response}
use libcfd.Edge.Discovery.{skip_name}
use libcfd.Edge.Discovery.Skips.{IsEndOf, skip_name-IsEndOf}
use libcfd.Edge.Discovery.Cycle.{PointsAtItself, decode_name-cycle}
use libcfd.Edge.Discovery.Edges.{IsDistinct, is_resolved, discover_edges-resolved}
use libcfd.Edge.H2.{
  RequestHeaders, classify, ServeEvent, accepted, Serving, accept, turn, after_turn, serve_loop,
  serve, goes_on,
}
use libcfd.Edge.H2.Opens.{controls, opened, serve-opened}
use libcfd.Edge.H2.Stream.{ReceiveStreamReader, poll_read, data_chunk, new}
use libcfd.Edge.H2.Stream.Content.{content, IsReader, IsHeld, Delivers, poll_read-Delivers}
use libcfd.Edge.H2.Stream.{SendStreamWriter, granted}
use libcfd.Edge.H2.Stream.Frames.{
  WriterUse, writes, closes, IsOpen, EndsOnce, LeavesOpen, has_close, ends, use_writer,
  use_writer-EndsOnce,
}
use libcfd.Edge.Drain.{
  DrainRead, read_bytes, timed_out, FitBuffer, IsBounded, drain_unread, start,
  drain_unread-IsBounded,
}

-- The name `a.b`.
abbrev name : Bytes
name = 97 ∷ 46 ∷ 98 ∷ []

abbrev wire : Bytes
wire = 1 ∷ 97 ∷ 1 ∷ 98 ∷ []

encoded_name : encode_name [] name ≡ ok wire
encoded_name = unfold encode_name split encode_labels in refl

-- A target of that name.
abbrev target : Target
target = record { host = name; encoded = wire; port = 7_844; ttl = 300; priority = 1; weight = 1 }

parse_srv_response-response_example :
    parse_srv_response (λ l. l) 3 (response 513 wire (target ∷ target ∷ [])) 513
    ≡ some (ok ((name, 7_844) ∷ (name, 7_844) ∷ []))
parse_srv_response-response_example =
    parse_srv_response-response (λ l. l) 3 513 name (target ∷ target ∷ []) encoded_name
      (unfold AreTargets in (known, (known, tt)))
  where
    known : IsTarget (λ l. l) 3 target
    known =
        unfold IsTarget in
        (encoded_name, unfold AreKept split in (refl, (refl, tt)), unfold split in omega arith)

decode_name-cycle_example : decode_name (λ l. l) 1_000 (192 ∷ 0 ∷ []) 0 [] ≡ none
decode_name-cycle_example =
    decode_name-cycle (λ l. l) 1_000 (192 ∷ 0 ∷ []) 0 []
      (unfold PointsAtItself in (omega arith, refl, refl, omega arith))

-- One resolver answers with a record, whose host has two addresses; the second is listed twice.
abbrev answers : List (Result String (List SrvRecord))
answers = err "dns timeout" ∷ ok ((name, 7_844) ∷ []) ∷ []

abbrev resolve_host : Bytes → List ℕ
resolve_host host = 1 ∷ 2 ∷ 2 ∷ []

abbrev found_edges : List EdgeAddress
found_edges = record { ip = 1; port = 7_844 } ∷ record { ip = 2; port = 7_844 } ∷ []

edges_found : discover_edges resolve_host [] answers ≡ ok found_edges
unfolding discover_edges push_hosts push_host contains hosts srv_lookup
edges_found = refl

discover_edges-resolved_example :
    (0 < length found_edges)
    × IsDistinct found_edges
    × ((x : EdgeAddress)
        → contains found_edges x ≡ is_resolved resolve_host (hosts [] (srv_lookup answers)) x)
discover_edges-resolved_example = discover_edges-resolved resolve_host [] answers edges_found

abbrev control_headers : RequestHeaders
control_headers = record { internal_upgrade = some "control-stream"; has_tcp_src = false }

abbrev http_headers : RequestHeaders
http_headers = record { internal_upgrade = none; has_tcp_src = false }

-- A control stream, a request, and a second control stream.
abbrev opening : List ServeEvent
opening = accepted 1 control_headers ∷ accepted 3 http_headers ∷ accepted 5 control_headers ∷ []

abbrev serving : Serving
serving = record {
  registration_tx = false;
  control_task = some 1;
  registration_done = false;
  stream_tasks = 3 ∷ [];
  rejected = 5 ∷ [];
  control_notified = false;
  aborted = false;
}

served_opening : serve opening ≡ goes_on serving
unfolding serve serve_loop turn accept classify after_turn
served_opening = refl

serve-opened_example :
    (controls serving ≡ opened true opening) × (serving.stream_tasks ≡ opened false opening)
serve-opened_example = serve-opened opening served_opening

abbrev reader : ReceiveStreamReader
reader = new (data_chunk [] ∷ data_chunk (1 ∷ 2 ∷ 3 ∷ []) ∷ [])

reader-IsReader : IsReader reader
unfolding IsReader IsHeld
reader-IsReader = (refl, λ e. absurd (cc e))

poll_read-Delivers_example :
    let d = poll_read (λ n. ok tt) 2 reader in Delivers d.1 (content reader) d.0
poll_read-Delivers_example =
    poll_read-Delivers (λ n. ok tt) (λ n. refl) 2 reader reader-IsReader (omega arith)

abbrev reads : List DrainRead
reads = read_bytes 8_192 ∷ read_bytes 100 ∷ timed_out ∷ []

drain_unread-IsBounded_example : IsBounded (drain_unread reads start)
drain_unread-IsBounded_example =
    drain_unread-IsBounded reads (unfold FitBuffer in (omega arith, (omega arith, tt)))

abbrev writer : SendStreamWriter
writer = record { capacity = 0; reserved = 0; sent = []; closed = false }

-- A write, a close whose end is refused, and a write and a close too many.
abbrev writer_uses : List WriterUse
writer_uses =
    writes (1 ∷ 2 ∷ []) (granted 2)
    ∷ closes (err "reset")
    ∷ writes (3 ∷ []) (granted 1)
    ∷ closes (ok tt)
    ∷ []

use_writer-EndsOnce_example :
    ((use_writer (λ b. ok tt) writer_uses writer).closed ≡ has_close writer_uses)
    × EndsOnce (ends writer_uses) (use_writer (λ b. ok tt) writer_uses writer).sent
use_writer-EndsOnce_example =
    use_writer-EndsOnce (λ b. ok tt) writer_uses writer (unfold LeavesOpen IsOpen in (refl, tt))

-- The name `b.a`, whose last label is a pointer to the first byte.
abbrev compressed : Bytes
compressed = 1 ∷ 97 ∷ 0 ∷ 1 ∷ 98 ∷ 192 ∷ 0 ∷ []

skip_name-IsEndOf_example : IsEndOf compressed 3 (skip_name compressed 3)
skip_name-IsEndOf_example = skip_name-IsEndOf compressed 3
