-- ===== src/Witnesses/Quick.antt =====
-- The theorems on quick tunnels at concrete inputs.
use libcfd.Prelude.{
  [], ℕ, ◌≡◌, ◌≢◌, ◌<◌, refl, true, List, ◌∷◌, none, some, ok, err, arith, Bytes, ◌+◌,
}
use libcfd.Prelude.Text.{
  Text, codes, trim, trim_start, trim_end, is_whitespace, parse_uint, parse_digits,
  eq_ignore_ascii_case, to_ascii_lowercase,
}
use libcfd.Tunnel.{Codecs, QuickTunnel, parse_response, accept_result}
use libcfd.Tunnel.Quick.{
  default_options, Network, create_quick_tunnel, accept_response, post_empty, open_stream, exchange,
  quick_url, quick_headers,
}
use libcfd.Tunnel.Quick.Response.{parse_http_response}
use libcfd.Tunnel.Quick.Response.Lines.{IsHeader, AreHeaders, Announce}
use libcfd.Tunnel.Quick.Response.RoundTrip.{print, parse_http_response-print}
use libcfd.Tunnel.Quick.Answered.{Answered, create_quick_tunnel-Answered}

abbrev headers : List (Text × Text)
headers = (codes "Content-Length", codes "2") ∷ (codes "Server", codes "cloudflare") ∷ []

abbrev body : Bytes
body = codes "{}"

headers_are : AreHeaders headers
unfolding AreHeaders IsHeader trim trim_start trim_end is_whitespace
headers_are = (
  (omega arith, omega arith, refl, omega arith, refl),
  ((omega arith, omega arith, refl, omega arith, refl), tt),
)

announced : Announce 2 headers
unfolding Announce parse_uint parse_digits eq_ignore_ascii_case to_ascii_lowercase
announced = ((λ e. refl), ((λ e. cc), tt))

parse_http_response-print_example :
    parse_http_response (print 2 0 0 (codes "OK") headers body) ≡ ok (200, headers, body)
parse_http_response-print_example =
    parse_http_response-print 2 0 0 (codes "OK") headers body (omega arith) (omega arith)
      (omega arith) (omega arith) headers_are announced

abbrev codecs : Codecs
codecs = record {
  parse_uuid = λ s. ok (1 ∷ []);
  decode_base64 = λ s. ok (7 ∷ []);
  read_credentials = λ b. err "";
  read_token = λ b. err "";
  read_quick_response = λ b. ok (record {
    success = true;
    result = some (record {
      identifier = "id";
      name = "";
      hostname = "a.trycloudflare.com";
      account_tag = "tag";
      secret = 7 ∷ [];
    });
    errors = [];
  });
}

-- The service answers every request with `{}`.
abbrev network : Network ℕ ℕ ℕ
network = record {
  uri_try_from = λ url. ok (record {
    scheme = some "https";
    host = some "api.trycloudflare.com";
    port = none;
    path = "/tunnel";
    query = none;
  });
  server_name_try_from = λ host. ok tt;
  lookup_host = λ host port. ok (port ∷ []);
  connect = λ address. some (ok address);
  handshake = λ host tcp. some (ok tcp);
  write_all = λ request stream. ok (stream + 1);
  flush = λ stream. ok stream;
  read_to_end = λ stream. some (ok (print 2 0 0 (codes "OK") headers body));
  from_utf8_lossy = λ bytes. "";
}

abbrev created : QuickTunnel
created = record {
  tunnel_identifier = "id";
  name = "";
  hostname = "a.trycloudflare.com";
  account_tag = "tag";
  secret = 7 ∷ [];
}

creates : create_quick_tunnel network codecs "1" default_options ≡ ok created
unfolding create_quick_tunnel accept_response post_empty open_stream exchange parse_response
    accept_result
creates = rw parse_http_response-print_example refl

create_quick_tunnel-Answered_example :
    ((status : ℕ) × (body : Bytes) × Answered network codecs
        (quick_url default_options)
        (quick_headers "1")
        status
        body
      × (status < 300)
      × (parse_response codecs body ≡ ok created))
    × (created.tunnel_identifier ≢ "")
    × (created.hostname ≢ "")
create_quick_tunnel-Answered_example =
    create_quick_tunnel-Answered network codecs "1" default_options creates
